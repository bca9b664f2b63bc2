-- ===== src/Gyp/Graph/Wiring.antt =====
-- The graph of a whole table of targets: `IsGraphOf`, and when `BuildDependencyList` can link it.
use dcfpe.Common.{
  lookup_no_key, ◌≡◌, refl, sym, subst, ap, ◌∙◌, inl, inr, Bool, true, false, ◌||◌, Option, none,
  some, List, [], ◌∷◌, Text, text_Eq, text_eq_iff, =?_refl, contains, Nodup, Dict, lookup, has_key,
  insert, keys, contains-keys, lookup-insert, has_key-insert, Bool-cases, arith,
}
use dcfpe.Common.Results.{ok, >>=-ok}
use dcfpe.Gyp.Value.{Value, Targets, texts_at}
use dcfpe.Gyp.Graph.Linking.{Linked, wired, is_nil, link_target-Linked}
use dcfpe.Gyp.Graph.{
  Node, Graph, empty_node, node_or_empty, dependencies_of, dependents_of, create_nodes, link_target,
  dependencies_key, link_targets, unlinked, build_graph,
}

abbrev pub names_of : Option (Dict Text Value) → List Text
names_of none = []
names_of (some spec) = texts_at dependencies_key spec

-- `t` is a target that names `d` as a dependency.
abbrev pub depends_on : Targets → Text → Text → Bool
depends_on ts m n = contains n (names_of (lookup m ts))

abbrev pub wired_or : Option (Dict Text Value) → List (Option Text) → List (Option Text)
wired_or none old = old
wired_or (some spec) old = wired (texts_at dependencies_key spec)

abbrev pub has_none : Option (Dict Text Value) → Bool
has_none none = false
has_none (some spec) = is_nil (texts_at dependencies_key spec)

-- What the links of all targets change.
pub record AllLinked (ts : Targets) (g g' : Graph) : Type 0 where
  pub same_keys : (j : Text) → has_key j g'.nodes ≡ has_key j g.nodes
  pub dependencies :
      (m : Text) → dependencies_of g' m ≡ wired_or (lookup m ts) (dependencies_of g m)
  pub dependents :
      (m n : Text)
      → contains m (dependents_of g' n) ≡ (contains m (dependents_of g n) || depends_on ts m n)
  pub root_dependents :
      (m : Text)
      → contains m g'.root_dependents ≡ (contains m g.root_dependents || has_none (lookup m ts))

AllLinked-nil : (g : Graph) → AllLinked [] g g
unfolding lookup contains
AllLinked-nil g = record {
  same_keys = λ j. refl;
  dependencies = λ m. refl;
  dependents = λ m n. ground arith;
  root_dependents = λ m. ground arith;
}

pub lookup_absent : (m : Text) (ts : Targets) → contains m (keys ts) ≡ false → lookup m ts ≡ none
unfolding contains lookup
lookup_absent m [] h = refl
lookup_absent m ((t, spec) ∷ ts) h = ground (arith, lookup_absent m ts)

AllLinked-cons :
    (t : Text) (spec : Dict Text Value) (ts : Targets) (g g₁ g' : Graph)
    → contains t (keys ts) ≡ false
    → Linked t
        (texts_at dependencies_key spec)
        (is_nil (texts_at dependencies_key spec))
        (wired (texts_at dependencies_key spec))
        g
        g₁
    → AllLinked ts g₁ g'
    → AllLinked ((t, spec) ∷ ts) g g'
unfolding lookup contains
AllLinked-cons t spec ts g g₁ g' absent l a = record {
  same_keys = λ j. a.same_keys j ∙ l.same_keys j;
  dependencies = λ m.
      ground
        (arith, text_eq_iff m t, a.dependencies m, l.dependencies m, lookup_absent t ts absent);
  dependents = λ m n.
      ground
        (arith, text_eq_iff m t, a.dependents m n, l.dependents m n, lookup_absent t ts absent);
  root_dependents = λ m.
      ground (
        arith,
        text_eq_iff m t,
        a.root_dependents m,
        l.root_dependents m,
        lookup_absent t ts absent,
      );
}

pub link_targets-AllLinked :
    (ts : Targets) (g g' : Graph)
    → Nodup (keys ts)
    → ((m : Text) → contains m (keys ts) ≡ true → has_key m g.nodes ≡ true)
    → ((m : Text) → contains m (keys ts) ≡ true → dependencies_of g m ≡ [])
    → link_targets ts g ≡ ok g'
    → AllLinked ts g g'
unfolding link_targets contains
link_targets-AllLinked [] g g' n k fresh e =
    let same : g ≡ g' = cc in subst (AllLinked [] g) same (AllLinked-nil g)
link_targets-AllLinked ((t, spec) ∷ ts) g g' n k fresh e =
    let (g₁, e₁, e₂) = >>=-ok (link_target t (texts_at dependencies_key spec) g) _ e in
    let l =
      link_target-Linked t (texts_at dependencies_key spec) g g₁ (k t (ground (arith, =?_refl t)))
        (fresh t (ground (arith, =?_refl t))) e₁ in
    AllLinked-cons t spec ts g g₁ g' n.0 l (
      link_targets-AllLinked ts g₁ g' n.1 (λ m h. l.same_keys m ∙ k m (ground arith))
        (λ m h. ground (arith, l.dependencies m, text_eq_iff m t, fresh m (ground arith), n.0)) e₂)

pub lookup-create_nodes :
    (j : Text) (ts : List Text) (nodes : Dict Text Node)
    → node_or_empty (lookup j (create_nodes ts nodes)) ≡ node_or_empty (lookup j nodes)
unfolding lookup create_nodes
lookup-create_nodes j [] nodes = refl
lookup-create_nodes j (t ∷ ts) nodes = elim (Bool-cases (has_key t nodes)) [
  | inl h ↦ rw h (lookup-create_nodes j ts nodes)
  | inr h ↦ rw h (
      lookup-create_nodes j ts (insert t empty_node nodes)
      ∙ ground
          (arith, text_eq_iff j t, lookup-insert t j empty_node nodes, lookup_no_key t nodes h))
]

pub has_key-create_nodes :
    (j : Text) (ts : List Text) (nodes : Dict Text Node)
    → has_key j (create_nodes ts nodes) ≡ (contains j ts || has_key j nodes)
unfolding contains create_nodes
has_key-create_nodes j [] nodes = refl
has_key-create_nodes j (t ∷ ts) nodes = elim (Bool-cases (has_key t nodes)) [
  | inl h ↦ rw h (has_key-create_nodes j ts nodes ∙ ground (arith, text_eq_iff j t))
  | inr h ↦ rw h (
      has_key-create_nodes j ts (insert t empty_node nodes)
      ∙ ground (arith, has_key-insert t j empty_node nodes))
]

-- The nodes and their links are those of the targets.
pub record IsGraphOf (ts : Targets) (g : Graph) : Type 0 where
  pub nodes : (m : Text) → has_key m g.nodes ≡ has_key m ts
  pub dependencies : (m : Text) → dependencies_of g m ≡ wired_or (lookup m ts) []
  pub dependents : (m n : Text) → contains m (dependents_of g n) ≡ depends_on ts m n
  pub roots : (m : Text) → contains m g.root_dependents ≡ has_none (lookup m ts)

pub has_key-unlinked : (m : Text) (ts : Targets) → has_key m (unlinked ts).nodes ≡ has_key m ts
unfolding unlinked has_key
has_key-unlinked m ts = ground (arith, has_key-create_nodes m (keys ts) [], contains-keys m ts)

pub dependencies_of-unlinked : (m : Text) (ts : Targets) → dependencies_of (unlinked ts) m ≡ []
unfolding unlinked dependencies_of lookup
dependencies_of-unlinked m ts = ap (λ n. n.dependencies) (lookup-create_nodes m (keys ts) [])

dependents_of-unlinked : (m : Text) (ts : Targets) → dependents_of (unlinked ts) m ≡ []
unfolding unlinked dependents_of lookup
dependents_of-unlinked m ts = ap (λ n. n.dependents) (lookup-create_nodes m (keys ts) [])

pub build_graph-IsGraphOf :
    (ts : Targets) (g : Graph) → Nodup (keys ts) → build_graph ts ≡ ok g → IsGraphOf ts g
unfolding build_graph contains
build_graph-IsGraphOf ts g n e =
    let a =
      link_targets-AllLinked ts (unlinked ts) g n
        (λ m h. has_key-unlinked m ts ∙ (sym (contains-keys m ts) ∙ h))
        (λ m h. dependencies_of-unlinked m ts) e in
    record {
      nodes = λ m. a.same_keys m ∙ has_key-unlinked m ts;
      dependencies = λ m. rw (← dependencies_of-unlinked m ts) (a.dependencies m);
      dependents = λ m k. ground (arith, a.dependents m k, dependents_of-unlinked k ts);
      roots = λ m. unfold unlinked in a.root_dependents m;
    }

-- Every dependency that a target names is a target.
abbrev pub IsClosed : Targets → Type 0
IsClosed ts = (m n : Text) → depends_on ts m n ≡ true → has_key n ts ≡ true

pub depends_on-target : (m n : Text) (ts : Targets) → depends_on ts m n ≡ true → has_key m ts ≡ true
unfolding lookup has_key contains
depends_on-target m n [] h = absurd (ground arith)
depends_on-target m n ((t, spec) ∷ ts) h = ground (arith, depends_on-target m n ts)
