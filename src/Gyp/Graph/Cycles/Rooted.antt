-- ===== src/Gyp/Graph/Cycles/Rooted.antt =====
-- The finished graph of the .gyp files, of `VerifyNoGYPFileCircularDependencies` in
-- src/tools/pylib_dbg/input.py, as the graph of a table: each file with the files that it depends on.
use dcfpe.Common.{
  ◌≡◌, refl, sym, ◌∙◌, ap, inl, inr, true, false, ◌&&◌, ◌||◌, Option, none, some, List, [], ◌∷◌,
  if◌then◌else◌, map, Text, text_Eq, text_eq, text_eq_iff, ◌=?◌, =?_refl, contains, Dict, lookup,
  has_key, keys, contains-keys, has_key_missing, lookup_no_key, lookup-has_key, Bool-cases,
  Option-cases, arith,
}
use dcfpe.Gyp.Value.{list, of_texts, texts-of_texts, Targets, texts_at}
use dcfpe.Gyp.Graph.{
  Node, Graph, node_or_empty, link_root, dependencies_of, dependents_of, dependencies_key,
}
use dcfpe.Gyp.Graph.Linking.{Linked-root, wired, is_nil}
use dcfpe.Gyp.Graph.Wiring.{IsGraphOf, depends_on, names_of, wired_or, has_none}
use dcfpe.Gyp.Graph.Deep.{names_in}
use dcfpe.Gyp.Graph.Cycles.{ref_among, no_refs, link_roots}
use dcfpe.Gyp.Graph.Cycles.Links.{has_root, IsLinkedUp, keys-modify}

no_refs-nil : (refs : List (Option Text)) → no_refs refs ≡ true → refs ≡ []
no_refs-nil [] h = refl
no_refs-nil (d ∷ refs) h = absurd (ground arith)

keys-link_root : (t : Text) (g : Graph) → keys (link_root t g).nodes ≡ keys g.nodes
unfolding link_root
keys-link_root t g = keys-modify t _ g.nodes

-- What the root gets from the files of a list.
record Rooted (files : List Text) (g g' : Graph) : Type 0 where
  listed : keys g'.nodes ≡ keys g.nodes
  dependencies :
      (m : Text)
      → dependencies_of g' m ≡ (
          if contains m files && no_refs (dependencies_of g m)
          then none ∷ []
          else dependencies_of g m)
  dependents : (m n : Text) → contains m (dependents_of g' n) ≡ contains m (dependents_of g n)
  roots :
      (m : Text)
      → contains m g'.root_dependents
        ≡ (contains m g.root_dependents || (contains m files && no_refs (dependencies_of g m)))

link_roots-Rooted :
    (files : List Text) (g : Graph)
    → ((m : Text) → contains m files ≡ true → has_key m g.nodes ≡ true)
    → Rooted files g (link_roots files g)
unfolding link_roots contains
link_roots-Rooted [] g h = record {
  listed = refl;
  dependencies = λ m. refl;
  dependents = λ m n. refl;
  roots = λ m. ground arith;
}
link_roots-Rooted (file ∷ files) g h = elim (Bool-cases (no_refs (dependencies_of g file))) [
  | inl alone ↦
      let l = Linked-root file g (h file (ground (arith, =?_refl file))) in
      let r =
        link_roots-Rooted files (link_root file g) (λ m k. l.same_keys m ∙ h m (ground arith)) in
      rw alone (record {
        listed = r.listed ∙ keys-link_root file g;
        dependencies =
            λ m. r.dependencies m ∙ ground (arith, l.dependencies m, text_eq_iff m file, alone);
        dependents = λ m n. r.dependents m n ∙ ground (arith, l.dependents m n);
        roots = λ m.
            r.roots m
            ∙ ground (arith, l.root_dependents m, l.dependencies m, text_eq_iff m file, alone);
      })
  | inr linked ↦
      let r = link_roots-Rooted files g (λ m k. h m (ground arith)) in
      rw linked (record {
        listed = r.listed;
        dependencies = λ m. r.dependencies m ∙ ground (arith, text_eq_iff m file, linked);
        dependents = r.dependents;
        roots = λ m. r.roots m ∙ ground (arith, text_eq_iff m file, linked);
      })
]

-- Each node with the names that it depends on.
unfoldable pub table : Dict Text Node → Targets
table [] = []
table ((t, node) ∷ nodes) =
    (t, (dependencies_key, list (of_texts (names_in node.dependencies))) ∷ []) ∷ table nodes

pub keys-table : (nodes : Dict Text Node) → keys (table nodes) ≡ keys nodes
unfolding table
keys-table [] = refl
keys-table ((t, node) ∷ nodes) = ap (λ l. t ∷ l) (keys-table nodes)

names_of-table :
    (m : Text) (nodes : Dict Text Node)
    → names_of (lookup m (table nodes)) ≡ names_in (node_or_empty (lookup m nodes)).dependencies
unfolding table lookup texts_at text_eq
names_of-table m [] = refl
names_of-table m ((t, node) ∷ nodes) = elim (Bool-cases (m =? t)) [
  | inl same ↦ rw (same, lookup) (texts-of_texts (names_in node.dependencies))
  | inr other ↦ rw (other, lookup) (names_of-table m nodes)
]

contains-names_in :
    (n : Text) (refs : List (Option Text)) → contains n (names_in refs) ≡ ref_among n refs
unfolding contains ref_among
contains-names_in n [] = refl
contains-names_in n (none ∷ refs) = contains-names_in n refs
contains-names_in n (some d ∷ refs) = ground (arith, contains-names_in n refs)

names_in-some :
    (refs : List (Option Text)) → has_root refs ≡ false → map some (names_in refs) ≡ refs
unfolding has_root
names_in-some [] h = refl
names_in-some (none ∷ refs) h = absurd (ground arith)
names_in-some (some d ∷ refs) h = ap (λ l. some d ∷ l) (names_in-some refs h)

wired-names_in :
    (refs : List (Option Text))
    → has_root refs ≡ false
    → wired (names_in refs) ≡ (if no_refs refs then none ∷ [] else refs)
unfolding has_root
wired-names_in [] h = refl
wired-names_in (none ∷ refs) h = absurd (ground arith)
wired-names_in (some d ∷ refs) h = names_in-some (some d ∷ refs) h

is_nil-names_in :
    (refs : List (Option Text)) → has_root refs ≡ false → is_nil (names_in refs) ≡ no_refs refs
unfolding has_root
is_nil-names_in [] h = refl
is_nil-names_in (none ∷ refs) h = absurd (ground arith)
is_nil-names_in (some d ∷ refs) h = refl

pub has_key-table : (m : Text) (nodes : Dict Text Node) → has_key m (table nodes) ≡ has_key m nodes
has_key-table m nodes =
    sym (contains-keys m (table nodes))
    ∙ (ap (contains m) (keys-table nodes) ∙ contains-keys m nodes)

pub depends_on-table :
    (g : Graph) (m n : Text) → depends_on (table g.nodes) m n ≡ ref_among n (dependencies_of g m)
unfolding dependencies_of
depends_on-table g m n =
    ap (contains n) (names_of-table m g.nodes)
    ∙ contains-names_in n (node_or_empty (lookup m g.nodes)).dependencies

-- A name that is no node has no dependencies.
dependencies_of-unknown :
    (g : Graph) (m : Text) → has_key m g.nodes ≡ false → dependencies_of g m ≡ []
unfolding dependencies_of
dependencies_of-unknown g m h = ap (λ o. (node_or_empty o).dependencies) (lookup_no_key m g.nodes h)

module _ (g : Graph) (l : IsLinkedUp g) where
  -- What the table says of a node, by its refs.
  wired_or-table :
      (m : Text)
      → wired_or (lookup m (table g.nodes)) [] ≡ (
          if contains m (keys g.nodes) && no_refs (dependencies_of g m)
          then none ∷ []
          else dependencies_of g m)
  wired_or-table m = elim (Option-cases (lookup m (table g.nodes))) [
    | inl absent ↦
        let unknown = sym (has_key-table m g.nodes) ∙ has_key_missing m (table g.nodes) absent in
        rw (absent, contains-keys m g.nodes, unknown) (sym (dependencies_of-unknown g m unknown))
    | inr (spec, found) ↦
        let known = sym (has_key-table m g.nodes) ∙ lookup-has_key m spec (table g.nodes) found in
        let names : texts_at dependencies_key spec ≡ names_in (dependencies_of g m) =
          (ap names_of (sym found) ∙ unfold dependencies_of in names_of-table m g.nodes) in
        rw (found, contains-keys m g.nodes, known, names)
          (wired-names_in (dependencies_of g m) (l.no_root m))
  ]

  has_none-table :
      (m : Text)
      → has_none (lookup m (table g.nodes))
        ≡ (contains m (keys g.nodes) && no_refs (dependencies_of g m))
  has_none-table m = elim (Option-cases (lookup m (table g.nodes))) [
    | inl absent ↦
        let unknown = sym (has_key-table m g.nodes) ∙ has_key_missing m (table g.nodes) absent in
        rw (absent, contains-keys m g.nodes, unknown) refl
    | inr (spec, found) ↦
        let known = sym (has_key-table m g.nodes) ∙ lookup-has_key m spec (table g.nodes) found in
        let names : texts_at dependencies_key spec ≡ names_in (dependencies_of g m) =
          (ap names_of (sym found) ∙ unfold dependencies_of in names_of-table m g.nodes) in
        rw (found, contains-keys m g.nodes, known, names)
          (is_nil-names_in (dependencies_of g m) (l.no_root m))
  ]

  pub keys-link_roots : keys (link_roots (keys g.nodes) g).nodes ≡ keys g.nodes
  keys-link_roots =
      (link_roots-Rooted (keys g.nodes) g (λ m h. sym (contains-keys m g.nodes) ∙ h)).listed

  -- The graph behind the loop over its files, as the graph of the table before that loop.
  pub link_roots-IsGraphOf : IsGraphOf (table g.nodes) (link_roots (keys g.nodes) g)
  unfolding contains
  link_roots-IsGraphOf =
      let after = link_roots (keys g.nodes) g in
      let r = link_roots-Rooted (keys g.nodes) g (λ m h. sym (contains-keys m g.nodes) ∙ h) in
      record {
        nodes = λ m.
            sym (contains-keys m after.nodes)
            ∙ (ap (contains m) r.listed
                ∙ (contains-keys m g.nodes ∙ sym (has_key-table m g.nodes)));
        dependencies = λ m. r.dependencies m ∙ sym (wired_or-table m);
        dependents = λ m n. r.dependents m n ∙ (l.both_ways m n ∙ sym (depends_on-table g m n));
        roots =
            λ m. r.roots m ∙ (ground (arith, ap (contains m) l.rootless) ∙ sym (has_none-table m));
      }
