-- ===== src/Gyp/Graph/Linking.antt =====
-- What `BuildDependencyList` links: the nodes' two lists and the root's dependents agree with the
-- "dependencies" lists of the targets.
use dcfpe.Common.{
  ◌≡◌, refl, subst, append-nil, ◌∙◌, inl, inr, Bool, true, false, ◌&&◌, ◌||◌, Option, none, some,
  List, [], ◌∷◌, ◌++◌, if◌then◌else◌, map, Text, text_Eq, text_eq_iff, text_eq, ◌=?◌, =?_refl,
  contains, contains-snoc, Dict, lookup, has_key, Bool-cases, append_assoc, arith,
}
use dcfpe.Common.Results.{ok}
use dcfpe.Gyp.Graph.{
  Node, Graph, dependencies_of, dependents_of, modify, link_root, link, link_each, link_target,
}

pub lookup-modify :
    (t j : Text) (f : Node → Node) (d : Dict Text Node)
    → lookup j (modify t f d)
      ≡ (if j =? t then (elim (lookup j d) [ none ↦ none | some n ↦ some (f n) ]) else lookup j d)
unfolding lookup modify
lookup-modify t j f [] = ground arith
lookup-modify t j f ((u, n) ∷ d) =
    ground (arith, text_eq_iff t u, text_eq_iff j u, text_eq_iff j t, lookup-modify t j f d)

pub has_key-modify :
    (t j : Text) (f : Node → Node) (d : Dict Text Node) → has_key j (modify t f d) ≡ has_key j d
unfolding has_key modify
has_key-modify t j f [] = refl
has_key-modify t j f ((u, n) ∷ d) = ground (arith, has_key-modify t j f d)

pub lookup_known :
    (t : Text) (d : Dict Text Node) → has_key t d ≡ true → (n : Node) × (lookup t d ≡ some n)
unfolding has_key lookup
lookup_known t [] h = absurd (ground arith)
lookup_known t ((u, n) ∷ d) h = elim (Bool-cases (text_eq t u)) [
  | inl e ↦ (n, ground arith)
  | inr e ↦ let (m, q) = lookup_known t d (ground arith) in (m, ground arith)
]

abbrev pub is_nil : List Text → Bool
is_nil [] = true
is_nil (d ∷ ds) = false

-- The dependencies of a node whose target names `ds`: the root if there are none.
abbrev pub wired : List Text → List (Option Text)
wired [] = none ∷ []
wired (d ∷ ds) = map some (d ∷ ds)

module _ (t d : Text) (g : Graph) (known_t : has_key t g.nodes ≡ true)
    (known_d : has_key d g.nodes ≡ true) where
  pub dependencies_of-link :
      (m : Text)
      → dependencies_of (link t d g) m
        ≡ (if m =? t then dependencies_of g m ++ some d ∷ [] else dependencies_of g m)
  unfolding dependencies_of link
  dependencies_of-link m =
      let (n, e) = lookup_known t g.nodes known_t in
      ground (
        arith,
        text_eq_iff m t,
        lookup-modify d m (λ n. record n { dependents = n.dependents ++ t ∷ [] })
            (modify t (λ n. record n { dependencies = n.dependencies ++ some d ∷ [] }) g.nodes),
        lookup-modify t m (λ n. record n { dependencies = n.dependencies ++ some d ∷ [] }) g.nodes,
      )

  pub dependents_of-link :
      (n : Text)
      → dependents_of (link t d g) n
        ≡ (if n =? d then dependents_of g n ++ t ∷ [] else dependents_of g n)
  unfolding dependents_of link
  dependents_of-link n =
      let (k, e) = lookup_known d g.nodes known_d in
      ground (
        arith,
        text_eq_iff n d,
        lookup-modify d n (λ n. record n { dependents = n.dependents ++ t ∷ [] })
            (modify t (λ n. record n { dependencies = n.dependencies ++ some d ∷ [] }) g.nodes),
        lookup-modify t n (λ n. record n { dependencies = n.dependencies ++ some d ∷ [] }) g.nodes,
      )

  pub has_key-link : (j : Text) → has_key j (link t d g).nodes ≡ has_key j g.nodes
  unfolding link
  has_key-link j = has_key-modify d j _ _ ∙ has_key-modify t j _ g.nodes

-- What the links of one target `t` to `ds` change.
pub record Linked (t : Text) (ds : List Text) (roots : Bool) (wires : List (Option Text))
    (g g' : Graph) : Type 0 where
  pub same_keys : (j : Text) → has_key j g'.nodes ≡ has_key j g.nodes
  pub dependencies :
      (m : Text) → dependencies_of g' m ≡ (if m =? t then wires else dependencies_of g m)
  pub dependents :
      (m n : Text)
      → contains m (dependents_of g' n)
        ≡ (contains m (dependents_of g n) || ((m =? t) && contains n ds))
  pub root_dependents :
      (m : Text)
      → contains m g'.root_dependents ≡ (contains m g.root_dependents || ((m =? t) && roots))

Linked-nil : (t : Text) (g : Graph) → Linked t [] false (dependencies_of g t ++ []) g g
unfolding contains
Linked-nil t g = record {
  same_keys = λ j. refl;
  dependencies = λ m. ground (arith, text_eq_iff m t, append-nil (dependencies_of g t));
  dependents = λ m n. ground arith;
  root_dependents = λ m. ground arith;
}

Linked-cons :
    (t d : Text) (ds : List Text) (g g' : Graph)
    → has_key t g.nodes ≡ true
    → has_key d g.nodes ≡ true
    → Linked t ds false (dependencies_of (link t d g) t ++ map some ds) (link t d g) g'
    → Linked t (d ∷ ds) false (dependencies_of g t ++ map some (d ∷ ds)) g g'
unfolding contains
Linked-cons t d ds g g' kt kd l = record {
  same_keys = λ j. l.same_keys j ∙ has_key-link t d g kt kd j;
  dependencies = λ m. ground (
    arith,
    l.dependencies m,
    dependencies_of-link t d g kt kd m,
    dependencies_of-link t d g kt kd t,
    =?_refl t,
    append_assoc (dependencies_of g t) (some d ∷ []) (map some ds),
  );
  dependents = λ m n. ground (
    arith,
    l.dependents m n,
    dependents_of-link t d g kt kd n,
    contains-snoc m t (dependents_of g n),
  );
  root_dependents = λ m. l.root_dependents m ∙ unfold link in refl;
}

pub link_each-Linked :
    (t : Text) (ds : List Text) (g g' : Graph)
    → has_key t g.nodes ≡ true
    → link_each t ds g ≡ ok g'
    → Linked t ds false (dependencies_of g t ++ map some ds) g g'
unfolding link_each
link_each-Linked t [] g g' h e =
    let same : g ≡ g' = cc in
    subst (Linked t [] false (dependencies_of g t ++ []) g) same (Linked-nil t g)
link_each-Linked t (d ∷ ds) g g' h e = elim (Bool-cases (has_key d g.nodes)) [
  | inl k ↦
      Linked-cons t d ds g g' h k
        (link_each-Linked t ds (link t d g) g' (has_key-link t d g h k t ∙ h) (rw k at e))
  | inr k ↦ absurd (ground arith)
]

pub Linked-root :
    (t : Text) (g : Graph)
    → has_key t g.nodes ≡ true
    → Linked t [] true (none ∷ []) g (link_root t g)
unfolding contains link_root dependencies_of dependents_of
Linked-root t g h =
    let (n, e) = lookup_known t g.nodes h in
    record {
      same_keys = λ j. has_key-modify t j _ g.nodes;
      dependencies = λ m. ground (
        arith,
        text_eq_iff m t,
        lookup-modify t m (λ n. record n { dependencies = none ∷ [] }) g.nodes,
      );
      dependents = λ m k.
          ground (arith, lookup-modify t k (λ n. record n { dependencies = none ∷ [] }) g.nodes);
      root_dependents = λ m. ground (arith, contains-snoc m t g.root_dependents);
    }

-- The links of one target whose node is fresh.
pub link_target-Linked :
    (t : Text) (ds : List Text) (g g' : Graph)
    → has_key t g.nodes ≡ true
    → dependencies_of g t ≡ []
    → link_target t ds g ≡ ok g'
    → Linked t ds (is_nil ds) (wired ds) g g'
unfolding link_target
link_target-Linked t [] g g' h fresh e =
    let same : link_root t g ≡ g' = cc in
    subst (Linked t [] true (none ∷ []) g) same (Linked-root t g h)
link_target-Linked t (d ∷ ds) g g' h fresh e =
    let l = link_each-Linked t (d ∷ ds) g g' h e in
    subst (λ w. Linked t (d ∷ ds) false (w ++ map some (d ∷ ds)) g g') fresh l
