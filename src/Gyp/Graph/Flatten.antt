-- ===== src/Gyp/Graph/Flatten.antt =====
-- `FlattenToList` keeps its invariant, and its loop ends.
use dcfpe.Common.{
  has_key-lookup, lookup-has_key, Option-cases, length-keys, ℕ, zero, suc, ◌+◌, ◌≤◌, ◌<◌, ◌≡◌, refl,
  sym, ◌∙◌, subst, inl, inr, ◌⊎◌, true, false, ◌&&◌, ◌||◌, Option, none, some, List, [], ◌∷◌, ◌++◌,
  length, Text, text_Eq, text_eq_iff, ◌=?◌, =?_refl, =?_eq, contains, contains-snoc, Nodup,
  Nodup-snoc, Dict, lookup, has_key, keys, contains-keys, Bool-cases, length-append,
  length_le_of_Nodup, arith,
}
use dcfpe.Common.Results.{ok}
use dcfpe.Gyp.Value.{Value, Targets, texts_at}
use dcfpe.Gyp.Graph.{
  Graph, dependencies_of, dependents_of, to_set, pop, all_in, add_ready, flatten_from,
  flatten_to_list, dependencies_key,
}
use dcfpe.Gyp.Graph.Linking.{is_nil}
use dcfpe.Gyp.Graph.Wiring.{names_of, depends_on, depends_on-target, IsGraphOf, has_none}
use dcfpe.Gyp.Graph.Sets.{
  add_fresh, contains-to_set, Nodup-to_set, contains-pop, Nodup-pop, contains-add_ready,
  Nodup-add_ready,
}
use dcfpe.Gyp.Graph.Order.{Settled, OrderedAfter-snoc, ready-Settled, Settled-ready, Inv}

module _ (ts : Targets) (g : Graph) (gr : IsGraphOf ts g) where
  module _ (flat zeros rest : List Text) (node : Text) (i : Inv ts g gr flat zeros)
      (parts : (a : Text) → contains a zeros ≡ ((a =? node) || contains a rest))
      (parts_nodup : Nodup (node ∷ rest)) where
    node_zero : contains node zeros ≡ true
    node_zero = rw (parts node, =?_refl node)

    abbrev flat' : List Text
    flat' = flat ++ node ∷ []

    abbrev zeros' : List Text
    zeros' = add_ready g flat' (dependents_of g node) rest

    in_flat' : (a : Text) → contains a flat' ≡ (contains a flat || (a =? node))
    in_flat' a = contains-snoc a node flat

    in_zeros' :
        (a : Text)
        → contains a zeros'
          ≡ (contains a rest || (depends_on ts a node && all_in flat' (dependencies_of g a)))
    in_zeros' a =
        contains-add_ready g flat' a (dependents_of g node) rest
        ∙ ground (arith, gr.dependents a node)

    -- A new member of the set was waiting for this node.
    zeros'_cases :
        (a : Text)
        → contains a zeros' ≡ true
        → (contains a rest ≡ true)
          ⊎ ((depends_on ts a node ≡ true) × (all_in flat' (dependencies_of g a) ≡ true))
    zeros'_cases a h = ground (arith, in_zeros' a)

    widen : (a : Text) → Settled ts flat a → Settled ts flat' a
    widen a s d h = ground (arith, in_flat' d, s d h)

    rest_zero : (a : Text) → contains a rest ≡ true → contains a zeros ≡ true
    rest_zero a h = ground (arith, parts a)

    waiting_fresh : (a : Text) → depends_on ts a node ≡ true → contains a flat' ≡ false
    waiting_fresh a dep = elim (Bool-cases (contains a flat')) [
      | inr f ↦ f
      | inl t ↦
          let stale : contains node flat ≡ true = elim (Bool-cases (a =? node)) [
            | inl same ↦
                i.zeros_ready node node_zero node
                  (subst (λ x. depends_on ts x node ≡ true) (=?_eq a node same) dep)
            | inr other ↦ i.closed a (ground (arith, in_flat' a)) node dep
          ] in
          absurd (ground (arith, i.zeros_fresh node node_zero))
    ]

    not_again : (a : Text) → contains a rest ≡ true → contains a flat' ≡ false
    not_again a r =
        ground
          (arith, in_flat' a, i.zeros_fresh a (rest_zero a r), text_eq_iff a node, parts_nodup.0)

    none_lost :
        (a : Text)
        → has_key a ts ≡ true
        → Settled ts flat' a
        → (contains a flat' || contains a zeros') ≡ true
    none_lost a k s = elim (Bool-cases (depends_on ts a node)) [
      | inl dep ↦ ground (arith, in_zeros' a, Settled-ready ts g gr flat' a node dep s)
      | inr indep ↦ ground (
        arith,
        in_flat' a,
        in_zeros' a,
        parts a,
        i.complete a k (λ d h. ground (arith, in_flat' d, s d h, text_eq_iff d node, indep)),
      )
    ]

    step-Inv : Inv ts g gr flat' zeros'
    step-Inv = record {
      nodup = Nodup-snoc flat node i.nodup (i.zeros_fresh node node_zero);
      zeros_nodup = Nodup-add_ready g flat' (dependents_of g node) rest parts_nodup.1;
      known = λ a h. elim (Bool-cases (a =? node)) [
        | inl same ↦
            subst (λ x. has_key x ts ≡ true) (sym (=?_eq a node same))
              (i.zeros_known node node_zero)
        | inr other ↦ i.known a (ground (arith, in_flat' a))
      ];
      closed = λ a h. elim (Bool-cases (a =? node)) [
        | inl same ↦
            subst (Settled ts flat') (sym (=?_eq a node same))
              (widen node (i.zeros_ready node node_zero))
        | inr other ↦ widen a (i.closed a (ground (arith, in_flat' a)))
      ];
      ordered = OrderedAfter-snoc ts [] flat node i.ordered (i.zeros_ready node node_zero);
      zeros_known = λ a h. elim (zeros'_cases a h) [
        | inl r ↦ i.zeros_known a (rest_zero a r)
        | inr (dep, _) ↦ depends_on-target a node ts dep
      ];
      zeros_fresh = λ a h. elim (zeros'_cases a h) [
        | inl r ↦ not_again a r
        | inr (dep, _) ↦ waiting_fresh a dep
      ];
      zeros_ready = λ a h. elim (zeros'_cases a h) [
        | inl r ↦ widen a (i.zeros_ready a (rest_zero a r))
        | inr (dep, r) ↦ ready-Settled ts g gr flat' a node dep r
      ];
      complete = λ a k s. none_lost a k s;
    }

no_names :
    (o : Option (Dict Text Value)) (d : Text) → has_none o ≡ true → contains d (names_of o) ≡ false
unfolding contains
no_names none d h = refl
no_names (some spec) d h = no_names_in (texts_at dependencies_key spec) h
  where
    no_names_in : (ds : List Text) → is_nil ds ≡ true → contains d ds ≡ false
    no_names_in [] e = refl
    no_names_in (x ∷ xs) e = absurd (ground arith)

has_none-target : (a : Text) (ts : Targets) → has_none (lookup a ts) ≡ true → has_key a ts ≡ true
has_none-target a ts h = elim (Option-cases (lookup a ts)) [
  | inl e ↦ absurd (ground arith)
  | inr (spec, e) ↦ lookup-has_key a spec ts e
]

no_member :
    (ds : List Text) → ((d : Text) → contains d ds ≡ true → contains d [] ≡ true) → is_nil ds ≡ true
unfolding contains
no_member [] h = refl
no_member (d ∷ ds) h = absurd (ground (arith, h d (ground (arith, =?_refl d))))

module _ (pick : List Text → ℕ) (ts : Targets) (g : Graph) (gr : IsGraphOf ts g) where
  fits : (flat zeros : List Text) → Inv ts g gr flat zeros → length flat ≤ length g.nodes
  fits flat zeros i = rw (← length-keys g.nodes) (
      length_le_of_Nodup flat (keys g.nodes) i.nodup
        (λ a h. contains-keys a g.nodes ∙ (gr.nodes a ∙ i.known a h)))

  flatten_from-Inv :
      (f : ℕ) (flat zeros : List Text)
      → Inv ts g gr flat zeros
      → length g.nodes < f + length flat
      → (out : List Text) × (flatten_from pick g f flat zeros ≡ ok out) × Inv ts g gr out []
  unfolding flatten_from
  flatten_from-Inv zero flat zeros i h = absurd (omega (arith, fits flat zeros i))
  flatten_from-Inv (suc f) flat [] i h = (flat, refl, i)
  flatten_from-Inv (suc f) flat (z ∷ zs) i h =
      let n = pick (z ∷ zs) in
      let node = (pop n z zs).0 in
      let rest = (pop n z zs).1 in
      let next =
        step-Inv ts g gr flat (z ∷ zs) rest node i (λ a. contains-pop n a z zs)
          (Nodup-pop n z zs i.zeros_nodup) in
      let fresh : contains node flat ≡ false =
        i.zeros_fresh node (contains-pop n node z zs ∙ ground (arith, =?_refl node)) in
      rw (add_fresh node flat fresh) (
        flatten_from-Inv f (flat ++ node ∷ [])
          (add_ready g (flat ++ node ∷ []) (dependents_of g node) rest) next
          (omega (arith, length-append flat (node ∷ []))))

  root :
      (a : Text) → contains a (to_set g.root_dependents []) ≡ true → has_none (lookup a ts) ≡ true
  unfolding contains
  root a h = ground (arith, contains-to_set a g.root_dependents [], gr.roots a)

  in_zeros :
      (a : Text)
      → has_none (lookup a ts) ≡ true
      → (contains a [] || contains a (to_set g.root_dependents [])) ≡ true
  unfolding contains
  in_zeros a h = ground (arith, contains-to_set a g.root_dependents [], gr.roots a)

  unsettled_nil : (a : Text) → has_key a ts ≡ true → Settled ts [] a → has_none (lookup a ts) ≡ true
  unsettled_nil a k s =
      let (spec, e) = has_key-lookup a ts k in
      rw e (no_member (texts_at dependencies_key spec) (λ d c. s d (rw e c)))

  start-Inv : Inv ts g gr [] (to_set g.root_dependents [])
  start-Inv = record {
    nodup = tt;
    zeros_nodup = Nodup-to_set g.root_dependents [] tt;
    known = λ a h. absurd (unfold contains in ground arith);
    closed = λ a h. absurd (unfold contains in ground arith);
    ordered = tt;
    zeros_known = λ a h. has_none-target a ts (root a h);
    zeros_fresh = λ a h. unfold contains in refl;
    zeros_ready = λ a h d dep. absurd (ground (arith, no_names (lookup a ts) d (root a h)));
    complete = λ a k s. in_zeros a (unsettled_nil a k s);
  }

-- With any choice of the set's elements the loop ends, and what it returns keeps the invariant.
pub flatten_to_list-Inv :
    (pick : List Text → ℕ) (ts : Targets) (g : Graph) (gr : IsGraphOf ts g)
    → (out : List Text) × (flatten_to_list pick g ≡ ok out) × Inv ts g gr out []
unfolding flatten_to_list
flatten_to_list-Inv pick ts g gr =
    flatten_from-Inv pick ts g gr (length g.nodes + 1) [] (to_set g.root_dependents [])
      (start-Inv pick ts g gr) (omega arith)
