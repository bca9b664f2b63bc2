-- ===== src/Gyp/Pruning/Wanted.antt =====
-- Which targets `PruneUnwantedTargets` of src/tools/pylib_dbg/input.py keeps.
use dcfpe.Common.{
  ◌≡◌, refl, sym, ◌∙◌, ap, subst, inl, inr, ◌↔◌, true, ◌&&◌, List, [], ◌∷◌, ◌++◌, Text, text_Eq,
  text_eq_iff, contains, append-nil, Nodup, lookup, lookup-has_key, has_key, has_key-lookup, keys,
  Bool-cases, arith,
}
use dcfpe.Common.Results.{ok}
use dcfpe.Gyp.Value.{Targets}
use dcfpe.Gyp.Graph.{Graph, build_graph}
use dcfpe.Gyp.Graph.Wiring.{IsClosed, depends_on, depends_on-target, names_of}
use dcfpe.Gyp.Graph.Order.{OrderedAfter}
use dcfpe.Gyp.Graph.Building.{IsBuildOrder, direct, further}
use dcfpe.Gyp.Pruning.{want_roots, wanted_names}
use dcfpe.Gyp.Pruning.Kept.{IsWanted, Agrees, want_roots-all}

contains-wanted_names :
    (t : Text) (wanted : Targets) (flat : List Text)
    → contains t (wanted_names wanted flat) ≡ (contains t flat && has_key t wanted)
unfolding wanted_names contains
contains-wanted_names t wanted [] = refl
contains-wanted_names t wanted (u ∷ flat) =
    ground (arith, contains-wanted_names t wanted flat, text_eq_iff t u)

Nodup-wanted_names :
    (wanted : Targets) (flat : List Text) → Nodup flat → Nodup (wanted_names wanted flat)
unfolding wanted_names
Nodup-wanted_names wanted [] n = tt
Nodup-wanted_names wanted (t ∷ flat) n = elim (Bool-cases (has_key t wanted)) [
  | inl kept ↦
      rw kept (
        ground (arith, contains-wanted_names t wanted flat, n.0),
        Nodup-wanted_names wanted flat n.1,
      )
  | inr dropped ↦ rw dropped (Nodup-wanted_names wanted flat n.1)
]

wanted_names-append :
    (wanted : Targets) (flat rest : List Text)
    → wanted_names wanted (flat ++ rest) ≡ wanted_names wanted flat ++ wanted_names wanted rest
unfolding wanted_names
wanted_names-append wanted [] rest = refl
wanted_names-append wanted (t ∷ flat) rest = elim (Bool-cases (has_key t wanted)) [
  | inl kept ↦ rw kept (ap (λ l. t ∷ l) (wanted_names-append wanted flat rest))
  | inr dropped ↦ rw dropped (wanted_names-append wanted flat rest)
]

module _ (targets wanted : Targets) (a : Agrees targets wanted) (closed : IsClosed wanted) where
  OrderedAfter-wanted :
      (seen flat : List Text)
      → OrderedAfter targets seen flat
      → OrderedAfter wanted (wanted_names wanted seen) (wanted_names wanted flat)
  unfolding wanted_names
  OrderedAfter-wanted seen [] o = tt
  OrderedAfter-wanted seen (t ∷ flat) o = elim (Bool-cases (has_key t wanted)) [
    | inl kept ↦ rw kept (
      λ d h.
          contains-wanted_names d wanted seen
          ∙ rw (o.0 d (ap (λ l. contains d (names_of l)) (sym (a t kept)) ∙ h), closed t d h) refl,
      subst (λ l. OrderedAfter wanted l (wanted_names wanted flat))
          (wanted_names-append wanted seen (t ∷ []) ∙ rw kept refl)
          (OrderedAfter-wanted (seen ++ t ∷ []) flat o.1),
    )
    | inr dropped ↦ rw dropped (
        subst (λ l. OrderedAfter wanted l (wanted_names wanted flat))
          (wanted_names-append wanted seen (t ∷ [])
            ∙ rw dropped (append-nil (wanted_names wanted seen)))
          (OrderedAfter-wanted (seen ++ t ∷ []) flat o.1))
  ]

  wanted_names-IsBuildOrder :
      (flat : List Text)
      → IsBuildOrder targets flat
      → IsBuildOrder wanted (wanted_names wanted flat)
  wanted_names-IsBuildOrder flat o = record {
    nodup = Nodup-wanted_names wanted flat o.nodup;
    ordered = unfold wanted_names in OrderedAfter-wanted [] flat o.ordered;
    same_targets = λ t. contains-wanted_names t wanted flat ∙ elim (Bool-cases (has_key t wanted)) [
      | inr dropped ↦ ground arith
      | inl kept ↦
          let (spec, found) = has_key-lookup t wanted kept in
          ground (arith, o.same_targets t, lookup-has_key t spec targets (sym (a t kept) ∙ found))
    ];
  }

IsWanted-next :
    (targets : Targets) (roots : List Text) {m n : Text}
    → IsWanted targets roots m
    → depends_on targets m n ≡ true
    → IsWanted targets roots n
IsWanted-next targets roots {m} {n} (root, known, inl is_root) dep =
    (root, known, inr (direct (subst (λ u. depends_on targets u n ≡ true) is_root dep)))
IsWanted-next targets roots (root, known, inr r) dep = (root, known, inr (further r dep))

-- For targets with distinct names whose dependencies are all known, and roots among them: pruning
-- keeps exactly the roots and what they reach along dependencies, with their dicts, and what is left of a
-- build order of the targets is a build order of those that are kept.
pub want_roots-IsBuildOrder :
    (targets : Targets) (g : Graph) (roots flat : List Text)
    → Nodup (keys targets)
    → build_graph targets ≡ ok g
    → IsClosed targets
    → ((root : Text) → contains root roots ≡ true → has_key root targets ≡ true)
    → IsBuildOrder targets flat
    → (wanted : Targets) × (want_roots targets g roots [] ≡ ok wanted)
      × ((t : Text) → (has_key t wanted ≡ true) ↔ IsWanted targets roots t)
      × ((t : Text) → has_key t wanted ≡ true → lookup t wanted ≡ lookup t targets)
      × IsBuildOrder wanted (wanted_names wanted flat)
unfolding has_key
want_roots-IsBuildOrder targets g roots flat nd e closed h o =
    let (wanted, e', members, a) =
      want_roots-all targets g nd e closed roots [] h (λ t m. absurd (ground arith)) in
    let kept : (t : Text) → (has_key t wanted ≡ true) ↔ IsWanted targets roots t = (λ t. (
      λ m. elim ((members t).0 m) [ inl old ↦ absurd (ground arith) | inr w ↦ w ],
      λ w. (members t).1 (inr w),
    )) in
    let wanted_closed : IsClosed wanted = (λ m n dep.
      let there = depends_on-target m n wanted dep in
      let same_dep = ap (λ l. contains n (names_of l)) (sym (a m there)) ∙ dep in
      (kept n).1 (IsWanted-next targets roots ((kept m).0 there) same_dep)) in
    (wanted, e', kept, a, wanted_names-IsBuildOrder targets wanted a wanted_closed flat o)
