-- ===== src/Gyp/Pruning/Kept.antt =====
-- What the walk of `PruneUnwantedTargets` of src/tools/pylib_dbg/input.py has kept so far.
use dcfpe.Common.{
  ◌≡◌, refl, sym, ◌∙◌, ap, subst, inl, inr, ◌⊎◌, ◌↔◌, true, ◌||◌, some, List, [], ◌∷◌, Text,
  text_Eq, text_eq_iff, ◌=?◌, =?_refl, =?_eq, contains, Nodup, Dict, lookup, lookup-insert, has_key,
  has_key-insert, has_key-lookup, insert, keys, Bool-cases, arith,
}
use dcfpe.Common.Results.{ok, ◌>>=◌}
use dcfpe.Gyp.Value.{Value, Targets}
use dcfpe.Gyp.Settings.{target_at}
use dcfpe.Gyp.Graph.{Graph, build_graph}
use dcfpe.Gyp.Graph.Wiring.{IsClosed, build_graph-IsGraphOf}
use dcfpe.Gyp.Graph.Building.{Reaches, direct, further}
use dcfpe.Gyp.Graph.Deep.{deep_dependencies-Reaches}
use dcfpe.Gyp.Pruning.{want_each, want_roots}

-- A root, or what a root reaches along dependencies.
abbrev pub IsWanted : Targets → List Text → Text → Type 0
IsWanted targets roots t =
    (root : Text) × (contains root roots ≡ true) × ((t ≡ root) ⊎ Reaches targets root t)

-- The dicts are those of the targets.
abbrev pub Agrees : Targets → Targets → Type 0
Agrees targets wanted = (t : Text) → has_key t wanted ≡ true → lookup t wanted ≡ lookup t targets

module _ (targets : Targets) where
  target_at-found :
      (t : Text) (d : Dict Text Value) → lookup t targets ≡ some d → target_at t targets ≡ ok d
  unfolding target_at
  target_at-found t d found = rw (found, target_at) refl

  want_each-all :
      (names : List Text) (wanted : Targets)
      → ((t : Text) → contains t names ≡ true → has_key t targets ≡ true)
      → Agrees targets wanted
      → (wanted' : Targets) × (want_each targets names wanted ≡ ok wanted')
        × ((t : Text) → has_key t wanted' ≡ (has_key t wanted || contains t names))
        × Agrees targets wanted'
  unfolding want_each contains
  want_each-all [] wanted h a = (wanted, refl, λ t. ground arith, a)
  want_each-all (n ∷ names) wanted h a =
      let (d, found) = has_key-lookup n targets (h n (ground (arith, =?_refl n))) in
      let (wanted', e, members, a') =
        want_each-all names (insert n d wanted) (λ t m. h t (ground arith))
          (λ t m. Agrees-insert d found t m) in
      (
        wanted',
        ap (λ r. r >>= λ d. want_each targets names (insert n d wanted)) (target_at-found n d found)
            ∙ e,
        λ t. members t ∙ ground (arith, has_key-insert n t d wanted),
        a',
      )
    where
      Agrees-insert :
          (d : Dict Text Value)
          → lookup n targets ≡ some d
          → (t : Text) → has_key t (insert n d wanted) ≡ true
          → lookup t (insert n d wanted) ≡ lookup t targets
      Agrees-insert d found t m = elim (Bool-cases (t =? n)) [
        | inl same ↦ lookup-insert n t d wanted ∙ rw (same, =?_eq t n same) (sym found)
        | inr other ↦
            lookup-insert n t d wanted
            ∙ rw other (a t (ground (arith, has_key-insert n t d wanted)))
      ]

  Reaches-known : IsClosed targets → {a b : Text} → Reaches targets a b → has_key b targets ≡ true
  Reaches-known closed {a} {b} (direct h) = closed a b h
  Reaches-known closed {a} {b} (further {b = c} r h) = closed c b h

  module _ (g : Graph) (nd : Nodup (keys targets)) (e : build_graph targets ≡ ok g)
      (closed : IsClosed targets) where
    none_wanted :
        (wanted : Targets) (t : Text)
        → (has_key t wanted ≡ true) ⊎ IsWanted targets [] t
        → has_key t wanted ≡ true
    unfolding contains
    none_wanted wanted t (inl m) = m
    none_wanted wanted t (inr (root, m, way)) = absurd (ground arith)

    known_one : (t r : Text) → has_key r targets ≡ true → (t =? r) ≡ true → has_key t targets ≡ true
    known_one t r h same = subst (λ u. has_key u targets ≡ true) (sym (=?_eq t r same)) h

    IsWanted-later :
        {t : Text} (r : Text) (roots : List Text)
        → IsWanted targets roots t
        → IsWanted targets (r ∷ roots) t
    unfolding contains
    IsWanted-later r roots (root, m, way) = (root, ground arith, way)

    pub want_roots-all :
        (roots : List Text) (wanted : Targets)
        → ((r : Text) → contains r roots ≡ true → has_key r targets ≡ true)
        → Agrees targets wanted
        → (wanted' : Targets) × (want_roots targets g roots wanted ≡ ok wanted')
          × ((t : Text)
              → (has_key t wanted' ≡ true) ↔ ((has_key t wanted ≡ true) ⊎ IsWanted targets roots t))
          × Agrees targets wanted'
    unfolding want_roots contains
    want_roots-all [] wanted h a = (wanted, refl, λ t. (λ m. inl m, λ w. none_wanted wanted t w), a)
    want_roots-all (r ∷ roots) wanted h a =
        let here = h r (ground (arith, =?_refl r)) in
        let (one, e₁, m₁, a₁) =
          want_each-all (r ∷ []) wanted (λ t m. known_one t r here (ground arith)) a in
        let (deep, e₂, _, sound, complete) = deep_dependencies-Reaches targets g r nd e closed in
        let (two, e₃, m₃, a₃) =
          want_each-all deep one (λ t m. Reaches-known closed (sound t m)) a₁ in
        let (out, e₄, m₄, a₄) = want_roots-all roots two (λ t m. h t (ground arith)) a₃ in
        (
          out,
          rw (e₁, (build_graph-IsGraphOf targets g nd e).nodes r ∙ here, e₂, e₃) e₄,
          λ t. (
            λ m. elim ((m₄ t).0 m) [
              | inr later ↦ inr (IsWanted-later r roots later)
              | inl in_two ↦ elim (Bool-cases (contains t deep)) [
                | inl reached ↦ inr (r, ground (arith, =?_refl r), inr (sound t reached))
                | inr unreached ↦ elim (Bool-cases (t =? r)) [
                  | inl same ↦ inr (r, ground (arith, =?_refl r), inl (=?_eq t r same))
                  | inr other ↦ inl (ground (arith, m₃ t, m₁ t))
                ]
              ]
            ],
            λ w. (m₄ t).1 (elim w [
              | inl before ↦ inl (ground (arith, m₃ t, m₁ t))
              | inr (root, m, way) ↦ elim (Bool-cases (root =? r)) [
                | inr other ↦ inr (root, ground arith, way)
                | inl same ↦ inl (m₃ t ∙ by_root t one deep (=?_eq root r same) (m₁ t) complete way)
              ]
            ]),
          ),
          a₄,
        )
      where
        by_root :
            (t : Text) (one : Targets) (deep : List Text) {root : Text}
            → root ≡ r
            → has_key t one ≡ (has_key t wanted || contains t (r ∷ []))
            → ((d : Text) → Reaches targets r d → contains d deep ≡ true)
            → (t ≡ root) ⊎ Reaches targets root t
            → (has_key t one || contains t deep) ≡ true
        by_root t one deep same m complete (inl is_root) =
            let here = (text_eq_iff t r).1 (is_root ∙ same) in ground arith
        by_root t one deep same m complete (inr reached) =
            let there = complete t (subst (λ u. Reaches targets u t) same reached) in ground arith
