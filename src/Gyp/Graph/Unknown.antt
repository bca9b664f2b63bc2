-- ===== src/Gyp/Graph/Unknown.antt =====
-- When `BuildDependencyList` reports an unknown dependency.
use dcfpe.Common.{
  =?_ne, All-contains, All-map, ◌⊎◌, ◌≡◌, refl, sym, subst, ◌∙◌, inl, inr, Bool, true, false, List,
  [], ◌∷◌, if◌then◌else◌, All, Text, text_Eq, text_eq_iff, ◌=?◌, =?_refl, contains, Nodup, Dict,
  lookup, has_key, keys, contains-keys, Bool-cases, arith,
}
use dcfpe.Common.Results.{ok, raise}
use dcfpe.Gyp.Value.{Value, Targets, texts_at}
use dcfpe.Gyp.Errors.{dependency_not_found}
use dcfpe.Gyp.Graph.Linking.{has_key-link, link_target-Linked}
use dcfpe.Gyp.Graph.Wiring.{
  IsGraphOf, build_graph-IsGraphOf, depends_on, depends_on-target, IsClosed, has_key-unlinked,
  dependencies_of-unlinked,
}
use dcfpe.Gyp.Graph.{
  Graph, dependencies_of, link_root, link, link_each, link_target, dependencies_key, link_targets,
  unlinked, build_graph,
}

-- One target's links are made, or the first unknown name is reported.
link_each_cases :
    (t : Text) (ds : List Text) (g : Graph)
    → has_key t g.nodes ≡ true
    → ((g' : Graph) × (link_each t ds g ≡ ok g') × All (λ d. has_key d g.nodes ≡ true) ds)
      ⊎ ((d : Text) × (link_each t ds g ≡ raise (dependency_not_found d t))
          × (contains d ds ≡ true)
          × (has_key d g.nodes ≡ false))
unfolding link_each contains
link_each_cases t [] g kt = inl (g, refl, tt)
link_each_cases t (d ∷ ds) g kt = elim (Bool-cases (has_key d g.nodes)) [
  | inr no_node ↦ inr (d, rw no_node, ground (arith, =?_refl d), no_node)
  | inl kd ↦ elim (link_each_cases t ds (link t d g) (has_key-link t d g kt kd t ∙ kt)) [
    | inl (g', e, all) ↦
        inl (g', rw kd e, (kd, All-map _ _ (λ u h. sym (has_key-link t d g kt kd u) ∙ h) ds all))
    | inr (u, e, c, h) ↦ inr (u, rw kd e, ground arith, sym (has_key-link t d g kt kd u) ∙ h)
  ]
]

link_target_cases :
    (t : Text) (ds : List Text) (g : Graph)
    → has_key t g.nodes ≡ true
    → ((g' : Graph) × (link_target t ds g ≡ ok g') × All (λ d. has_key d g.nodes ≡ true) ds)
      ⊎ ((d : Text) × (link_target t ds g ≡ raise (dependency_not_found d t))
          × (contains d ds ≡ true)
          × (has_key d g.nodes ≡ false))
unfolding link_target
link_target_cases t [] g kt = inl (link_root t g, refl, tt)
link_target_cases t (d ∷ ds) g kt = link_each_cases t (d ∷ ds) g kt

depends_on-cons :
    (t m n : Text) (spec : Dict Text Value) (ts : Targets)
    → depends_on ((t, spec) ∷ ts) m n
      ≡ (if m =? t then contains n (texts_at dependencies_key spec) else depends_on ts m n)
unfolding lookup
depends_on-cons t m n spec ts = ground arith

not_first :
    (t u : Text) (ts : Targets)
    → contains t (keys ts) ≡ false
    → has_key u ts ≡ true
    → (u =? t) ≡ false
not_first t u ts absent h = =?_ne u t (λ e.
    let there : contains t (keys ts) ≡ true =
      contains-keys t ts ∙ subst (λ x. has_key x ts ≡ true) e h in
    ground arith)

abbrev Unknown : Targets → (Text → Bool) → Text → Text → Type 0
Unknown ts known d t = (depends_on ts t d ≡ true) × (known d ≡ false)

link_targets_cases :
    (ts : Targets) (g : Graph)
    → Nodup (keys ts)
    → ((m : Text) → contains m (keys ts) ≡ true → has_key m g.nodes ≡ true)
    → ((m : Text) → contains m (keys ts) ≡ true → dependencies_of g m ≡ [])
    → ((g' : Graph) × (link_targets ts g ≡ ok g')
        × ((m n : Text) → depends_on ts m n ≡ true → has_key n g.nodes ≡ true))
      ⊎ ((d t : Text) × (link_targets ts g ≡ raise (dependency_not_found d t))
          × Unknown ts (λ u. has_key u g.nodes) d t)
unfolding link_targets contains lookup
link_targets_cases [] g nd k fresh = inl (g, refl, λ m n h. absurd (ground arith))
link_targets_cases ((t, spec) ∷ ts) g nd k fresh =
    let here : contains t (t ∷ keys ts) ≡ true = ground (arith, =?_refl t) in
    elim (link_target_cases t (texts_at dependencies_key spec) g (k t here)) [
      | inr (d, e, c, h) ↦ inr (d, t, rw e, (rw (depends_on-cons t t d spec ts, =?_refl t) c, h))
      | inl (g₁, e, all) ↦
          let l =
            link_target-Linked t (texts_at dependencies_key spec) g g₁ (k t here) (fresh t here)
              e in
          elim (link_targets_cases ts g₁ nd.1 (λ m h. l.same_keys m ∙ k m (ground arith))
            (λ m h.
              ground (arith, l.dependencies m, text_eq_iff m t, fresh m (ground arith), nd.0))) [
                | inl (g', e', known) ↦ inl (
                  g',
                  rw e e',
                  λ m n h. elim (Bool-cases (m =? t)) [
                    | inl same ↦
                        All-contains _ n _ all (rw (depends_on-cons t m n spec ts, same) at h)
                    | inr other ↦
                        sym (l.same_keys n)
                        ∙ known m n (rw (depends_on-cons t m n spec ts, other) at h)
                  ],
                )
                | inr (d, u, e', (dep, h)) ↦ inr (
                  d,
                  u,
                  rw e e',
                  (
                    rw
                        (
                          depends_on-cons t u d spec ts,
                          not_first t u ts nd.0 (depends_on-target u d ts dep),
                        )
                        dep,
                    sym (l.same_keys d) ∙ h,
                  ),
                )
              ]
    ]

-- Whether the targets are linked.
pub build_graph_cases :
    (ts : Targets)
    → Nodup (keys ts)
    → ((g : Graph) × (build_graph ts ≡ ok g) × IsClosed ts)
      ⊎ ((d t : Text) × (build_graph ts ≡ raise (dependency_not_found d t))
          × (depends_on ts t d ≡ true)
          × (has_key d ts ≡ false))
unfolding build_graph
build_graph_cases ts nd =
    elim (link_targets_cases ts (unlinked ts) nd
      (λ m h. has_key-unlinked m ts ∙ (sym (contains-keys m ts) ∙ h))
      (λ m h. dependencies_of-unlinked m ts)) [
        | inl (g, e, known) ↦ inl (g, e, λ m n h. sym (has_key-unlinked n ts) ∙ known m n h)
        | inr (d, t, e, (dep, h)) ↦ inr (d, t, e, dep, sym (has_key-unlinked d ts) ∙ h)
      ]

-- For targets with distinct names, `BuildDependencyList` links all of them when each dependency is a
-- target: the nodes are the targets, each with the dependencies that it names, or the root if it
-- names none, and with the targets that name it, and the root's dependents are those without
-- dependencies. Else it raises GypError for a dependency of some target that is none.
pub build_graph_outcomes :
    (ts : Targets)
    → Nodup (keys ts)
    → ((g : Graph) × (build_graph ts ≡ ok g) × IsClosed ts × IsGraphOf ts g)
      ⊎ ((d t : Text) × (build_graph ts ≡ raise (dependency_not_found d t))
          × (depends_on ts t d ≡ true)
          × (has_key d ts ≡ false))
build_graph_outcomes ts nd = elim (build_graph_cases ts nd) [
  | inl (g, linked, closed) ↦ inl (g, linked, closed, build_graph-IsGraphOf ts g nd linked)
  | inr unknown ↦ inr unknown
]
