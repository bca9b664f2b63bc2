-- ===== src/Gyp/Graph/Ended.antt =====
-- `_LinkDependenciesInternal` of src/tools/pylib_dbg/input.py ends.
use dcfpe.Common.{
  ℕ, zero, suc, ◌+◌, ◌<◌, ◌≤◌, ◌≡◌, ◌≢◌, refl, subst, ◌⊎◌, inl, inr, Bool, true, false, sym, ◌∙◌,
  ap, Option, none, some, List, [], ◌∷◌, length, length-append, if◌then◌else◌, Text, codes, text_Eq,
  ◌=?◌, =?_eq, contains, contains-keys, Nodup, All, Dict, lookup, lookup-has_key, has_key, keys,
  length-keys, length_le_of_Nodup, Bool-cases, Option-cases, arith,
}
use dcfpe.Common.Results.{ok, raise}
use dcfpe.Gyp.Value.{Value, Targets}
use dcfpe.Gyp.Errors.{Gyp, Error, key_error, missing_target_name, missing_type, out_of_fuel}
use dcfpe.Gyp.Graph.{Graph, dependencies_of, add}
use dcfpe.Gyp.Graph.Sets.{Nodup-add, contains-add, add_fresh}
use dcfpe.Gyp.Graph.Traversal.{
  Visit, leave_out, only_itself, itself_and_on, visit_kind, link_each_dependency, link_checked,
  link_from, link_dependencies_internal,
}
use dcfpe.Gyp.Graph.Linked.{IsCollected, link_dependencies_internal_sound}

module _ (targets : Targets) (g : Graph) (include_shared : Bool)
    (known : (m : Text) → has_key m targets ≡ true → has_key m g.nodes ≡ true) where
  -- Names of nodes, none of them twice.
  record AreNodes (acc : List Text) : Type 0 where
    nodup : Nodup acc
    nodes : (x : Text) → contains x acc ≡ true → has_key x g.nodes ≡ true

  AreNodes-length : (acc : List Text) → AreNodes acc → length acc ≤ length g.nodes
  AreNodes-length acc a = omega (
    arith,
    length-keys g.nodes,
    length_le_of_Nodup acc (keys g.nodes) a.nodup (λ x m. contains-keys x g.nodes ∙ a.nodes x m),
  )

  AreNodes-add :
      (t : Text) (acc : List Text) → has_key t g.nodes ≡ true → AreNodes acc → AreNodes (add t acc)
  AreNodes-add t acc k a = record {
    nodup = Nodup-add t acc a.nodup;
    nodes = λ x m. elim (Bool-cases (x =? t)) [
      | inl same ↦ subst (λ y. has_key y g.nodes ≡ true) (sym (=?_eq x t same)) k
      | inr other ↦ a.nodes x (ground (arith, contains-add x t acc))
    ];
  }

  abbrev Room : ℕ → List Text → Type 0
  Room f acc = length g.nodes < f + length acc

  -- A set that has not shrunk, or an exception of the code.
  abbrev Ends : List Text → Gyp (List Text) → Type 0
  Ends acc r =
      ((e : Error) × (r ≡ raise e) × (e ≢ out_of_fuel))
      ⊎ ((out : List Text) × (r ≡ ok out) × AreNodes out × (length acc ≤ length out))

  abbrev VisitEnds : ℕ → (Text → List Text → Gyp (List Text)) → Type 0
  VisitEnds f visit =
      (t : Text) (acc : List Text) → AreNodes acc → Room f acc → Ends acc (visit t acc)

  link_each_dependency-Ends :
      (f : ℕ) (visit : Text → List Text → Gyp (List Text))
      → VisitEnds f visit
      → (refs : List (Option Text)) (acc : List Text) → AreNodes acc
      → Room f acc
      → Ends acc (link_each_dependency visit refs acc)
  unfolding link_each_dependency
  link_each_dependency-Ends f visit v [] acc a room = inr (acc, refl, a, omega arith)
  link_each_dependency-Ends f visit v (none ∷ refs) acc a room =
      link_each_dependency-Ends f visit v refs acc a room
  link_each_dependency-Ends f visit v (some d ∷ refs) acc a room = elim (v d acc a room) [
    | inl (e, raised, no_fuel) ↦ inl (e, rw raised refl, no_fuel)
    | inr (mid, first, b, longer) ↦
        elim (link_each_dependency-Ends f visit v refs mid b (omega arith)) [
          | inl (e, raised, no_fuel) ↦ inl (e, rw first raised, no_fuel)
          | inr (out, rest, c, longest) ↦ inr (out, rw first rest, c, omega arith)
        ]
  ]

  length-add : (t : Text) (acc : List Text) → length acc ≤ length (add t acc)
  length-add t acc = elim (Bool-cases (contains t acc)) [
    | inl there ↦ unfold add in rw there (omega arith)
    | inr new ↦ omega (arith, ap length (add_fresh t acc new), length-append acc (t ∷ []))
  ]

  onward-Ends :
      (f : ℕ) (visit : Text → List Text → Gyp (List Text))
      → VisitEnds f visit
      → (kind : Visit) (t : Text) (acc : List Text) → has_key t g.nodes ≡ true
      → AreNodes acc
      → Room (suc f) acc
      → Ends acc (elim kind [
        | leave_out ↦ ok acc
        | only_itself ↦ ok (add t acc)
        | itself_and_on ↦
            if contains t acc
            then ok acc
            else link_each_dependency visit (dependencies_of g t) (add t acc)
      ])
  onward-Ends f visit v leave_out t acc k a room = inr (acc, refl, a, omega arith)
  onward-Ends f visit v only_itself t acc k a room =
      inr (add t acc, refl, AreNodes-add t acc k a, length-add t acc)
  onward-Ends f visit v itself_and_on t acc k a room = elim (Bool-cases (contains t acc)) [
    | inl there ↦ rw there (inr (acc, refl, a, omega arith))
    | inr new ↦
        let longer : length (add t acc) ≡ length acc + 1 =
          ap length (add_fresh t acc new) ∙ length-append acc (t ∷ []) in
        elim (link_each_dependency-Ends f visit v (dependencies_of g t) (add t acc)
          (AreNodes-add t acc k a) (omega arith)) [
            | inl (e, raised, no_fuel) ↦ inl (e, rw new raised, no_fuel)
            | inr (out, e, b, longest) ↦ inr (out, rw new e, b, omega arith)
          ]
  ]

  link_from-Ends :
      (f : ℕ) (initial : Bool) → VisitEnds f (λ t. link_from targets g include_shared f t initial)
  unfolding link_from link_checked
  link_from-Ends zero initial t acc a room = absurd (omega (arith, AreNodes-length acc a))
  link_from-Ends (suc f) initial t acc a room = elim (Option-cases (lookup t targets)) [
    | inl missing ↦ inl (key_error t, rw (missing, link_from) refl, λ h. cc)
    | inr (spec, found) ↦ elim (Bool-cases (has_key (codes "target_name") spec)) [
      | inr unnamed ↦ inl (missing_target_name, rw (found, unnamed, link_from) refl, λ h. cc)
      | inl named ↦ elim (Bool-cases (has_key (codes "type") spec)) [
        | inr untyped ↦ inl (missing_type t, rw (found, named, untyped, link_from) refl, λ h. cc)
        | inl typed ↦ subst (Ends acc) (sym (checked spec found named typed)) (
            onward-Ends f (λ d. link_from targets g include_shared f d false)
              (link_from-Ends f false) (visit_kind include_shared initial spec) t acc
              (known t (lookup-has_key t spec targets found)) a room)
      ]
    ]
  ]
    where
      checked :
          (spec : Dict Text Value)
          → lookup t targets ≡ some spec
          → has_key (codes "target_name") spec ≡ true
          → has_key (codes "type") spec ≡ true
          → link_from targets g include_shared (suc f) t initial acc
            ≡ (elim (visit_kind include_shared initial spec) [
              | leave_out ↦ ok acc
              | only_itself ↦ ok (add t acc)
              | itself_and_on ↦
                  if contains t acc
                  then ok acc
                  else link_each_dependency
                      (λ d. link_from targets g include_shared f d false)
                      (dependencies_of g t)
                      (add t acc)
            ])
      checked spec found named typed = rw (found, named, typed, link_from) refl

-- Collecting the link of a target ends, where every target has a node in the graph. It gives a list
-- with no name twice, in which there are, apart from the target, only targets that are no executables
-- and no loadable modules, and no shared libraries unless these are included; or it fails with an
-- exception of the code.
pub link_dependencies_internal_outcomes :
    (targets : Targets) (g : Graph) (include_shared : Bool) (t : Text)
    → ((m : Text) → has_key m targets ≡ true → has_key m g.nodes ≡ true)
    → ((e : Error) × (link_dependencies_internal targets g include_shared t ≡ raise e)
        × (e ≢ out_of_fuel))
      ⊎ ((out : List Text) × (link_dependencies_internal targets g include_shared t ≡ ok out)
          × Nodup out
          × All (IsCollected targets g include_shared t) out)
unfolding link_dependencies_internal contains
link_dependencies_internal_outcomes targets g include_shared t known =
    elim (link_from-Ends targets g include_shared known (length g.nodes + 1) true t []
      (record { nodup = tt; nodes = λ x m. absurd (ground arith) }) (omega arith)) [
        | inl failed ↦ inl failed
        | inr (out, e, _, _) ↦
            let s = link_dependencies_internal_sound targets g include_shared t out e in
            inr (out, e, s.0, s.1)
      ]
