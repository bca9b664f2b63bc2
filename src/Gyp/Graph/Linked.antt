-- ===== src/Gyp/Graph/Linked.antt =====
-- Which targets `_LinkDependenciesInternal` collects.
use dcfpe.Common.{
  ℕ, zero, suc, ◌+◌, ◌≡◌, refl, subst, ◌⊎◌, inl, inr, Bool, true, false, not, ◌&&◌, ◌||◌, sym,
  if◌then◌else◌, Option, none, some, List, [], ◌∷◌, length, All, Text, codes, text_Eq, text_eq,
  text_eq_iff, contains, Nodup, Dict, lookup, has_key, Bool-cases, Option-cases, arith,
}
use dcfpe.Common.Results.{ok, >>=-ok, ok_unique}
use dcfpe.Gyp.Value.{Value, Targets, text_at}
use dcfpe.Gyp.Errors.{Gyp}
use dcfpe.Gyp.Graph.{Graph, dependencies_of, add}
use dcfpe.Gyp.Graph.Sets.{Nodup-add, All-add}
use dcfpe.Gyp.Graph.Traversal.{
  has_type, Visit, leave_out, only_itself, itself_and_on, visit_kind, link_each_dependency,
  link_checked, link_from, link_dependencies_internal,
}

-- What the type of a target says of one that can go into the link of another: it is no executable
-- and no loadable module, and a shared library only if these are included.
abbrev pub IsLinkInput : (include_shared : Bool) → Option Text → Type 0
IsLinkInput include_shared type =
    (has_type type (codes "executable") ≡ false)
    × (has_type type (codes "loadable_module") ≡ false)
    × ((has_type type (codes "shared_library") && not include_shared) ≡ false)

has_type-none :
    (type : Option Text)
    → has_type type (codes "none") ≡ true
    → (include_shared : Bool) → IsLinkInput include_shared type
unfolding text_eq
has_type-none none h include_shared = absurd (ground arith)
has_type-none (some t) h include_shared =
    subst (λ u. IsLinkInput include_shared (some u)) (sym ((text_eq_iff t (codes "none")).0 h))
      (refl, refl, refl)

left_out_or_input :
    (include_shared : Bool) (spec : Dict Text Value)
    → (visit_kind include_shared false spec ≡ leave_out)
      ⊎ IsLinkInput include_shared (text_at (codes "type") spec)
unfolding visit_kind
left_out_or_input include_shared spec =
    let type = text_at (codes "type") spec in
    elim (Bool-cases (has_type type (codes "none"))) [
      | inl is_none ↦ inr (has_type-none type is_none include_shared)
      | inr no_none ↦
          elim (Bool-cases
            (has_type type (codes "executable") || has_type type (codes "loadable_module"))) [
              | inl out ↦ inl (ground arith)
              | inr no_program ↦
                  elim (Bool-cases (has_type type (codes "shared_library") && not include_shared)) [
                    | inl out ↦ inl (ground arith)
                    | inr no_shared ↦ inr (ground arith, ground arith, no_shared)
                  ]
            ]
    ]

module _ (targets : Targets) (g : Graph) (include_shared : Bool) (root : Text) where
  -- The target that is linked, or one that its link takes.
  abbrev pub IsCollected : Text → Type 0
  IsCollected a =
      (a ≡ root)
      ⊎ ((spec : Dict Text Value) × (lookup a targets ≡ some spec)
          × IsLinkInput include_shared (text_at (codes "type") spec))

  record Sound (acc : List Text) : Type 0 where
    nodup : Nodup acc
    each : All IsCollected acc

  Sound-add : (t : Text) (acc : List Text) → IsCollected t → Sound acc → Sound (add t acc)
  Sound-add t acc c s = record {
    nodup = Nodup-add t acc s.nodup;
    each = All-add IsCollected t acc c s.each;
  }

  abbrev Keeps : (Text → List Text → Gyp (List Text)) → Type 0
  Keeps visit = (t : Text) (acc out : List Text) → Sound acc → visit t acc ≡ ok out → Sound out

  link_each_dependency-Sound :
      (visit : Text → List Text → Gyp (List Text))
      → Keeps visit
      → (refs : List (Option Text)) (acc out : List Text) → Sound acc
      → link_each_dependency visit refs acc ≡ ok out
      → Sound out
  unfolding link_each_dependency
  link_each_dependency-Sound visit k [] acc out s e = subst Sound (ok_unique (ok _) refl e) s
  link_each_dependency-Sound visit k (none ∷ refs) acc out s e =
      link_each_dependency-Sound visit k refs acc out s e
  link_each_dependency-Sound visit k (some d ∷ refs) acc out s e =
      let (mid, first, rest) = >>=-ok (visit d acc) (link_each_dependency visit refs) e in
      link_each_dependency-Sound visit k refs mid out (k d acc mid s first) rest

  module _ (visit : Text → List Text → Gyp (List Text)) (k : Keeps visit) where
    onward :
        (kind : Visit) (t : Text) (acc out : List Text)
        → (kind ≡ leave_out) ⊎ IsCollected t
        → Sound acc
        → (elim kind [
          | leave_out ↦ ok acc
          | only_itself ↦ ok (add t acc)
          | itself_and_on ↦
              if contains t acc
              then ok acc
              else link_each_dependency visit (dependencies_of g t) (add t acc)
        ])
          ≡ ok out
        → Sound out
    onward leave_out t acc out c s e = subst Sound (ok_unique (ok _) refl e) s
    onward only_itself t acc out (inl h) s e = cc
    onward only_itself t acc out (inr c) s e =
        subst Sound (ok_unique (ok _) refl e) (Sound-add t acc c s)
    onward itself_and_on t acc out (inl h) s e = cc
    onward itself_and_on t acc out (inr c) s e = elim (Bool-cases (contains t acc)) [
      | inl there ↦ subst Sound (ok_unique (ok _) refl (rw there at e)) s
      | inr new ↦
          link_each_dependency-Sound visit k (dependencies_of g t) (add t acc) out
            (Sound-add t acc c s) (rw new at e)
    ]

    link_checked-Sound :
        (t : Text) (initial : Bool) (acc out : List Text) (spec : Dict Text Value)
        → (visit_kind include_shared initial spec ≡ leave_out) ⊎ IsCollected t
        → Sound acc
        → link_checked targets g include_shared visit t initial acc spec ≡ ok out
        → Sound out
    unfolding link_checked
    link_checked-Sound t initial acc out spec c s e =
        elim (Bool-cases (has_key (codes "target_name") spec)) [
          | inr missing ↦ absurd (ground arith)
          | inl named ↦ elim (Bool-cases (has_key (codes "type") spec)) [
            | inr missing ↦ absurd (ground arith)
            | inl typed ↦
                onward (visit_kind include_shared initial spec) t acc out c s
                  (rw (named, typed) at e)
          ]
        ]

  link_from-Sound :
      (f : ℕ) (t : Text) (initial : Bool) (acc out : List Text)
      → (initial ≡ false) ⊎ (t ≡ root)
      → Sound acc
      → link_from targets g include_shared f t initial acc ≡ ok out
      → Sound out
  unfolding link_from
  link_from-Sound zero t initial acc out i s e = absurd (ground arith)
  link_from-Sound (suc f) t initial acc out i s e = elim (Option-cases (lookup t targets)) [
    | inl missing ↦ absurd (ground arith)
    | inr (spec, found) ↦
        link_checked-Sound (λ d. link_from targets g include_shared f d false)
          (λ d acc' out' s' e'. link_from-Sound f d false acc' out' (inl refl) s' e') t initial acc
          out spec (kind spec found i) s (rw (found, link_from) at e)
  ]
    where
      kind :
          (spec : Dict Text Value)
          → lookup t targets ≡ some spec
          → (initial ≡ false) ⊎ (t ≡ root)
          → (visit_kind include_shared initial spec ≡ leave_out) ⊎ IsCollected t
      kind spec found (inr here) = inr (inl here)
      kind spec found (inl later) = elim (left_out_or_input include_shared spec) [
        | inl out ↦ inl (rw later out)
        | inr input ↦ inr (inr (spec, found, input))
      ]

-- A list that is returned.
pub link_dependencies_internal_sound :
    (targets : Targets) (g : Graph) (include_shared : Bool) (t : Text) (out : List Text)
    → link_dependencies_internal targets g include_shared t ≡ ok out
    → Nodup out × All (IsCollected targets g include_shared t) out
unfolding link_dependencies_internal
link_dependencies_internal_sound targets g include_shared t out e =
    let s =
      link_from-Sound targets g include_shared t (length g.nodes + 1) t true [] out (inr refl)
        (record { nodup = tt; each = tt }) e in
    (s.nodup, s.each)
