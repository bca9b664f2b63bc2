-- ===== src/Gyp/Graph/Building.antt =====
-- `BuildDependencyList`: the flat list is a build order, and there is none exactly when a
-- dependency is unknown or the dependencies run in a circle.
use dcfpe.Common.{
  ℕ, zero, suc, ◌<◌, ◌≡◌, ◌≢◌, refl, sym, ◌∙◌, subst, inl, inr, ◌⊎◌, Bool, true, false, List, [],
  ◌∷◌, ◌++◌, ◌==◌, ==_iff, if◌then◌else◌, length, Text, text_Eq, ◌=?◌, =?_eq, contains,
  contains-snoc, Nodup, has_key, keys, contains-keys, length-keys, Bool-cases, length_le_of_Nodup,
  contains_of_length, arith,
}
use dcfpe.Common.Results.{ok, raise}
use dcfpe.Gyp.Value.{Targets}
use dcfpe.Gyp.Errors.{dependency_not_found, circular}
use dcfpe.Gyp.Graph.{Graph, build_dependency_list}
use dcfpe.Gyp.Graph.Wiring.{
  depends_on, depends_on-target, IsGraphOf, IsClosed, build_graph-IsGraphOf,
}
use dcfpe.Gyp.Graph.Unknown.{build_graph_cases}
use dcfpe.Gyp.Graph.Order.{OrderedAfter, Inv}
use dcfpe.Gyp.Graph.Flatten.{flatten_to_list-Inv}

-- A measure that every dependency lowers: the dependencies run in no circle.
abbrev pub IsRanked : Targets → (Text → ℕ) → Type 0
IsRanked ts rank = (t d : Text) → depends_on ts t d ≡ true → rank d < rank t

pub record IsBuildOrder (ts : Targets) (flat : List Text) : Type 0 where
  pub nodup : Nodup flat
  pub ordered : OrderedAfter ts [] flat
  pub same_targets : (a : Text) → contains a flat ≡ has_key a ts

same_bool : (a b : Bool) → (a ≡ true → b ≡ true) → (b ≡ true → a ≡ true) → a ≡ b
same_bool true b f g = sym (f refl)
same_bool false true f g = g refl
same_bool false false f g = refl

-- The two ways out of linking; behind them the lengths decide.
build_cases :
    (pick : List Text → ℕ) (ts : Targets)
    → Nodup (keys ts)
    → ((d t : Text) × (build_dependency_list pick ts ≡ raise (dependency_not_found d t))
        × (depends_on ts t d ≡ true)
        × (has_key d ts ≡ false))
      ⊎ ((g : Graph) × (out : List Text) × (gr : IsGraphOf ts g) × IsClosed ts
          × Inv ts g gr out []
          × (build_dependency_list pick ts
              ≡ (if length out == length ts then ok (g, out) else raise circular)))
unfolding build_dependency_list
build_cases pick ts nd = elim (build_graph_cases ts nd) [
  | inr (d, t, e, dep, absent) ↦ inl (d, t, rw e, dep, absent)
  | inl (g, e, closed) ↦
      let gr = build_graph-IsGraphOf ts g nd e in
      let (out, e', i) = flatten_to_list-Inv pick ts g gr in inr (g, out, gr, closed, i, rw (e, e'))
]

module _ (ts : Targets) (nd : Nodup (keys ts)) (g : Graph) (gr : IsGraphOf ts g) (out : List Text)
    (i : Inv ts g gr out []) where
  in_keys : (a : Text) → contains a out ≡ true → contains a (keys ts) ≡ true
  in_keys a h = contains-keys a ts ∙ i.known a h

  pub Inv-IsBuildOrder : length out ≡ length ts → IsBuildOrder ts out
  Inv-IsBuildOrder e = record {
    nodup = i.nodup;
    ordered = i.ordered;
    same_targets = λ a. same_bool _ _ (i.known a) (λ h.
        contains_of_length out (keys ts) i.nodup in_keys (e ∙ sym (length-keys ts)) a
          (contains-keys a ts ∙ h));
  }

  module _ (closed : IsClosed ts) (rank : Text → ℕ) (ranked : IsRanked ts rank) where
    reached : (k : ℕ) (a : Text) → rank a < k → has_key a ts ≡ true → contains a out ≡ true
    unfolding contains
    reached zero a h ka = elim h [ ]
    reached (suc k) a h ka = ground (
      arith,
      i.complete a ka (λ d dep. reached k d (omega (arith, ranked a d dep)) (closed a d dep)),
    )

    pub ranked-length : length out ≡ length ts
    ranked-length = omega (
      arith,
      length-keys ts,
      length_le_of_Nodup out (keys ts) i.nodup in_keys,
      length_le_of_Nodup (keys ts) out nd
          (λ a h. reached (suc (rank a)) a (omega arith) (sym (contains-keys a ts) ∙ h)),
    )

-- Whatever order Python's set has, and for targets with distinct names: a list that
-- `BuildDependencyList` returns holds every target once, behind all of its dependencies.
pub build_dependency_list-IsBuildOrder :
    (pick : List Text → ℕ) (ts : Targets) (g : Graph) (flat : List Text)
    → Nodup (keys ts)
    → build_dependency_list pick ts ≡ ok (g, flat)
    → IsBuildOrder ts flat
build_dependency_list-IsBuildOrder pick ts g flat nd e = elim (build_cases pick ts nd) [
  | inl (d, t, e', _, _) ↦ absurd (ground arith)
  | inr (g', out, gr, closed, i, e') ↦ elim (Bool-cases (length out == length ts)) [
    | inl same ↦
        let here : build_dependency_list pick ts ≡ ok (g', out) = (rw same at e') in
        let same_list : out ≡ flat = cc in
        subst (IsBuildOrder ts) same_list (Inv-IsBuildOrder ts nd g' gr out i ((==_iff _ _).0 same))
    | inr differ ↦ absurd (ground arith)
  ]
]

-- For targets with distinct names `BuildDependencyList` ends, in one of three ways: with a list; with the error for a
-- dependency of some target that is no target; or with the error for a cycle, and then every
-- dependency is a target and no measure falls along all dependencies.
pub build_dependency_list_outcomes :
    (pick : List Text → ℕ) (ts : Targets)
    → Nodup (keys ts)
    → ((g : Graph) × (flat : List Text) × (build_dependency_list pick ts ≡ ok (g, flat))
        × IsClosed ts)
      ⊎ ((d t : Text) × (build_dependency_list pick ts ≡ raise (dependency_not_found d t))
          × (depends_on ts t d ≡ true)
          × (has_key d ts ≡ false))
      ⊎ ((build_dependency_list pick ts ≡ raise circular)
          × IsClosed ts
          × ((rank : Text → ℕ) → ¬ IsRanked ts rank))
build_dependency_list_outcomes pick ts nd = elim (build_cases pick ts nd) [
  | inl (d, t, e, dep, absent) ↦ inr (inl (d, t, e, dep, absent))
  | inr (g, out, gr, closed, i, e) ↦ elim (Bool-cases (length out == length ts)) [
    | inl same ↦ inl (g, out, rw same at e, closed)
    | inr differ ↦ inr (
        inr (
          rw differ at e,
          closed,
          λ rank ranked. ground (arith, ranked-length ts nd g gr out i closed rank ranked),
        ))
  ]
]

-- A chain of dependencies from one target to another.
pub data Reaches (ts : Targets) (a : Text) : Text → Type 0 where
  direct : {d : Text} → depends_on ts a d ≡ true → Reaches ts a d
  further : {b d : Text} → Reaches ts a b → depends_on ts b d ≡ true → Reaches ts a d

unfoldable pub position : Text → List Text → ℕ
position a [] = 0
position a (x ∷ xs) = if a =? x then 0 else suc (position a xs)

pub dependency_first :
    (ts : Targets) (seen flat : List Text) (a d : Text)
    → OrderedAfter ts seen flat
    → contains a flat ≡ true
    → contains d seen ≡ false
    → depends_on ts a d ≡ true
    → position d flat < position a flat
unfolding contains position
dependency_first ts seen [] a d o ca cd dep = absurd (ground arith)
dependency_first ts seen (x ∷ flat) a d o ca cd dep = elim (Bool-cases (a =? x)) [
  | inl same ↦
      absurd (ground (arith, o.0 d (subst (λ y. depends_on ts y d ≡ true) (=?_eq a x same) dep)))
  | inr other ↦ elim (Bool-cases (d =? x)) [
    | inl here ↦ ground arith
    | inr later ↦ ground (
      arith,
      dependency_first ts (seen ++ x ∷ []) flat a d o.1 (ground arith)
          (ground (arith, contains-snoc d x seen)) dep,
    )
  ]
]

Reaches-target : {ts : Targets} {a b : Text} → Reaches ts a b → has_key a ts ≡ true
Reaches-target {ts} {a} (direct {d} h) = depends_on-target a d ts h
Reaches-target (further r h) = Reaches-target r

Reaches-first :
    {ts : Targets} {flat : List Text} {a b : Text}
    → IsBuildOrder ts flat
    → Reaches ts a b
    → position b flat < position a flat
Reaches-first {ts} {flat} {a} o (direct {d} h) =
    dependency_first ts [] flat a d o.ordered (o.same_targets a ∙ depends_on-target a d ts h)
      (unfold contains in refl) h
Reaches-first {ts} {flat} {a} o (further {b} {d} r h) = omega (
  arith,
  Reaches-first o r,
  dependency_first ts [] flat b d o.ordered (o.same_targets b ∙ depends_on-target b d ts h)
      (unfold contains in refl) h,
)

-- Among targets with distinct names, one that depends on itself, directly or through others, keeps
-- `BuildDependencyList` from returning a list.
pub build_dependency_list_cycle :
    (pick : List Text → ℕ) (ts : Targets) (a : Text) (g : Graph) (flat : List Text)
    → Nodup (keys ts)
    → Reaches ts a a
    → build_dependency_list pick ts ≢ ok (g, flat)
build_dependency_list_cycle pick ts a g flat nd r e =
    omega (arith, Reaches-first (build_dependency_list-IsBuildOrder pick ts g flat nd e) r)
