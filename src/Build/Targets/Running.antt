-- ===== src/Build/Targets/Running.antt =====
-- Which commands a run of src/build.py starts, and how it ends.
use dcfpe.Common.{
  drop, codes, ℕ, ◌≡◌, refl, sym, ap, ap₂, All-contains, subst, ◌≢◌, ◌&&◌, ==_ne, &&_true, ◌∙◌,
  contains-keys, text_Eq, ◌↔◌, ◌⊎◌, inl, inr, Bool, true, false, ◌||◌, none, some, List, [], ◌∷◌,
  ◌++◌, map, if◌then◌else◌, All, Text, text_eq, text_eq_iff, contains, Bool-cases, keys, has_key,
  arith,
}
use dcfpe.Build.Pattern.{match, match_one}
use dcfpe.Build.Pattern.Matching.{match_one_iff}
use dcfpe.Build.Pattern.Stars.{Matches, IsPlain}
use dcfpe.Build.Targets.{
  Event, print, run, all_targets, insert_sorted, sorted, command, headline, Outcome, also,
  build_from, patterns_of, main,
}

-- The commands among the events.
unfoldable pub commands : List Event → List Text
commands [] = []
commands (print t ∷ es) = commands es
commands (run t ∷ es) = t ∷ commands es

unfoldable pub keep : List Text → List Text → List Text
keep patterns [] = []
keep patterns (t ∷ ts) = let rest = keep patterns ts in if match t patterns then t ∷ rest else rest

-- The targets that the command line asks for, in the order of their names.
abbrev pub wanted : List Text → List Text
wanted argv = keep (patterns_of argv) (sorted (keys all_targets))

commands-headline :
    (first : Bool) (t : Text) (es : List Event) → commands (headline first t ++ es) ≡ commands es
unfolding commands headline
commands-headline true t es = refl
commands-headline false t es = refl

commands-also :
    (first : Bool) (t c : Text) (o : Outcome)
    → commands (also (headline first t ++ run c ∷ []) o).events ≡ c ∷ commands o.events
unfolding commands headline
commands-also true t c o = refl
commands-also false t c o = refl

module _ (system : Text → ℕ) (patterns : List Text) where
  abbrev Succeeds : Text → Type 0
  Succeeds t = system (command t) ≡ 0

  build_from-success :
      (first : Bool) (ts : List Text)
      → All Succeeds (keep patterns ts)
      → (commands (build_from system patterns first ts).events ≡ map command (keep patterns ts))
        × ((build_from system patterns first ts).exit ≡ none)
  unfolding build_from keep commands
  build_from-success first [] h = (refl, refl)
  build_from-success first (t ∷ ts) h = elim (Bool-cases (match t patterns)) [
    | inl m ↦
        let h' : Succeeds t × All Succeeds (keep patterns ts) = (rw m at h) in
        let (c, e) = build_from-success false ts h'.1 in
        (rw (m, h'.0) (rw commands-also (ap (λ l. command t ∷ l) c)), rw (m, h'.0) e)
    | inr m ↦
        let h' : All Succeeds (keep patterns ts) = (rw m at h) in
        let (c, e) = build_from-success first ts h' in (rw m c, rw m e)
  ]

  build_from-failure :
      (first : Bool) (ts before after : List Text) (t : Text)
      → keep patterns ts ≡ before ++ t ∷ after
      → All Succeeds before
      → system (command t) ≢ 0
      → (commands (build_from system patterns first ts).events ≡ map command (before ++ t ∷ []))
        × ((build_from system patterns first ts).exit ≡ some (system (command t)))
  unfolding build_from keep commands
  build_from-failure first [] [] after t e h bad = absurd (cc)
  build_from-failure first [] (b ∷ before) after t e h bad = absurd (cc)
  build_from-failure first (u ∷ ts) [] after t e h bad = elim (Bool-cases (match u patterns)) [
    | inl m ↦
        let wanted_first : u ∷ keep patterns ts ≡ t ∷ after = (rw m at e) in
        let same : u ≡ t = cc in
        let nonzero =
          ==_ne (system (command u)) 0 (subst (λ x. system (command x) ≢ 0) (sym same) bad) in
        (
          rw (m, nonzero) (rw commands-headline (ap (λ x. command x ∷ []) same)),
          rw (m, nonzero) (ap (λ x. some (system (command x))) same),
        )
    | inr m ↦
        let (c, x) = build_from-failure first ts [] after t (rw m at e) h bad in (rw m c, rw m x)
  ]
  build_from-failure first (u ∷ ts) (b ∷ before) after t e h bad =
      elim (Bool-cases (match u patterns)) [
        | inl m ↦
            let wanted_first : u ∷ keep patterns ts ≡ b ∷ (before ++ t ∷ after) = (rw m at e) in
            let same : u ≡ b = cc in
            let rest_same : keep patterns ts ≡ before ++ t ∷ after = cc in
            let zero_status : Succeeds u = subst Succeeds (sym same) h.0 in
            let (c, x) = build_from-failure false ts before after t rest_same h.1 bad in
            (
              rw (m, zero_status) (rw commands-also (ap₂ (λ v l. command v ∷ l) same c)),
              rw (m, zero_status) x,
            )
        | inr m ↦
            let (c, x) = build_from-failure first ts (b ∷ before) after t (rw m at e) h bad in
            (rw m c, rw m x)
      ]

-- When every requested build succeeds, ninja is run once for each requested target, in the order
-- of their names, and `main` ends without an exit status.
pub main-success :
    (system : Text → ℕ) (argv : List Text)
    → All (λ t. system (command t) ≡ 0) (wanted argv)
    → (commands (main system argv).events ≡ map command (wanted argv))
      × ((main system argv).exit ≡ none)
unfolding main
main-success system argv h = build_from-success system (patterns_of argv) true _ h

-- When a requested build fails and those before it succeeded, the commands up to that one are
-- run, none after it, and `main` exits with its status.
pub main-failure :
    (system : Text → ℕ) (argv before after : List Text) (t : Text)
    → wanted argv ≡ before ++ t ∷ after
    → All (λ u. system (command u) ≡ 0) before
    → system (command t) ≢ 0
    → (commands (main system argv).events ≡ map command (before ++ t ∷ []))
      × ((main system argv).exit ≡ some (system (command t)))
unfolding main
main-failure system argv before after t e h bad =
    build_from-failure system (patterns_of argv) true _ before after t e h bad

-- A pattern asks for a target by naming it, or by matching it.
abbrev pub AsksFor : Text → Text → Type 0
AsksFor t pattern = (t ≡ pattern) ⊎ Matches pattern t

abbrev pub SomePattern : Text → List Text → Type 0
SomePattern t [] = ⊥
SomePattern t (pattern ∷ patterns) = AsksFor t pattern ⊎ SomePattern t patterns

match_sound :
    (t : Text) (patterns : List Text) → IsPlain t → match t patterns ≡ true → SomePattern t patterns
unfolding match
match_sound t [] plain h = absurd (ground arith)
match_sound t (pattern ∷ patterns) plain h = elim (Bool-cases (text_eq t pattern)) [
  | inl e ↦ inl (inl ((text_eq_iff t pattern).0 e))
  | inr other ↦ elim (Bool-cases (match_one t pattern)) [
    | inl e ↦ inl (inr ((match_one_iff t pattern plain).0 e))
    | inr n ↦ inr (match_sound t patterns plain (ground arith))
  ]
]

match_complete :
    (t : Text) (patterns : List Text) → IsPlain t → SomePattern t patterns → match t patterns ≡ true
unfolding match
match_complete t [] plain h = absurd h
match_complete t (pattern ∷ patterns) plain (inl (inl e)) =
    ground (arith, (text_eq_iff t pattern).1 e)
match_complete t (pattern ∷ patterns) plain (inl (inr d)) =
    ground (arith, (match_one_iff t pattern plain).1 d)
match_complete t (pattern ∷ patterns) plain (inr h) =
    ground (arith, match_complete t patterns plain h)

contains-keep :
    (patterns : List Text) (t : Text) (ts : List Text)
    → contains t (keep patterns ts) ≡ (contains t ts && match t patterns)
unfolding contains keep
contains-keep patterns t [] = refl
contains-keep patterns t (u ∷ ts) = elim (Bool-cases (text_eq t u)) [
  | inl e ↦ ground (arith, (text_eq_iff t u).0 e, contains-keep patterns t ts)
  | inr e ↦ ground (arith, contains-keep patterns t ts)
]

targets-IsPlain : All IsPlain (keys all_targets)
targets-IsPlain = omega arith

target-IsPlain : (t : Text) → has_key t all_targets ≡ true → IsPlain t
target-IsPlain t h =
    All-contains IsPlain t (keys all_targets) targets-IsPlain (contains-keys t all_targets ∙ h)

contains-insert_sorted :
    (t x : Text) (ys : List Text) → contains t (insert_sorted x ys) ≡ (text_eq t x || contains t ys)
unfolding contains insert_sorted
contains-insert_sorted t x [] = refl
contains-insert_sorted t x (y ∷ ys) = ground (arith, contains-insert_sorted t x ys)

contains-sorted : (t : Text) (xs : List Text) → contains t (sorted xs) ≡ contains t xs
unfolding contains sorted
contains-sorted t [] = refl
contains-sorted t (x ∷ xs) = rw (contains-insert_sorted t x (sorted xs)) (rw (contains-sorted t xs))

only_default :
    (t : Text) (argv : List Text)
    → drop 1 argv ≡ []
    → SomePattern t (codes "release_x86" ∷ [])
      ↔ (SomePattern t (drop 1 argv) ⊎ ((drop 1 argv ≡ []) × AsksFor t (codes "release_x86")))
only_default t argv none_given = (
  (λ h. elim h [ inl asked ↦ inr (none_given, asked) | inr nobody ↦ absurd nobody ]),
  (λ h. elim h [
    | inl given ↦ absurd (subst (SomePattern t) none_given given)
    | inr (_, asked) ↦ inl asked
  ]),
)

-- The patterns behind the program's name; release_x86 where there is none.
patterns_given :
    (argv : List Text) (t : Text)
    → SomePattern t (patterns_of argv)
      ↔ (SomePattern t (drop 1 argv) ⊎ ((drop 1 argv ≡ []) × AsksFor t (codes "release_x86")))
patterns_given [] t = only_default t [] refl
patterns_given (program ∷ []) t = only_default t [] refl
patterns_given (program ∷ pattern ∷ patterns) t = (
  (λ h. inl h),
  (λ h. elim h [ inl given ↦ given | inr (no_patterns, _) ↦ absurd (ground arith) ]),
)

-- The requested targets are those of `all_targets` that some pattern behind the program's name names
-- or matches; with no pattern on the command line, those that the pattern release_x86 does.
pub wanted_iff :
    (argv : List Text) (t : Text)
    → (contains t (wanted argv) ≡ true) ↔ (
        (has_key t all_targets ≡ true)
        × (SomePattern t (drop 1 argv) ⊎ ((drop 1 argv ≡ []) × AsksFor t (codes "release_x86"))))
wanted_iff argv t =
    rw
      (
        contains-keep (patterns_of argv) t (sorted (keys all_targets)),
        contains-sorted t (keys all_targets),
        contains-keys t all_targets,
      )
      (
        λ h.
            let (key, found) = &&_true _ _ h in
            (
              key,
              (patterns_given argv t).0
                  (match_sound t (patterns_of argv) (target-IsPlain t key) found),
            ),
        λ h. rw (
          h.0,
          match_complete t (patterns_of argv) (target-IsPlain t h.0)
              ((patterns_given argv t).1 h.1),
        ),
      )
