-- ===== src/Samples/Building.antt =====
-- src/build.py: patterns and builds at concrete inputs.
use dcfpe.Common.{
  drop, ◌⊎◌, ℕ, zero, suc, ◌≡◌, ◌≢◌, ◌↔◌, refl, Bool, true, false, Option, none, some, List, [],
  ◌∷◌, ◌++◌, All, map, Text, codes, text_Eq, contains, has_key, arith,
}
use dcfpe.Build.Pattern.{scan, scan_fuel, match_one, match}
use dcfpe.Build.Pattern.Matching.{scan-total, match_one_iff}
use dcfpe.Build.Pattern.Stars.{Matches, IsPlain}
use dcfpe.Build.Targets.{main, command, all_targets, sorted, patterns_of}
use dcfpe.Build.Targets.Running.{
  commands, wanted, SomePattern, AsksFor, main-success, main-failure, wanted_iff,
}

abbrev ab : Text
ab = codes "ab"

ab-IsPlain : IsPlain ab
ab-IsPlain = (ground arith, (ground arith, tt))

scan-total_example : (b : Bool) × (scan (scan_fuel ab (codes "a*")) ab (codes "a*") none ≡ some b)
scan-total_example = scan-total ab (codes "a*")

match_one_iff_example : (match_one ab (codes "a*") ≡ true) ↔ Matches (codes "a*") ab
match_one_iff_example = match_one_iff ab (codes "a*") ab-IsPlain

-- A star of the target itself is compared with the star of the pattern.
star_of_the_target : match_one (codes "*a") (codes "*") ≡ false
unfolding match_one
star_of_the_target = refl

middle_star : match_one (codes "release_x64") (codes "re*e_*4") ≡ true
unfolding match_one
middle_star = refl

abbrev x64 : List Text
x64 = codes "build.py" ∷ codes "*_x64" ∷ []

abbrev debug_x64 : Text
debug_x64 = codes "debug_x64"

abbrev release_x64 : Text
release_x64 = codes "release_x64"

wanted-x64 : wanted x64 ≡ debug_x64 ∷ release_x64 ∷ []
unfolding dcfpe.Build.Targets.Running.keep match sorted dcfpe.Common.text_eq match_one
wanted-x64 = refl

abbrev succeeding : Text → ℕ
succeeding c = 0

abbrev failing : Text → ℕ
failing c = 1

succeeding-All : All (λ t. succeeding (command t) ≡ 0) (wanted x64)
succeeding-All = rw wanted-x64 (refl, (refl, tt))

main-success_example :
    (commands (main succeeding x64).events ≡ map command (wanted x64))
    × ((main succeeding x64).exit ≡ none)
main-success_example = main-success succeeding x64 succeeding-All

main-failure_example :
    (commands (main failing x64).events ≡ map command (debug_x64 ∷ []))
    × ((main failing x64).exit ≡ some 1)
main-failure_example =
    main-failure failing x64 [] (release_x64 ∷ []) debug_x64 wanted-x64 tt (ground arith)

wanted_iff_example : (contains debug_x64 (wanted x64) ≡ true) ↔ (
    (has_key debug_x64 all_targets ≡ true)
    × (SomePattern debug_x64 (drop 1 x64)
        ⊎ ((drop 1 x64 ≡ []) × AsksFor debug_x64 (codes "release_x86"))))
wanted_iff_example = wanted_iff x64 debug_x64
