-- ===== src/Build/Targets.antt =====
-- `all_targets` and `main` of src/build.py. What a run does is the sequence of its events; the exit
-- status of a command is what the parameter `system` answers, as os.system of Python does.
pub mod Running
use dcfpe.Common.{
  ℕ, zero, suc, ◌≡◌, refl, Bool, true, false, Option, none, some, List, [], ◌∷◌, ◌++◌, ◌==◌, ltb,
  if◌then◌else◌, Text, codes, Dict, keys, lookup, text_Eq,
}
use dcfpe.Build.Pattern.{match, match_one}

abbrev pub all_targets : Dict Text Text
all_targets =
    (codes "debug_x86", codes "output\\Debug")
    ∷ (codes "debug_x64", codes "output\\Debug_x64")
    ∷ (codes "release_x86", codes "output\\Release")
    ∷ (codes "release_x64", codes "output\\Release_x64")
    ∷ []

pub data Event : Type 0 where
  print : Text → Event
  run : Text → Event

-- The order of Python's strings.
unfoldable pub text_lt : Text → Text → Bool
text_lt s [] = false
text_lt [] (d ∷ t) = true
text_lt (c ∷ s) (d ∷ t) =
    let rest = text_lt s t in if ltb c d then true else if c == d then rest else false

-- `sorted`
unfoldable pub insert_sorted : Text → List Text → List Text
insert_sorted x [] = x ∷ []
insert_sorted x (y ∷ ys) =
    let rest = insert_sorted x ys in if text_lt y x then y ∷ rest else x ∷ y ∷ ys

unfoldable pub sorted : List Text → List Text
unfolding text_lt insert_sorted
sorted [] = []
sorted (x ∷ xs) = insert_sorted x (sorted xs)

unfoldable pub directory : Text → Text
directory target = elim (lookup target all_targets) [ none ↦ [] | some dir ↦ dir ]

pub record Outcome : Type 0 where
  pub events : List Event
  pub exit : Option ℕ

abbrev pub also : List Event → Outcome → Outcome
also before o = record { events = before ++ o.events; exit = o.exit }

unfoldable pub command : Text → Text
unfolding directory
command target = codes "ninja -C " ++ directory target

unfoldable pub headline : Bool → Text → List Event
headline is_first target =
    (if is_first then [] else print [] ∷ []) ++ print (codes "Build " ++ target) ∷ []

-- The loop of `main`; `exit` is set where the code calls sys.exit.
unfoldable pub build_from : (Text → ℕ) → List Text → Bool → List Text → Outcome
build_from system patterns is_first [] = record { events = []; exit = none }
build_from system patterns is_first (target ∷ targets) =
    let skipped = build_from system patterns is_first targets in
    let built =
      also (headline is_first target ++ run (command target) ∷ [])
        (build_from system patterns false targets) in
    let failed : Outcome = record {
      events =
          headline is_first target
          ++ run (command target) ∷ print (codes "Failed to build " ++ target) ∷ [];
      exit = some (system (command target));
    } in
    if match target patterns
    then (if system (command target) == 0 then built else failed)
    else skipped

abbrev pub patterns_of : List Text → List Text
patterns_of (program ∷ pattern ∷ patterns) = pattern ∷ patterns
patterns_of _ = codes "release_x86" ∷ []

unfoldable pub main : (Text → ℕ) → List Text → Outcome
unfolding build_from sorted match match_one command headline
main system argv = build_from system (patterns_of argv) true (sorted (keys all_targets))
