-- ===== src/Build/Pattern.antt =====
-- `match_one` and `match` of src/build.py. The indices i, j, x and y stand for the rests of the
-- two texts from there on: `s` is target[i:], `p` is pattern[j:], and `back` holds target[x:] and
-- pattern[y + 1:] once a star was seen, which is when x >= 0.
pub mod Stars
pub mod Matching
use dcfpe.Common.{
  ℕ, zero, suc, ◌+◌, ◌*◌, Bool, true, false, ◌||◌, Option, none, some, List, [], ◌∷◌, ◌==◌,
  if◌then◌else◌, length, Text, text_eq,
}

abbrev pub star : ℕ
star = b'*'

abbrev pub Back : Type 0
Back = Option (Text × Text)

-- `x, i, j = x + 1, x + 1, y + 1`
unfoldable pub rest_after : Text → Text
rest_after [] = []
rest_after (c ∷ s) = s

-- The last two branches of the loop; `next` goes on with the loop.
unfoldable pub retry : Back → (Text → Text → Back → Option Bool) → Option Bool
unfolding rest_after
retry none next = some false
retry (some (bs, bp)) next = next (rest_after bs) bp (some (rest_after bs, bp))

-- `while j < l2 and pattern[j] == '*'`, and the test `j == l2` after it.
unfoldable pub only_stars : Text → Bool
only_stars [] = true
only_stars (b ∷ p) = let rest = only_stars p in if b == star then rest else false

-- The loop over the target. `none` means that the fuel ran out.
unfoldable pub scan : ℕ → Text → Text → Back → Option Bool
scan zero s p back = none
scan (suc f) [] p back = some (only_stars p)
scan (suc f) (c ∷ s) [] back = retry back (scan f)
scan (suc f) (c ∷ s) (b ∷ p) back =
    let same = scan f s p back in
    let starred = scan f (c ∷ s) p (some (c ∷ s, p)) in
    let again = retry back (scan f) in if c == b then same else if b == star then starred else again

abbrev pub scan_fuel : Text → Text → ℕ
scan_fuel target pattern = (length target + 1) * (length pattern + 1)

abbrev pub answer : Option Bool → Bool
answer none = false
answer (some b) = b

unfoldable pub match_one : Text → Text → Bool
unfolding scan only_stars retry
match_one target pattern = answer (scan (scan_fuel target pattern) target pattern none)

unfoldable pub match : Text → List Text → Bool
match target [] = false
match target (pattern ∷ patterns) =
    if text_eq target pattern || match_one target pattern then true else match target patterns
