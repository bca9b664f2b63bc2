-- ===== src/Build/Pattern/Stars.antt =====
-- Patterns with stars, and what the fuel of `match_one` of src/build.py is enough for.
use dcfpe.Common.{
  ℕ, zero, suc, ◌+◌, ◌*◌, ◌≤◌, ◌<◌, ◌≡◌, refl, ◌≢◌, inl, inr, Bool, true, false, Option, none, some,
  [], ◌∷◌, ◌==◌, length, All, Text, Bool-cases, arith,
}
use dcfpe.Build.Pattern.{star, Back, rest_after, retry, only_stars, scan}

-- A star stands for any run of characters, and every other character for itself.
pub data Matches : Text → Text → Type 0 where
  done : Matches [] []
  same : {b c : ℕ} {p s : Text} → b ≢ star → b ≡ c → Matches p s → Matches (b ∷ p) (c ∷ s)
  leave : {b : ℕ} {p s : Text} → b ≡ star → Matches p s → Matches (b ∷ p) s
  take : {b c : ℕ} {p s : Text} → b ≡ star → Matches (b ∷ p) s → Matches (b ∷ p) (c ∷ s)

-- The target holds no star of its own.
abbrev pub IsPlain : Text → Type 0
IsPlain = All (λ c. c ≢ star)

pub same_inv : {b c : ℕ} {p s : Text} → b ≢ star → Matches (b ∷ p) (c ∷ s) → (b ≡ c) × Matches p s
same_inv n (same _ e d) = (e, d)
same_inv n (leave e d) = absurd (n e)
same_inv n (take e d) = absurd (n e)

at_end : {b : ℕ} {p : Text} → Matches (b ∷ p) [] → (b ≡ star) × Matches p []
at_end (leave e d) = (e, d)

pub only_stars-sound : (p : Text) → only_stars p ≡ true → Matches p []
unfolding only_stars
only_stars-sound [] h = done
only_stars-sound (b ∷ p) h = leave (ground arith) (only_stars-sound p (ground arith))

pub only_stars_complete : (p : Text) → Matches p [] → only_stars p ≡ true
unfolding only_stars
only_stars_complete [] d = refl
only_stars_complete (b ∷ p) d = let (e, d') = at_end d in ground (arith, only_stars_complete p d')

-- If a star takes no more here, then the pattern behind it matches.
pub after_star :
    {b c : ℕ} {p s : Text}
    → Matches (b ∷ p) (c ∷ s)
    → b ≡ star
    → ¬ Matches p (c ∷ s)
    → Matches (b ∷ p) s
after_star (same n _ _) e stuck = absurd (n e)
after_star (leave _ d) e stuck = absurd (stuck d)
after_star (take _ d) e stuck = d

pub double_star :
    {a b : ℕ} {p s : Text} → a ≡ star → b ≡ star → Matches (a ∷ b ∷ p) s → Matches (b ∷ p) s
double_star ea eb (same n _ _) = absurd (n ea)
double_star ea eb (leave _ d) = d
double_star ea eb (take _ d) = take eb (double_star ea eb d)

pub star_empty : {a : ℕ} {p : Text} → Matches (a ∷ p) [] → Matches p []
star_empty (leave _ d) = d

-- A literal behind a star can always be paid by the first character that fits.
pub past_literal :
    {a b c : ℕ} {p : Text} (s : Text)
    → a ≡ star
    → b ≢ star
    → Matches (a ∷ b ∷ p) (c ∷ s)
    → Matches (a ∷ p) s
past_literal s ea nb (same n _ _) = absurd (n ea)
past_literal s ea nb (leave _ d) = leave ea (same_inv nb d).1
past_literal [] ea nb (take _ d) = absurd (nb (at_end (star_empty d)).0)
past_literal (x ∷ s) ea nb (take _ d) = take ea (past_literal s ea nb d)

length-rest_after : (s : Text) → 0 < length s → length (rest_after s) + 1 ≡ length s
unfolding rest_after
length-rest_after [] h = omega arith
length-rest_after (c ∷ s) h = omega arith

-- `k` is above every pattern's length, and `m` bounds the text that is still to be tried.
abbrev Fits : ℕ → ℕ → Text → Back → Type 0
Fits m k s none = Unit
Fits m k s (some (bs, bp)) = (length s ≤ length bs) × (length bs ≤ m) × (length bp < k)

retry-some :
    (f m k c : ℕ) (s : Text) (back : Back) (next : Text → Text → Back → Option Bool)
    → ((m' : ℕ) (s' p' : Text)
        → length s' ≤ m'
        → length p' < k
        → m' * k + length p' < f
        → (b : Bool) × (next s' p' (some (s', p')) ≡ some b))
    → suc (length s) ≤ m
    → m * k ≤ f
    → Fits m k (c ∷ s) back
    → (b : Bool) × (retry back next ≡ some b)
unfolding retry
retry-some f m k c s none next ih hs hf st = (false, refl)
retry-some f zero k c s (some (bs, bp)) next ih hs hf st = absurd (omega arith)
retry-some f (suc m) k c s (some (bs, bp)) next ih hs hf st =
    let shorter : length (rest_after bs) ≤ m = omega (arith, length-rest_after bs (omega arith)) in
    ih m (rest_after bs) bp shorter (omega arith) (grind arith)

Fits-tail : (m k c : ℕ) (s : Text) (back : Back) → Fits m k (c ∷ s) back → Fits m k s back
Fits-tail m k c s none st = tt
Fits-tail m k c s (some (bs, bp)) st = (omega arith, st.1, st.2)

pub scan-some :
    (f m k : ℕ) (s p : Text) (back : Back)
    → length s ≤ m
    → length p < k
    → m * k + length p < f
    → Fits m k s back
    → (b : Bool) × (scan f s p back ≡ some b)
unfolding scan
scan-some zero m k s p back hs hp hf st = absurd (omega arith)
scan-some (suc f) m k [] p back hs hp hf st = (only_stars p, refl)
scan-some (suc f) m k (c ∷ s) [] back hs hp hf st =
    retry-some f m k c s back (scan f)
      (λ m' s' p' hs' hp' hf'. scan-some f m' k s' p' (some (s', p')) hs' hp' hf' (omega arith)) hs
      (omega arith) st
scan-some (suc f) m k (c ∷ s) (b ∷ p) back hs hp hf st = elim (Bool-cases (c == b)) [
  | inl e ↦ rw e (
      scan-some f m k s p back (omega arith) (omega arith) (omega arith)
        (Fits-tail m k c s back st))
  | inr e ↦ rw e (elim (Bool-cases (b == star)) [
    | inl e' ↦
        rw e'
          (scan-some f m k (c ∷ s) p (some (c ∷ s, p)) hs (omega arith) (omega arith) (omega arith))
    | inr e' ↦ rw e' (
        retry-some f m k c s back (scan f)
          (λ m' s' p' hs' hp' hf'. scan-some f m' k s' p' (some (s', p')) hs' hp' hf' (omega arith))
          hs (omega arith) st)
  ])
]
