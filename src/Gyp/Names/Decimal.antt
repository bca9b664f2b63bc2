-- ===== src/Gyp/Names/Decimal.antt =====
-- `IsStrCanonicalInt` of src/tools/pylib_dbg/input.py, and `str` of an int.
use dcfpe.Common.{
  subst, ==_iff, ℕ, zero, suc, ◌+◌, ◌-◌, ◌*◌, ◌/◌, ◌%◌, ◌≤◌, ◌<◌, ◌≡◌, ◌↔◌, refl, sym, ◌∙◌, ap, inl,
  inr, Bool, true, false, ◌&&◌, [], ◌∷◌, ◌++◌, ◌==◌, ltb, leb, if◌then◌else◌, Text, Bool-cases,
  append_assoc, append-nil, &&_true, arith,
}
use dcfpe.Gyp.Value.{ℤ, pos, negsuc}

unfoldable pub is_digit : ℕ → Bool
is_digit c = leb b'0' c && leb c b'9'

-- `s.isdigit()`, for a text that is not empty
unfoldable pub all_digits : Text → Bool
all_digits [] = true
all_digits (c ∷ s) = is_digit c && all_digits s

-- `if '1' <= string[0] <= '9': return string.isdigit()`
unfoldable pub starts_positive : Text → Bool
starts_positive [] = false
starts_positive (c ∷ s) = if leb b'1' c && leb c b'9' then all_digits (c ∷ s) else false

abbrev pub is_empty : Text → Bool
is_empty [] = true
is_empty (d ∷ t) = false

unfoldable pub is_str_canonical_int : Text → Bool
unfolding starts_positive all_digits is_digit
is_str_canonical_int [] = false
is_str_canonical_int (c ∷ s) =
    if c == b'0' && is_empty s
    then true
    else if c == b'-'
    then starts_positive s
    else starts_positive (c ∷ s)

-- The decimal digits of a number, on fuel above it.
unfoldable pub digits_of : ℕ → ℕ → Text
digits_of zero n = []
digits_of (suc f) n =
    let more = digits_of f (n / 10) ++ (b'0' + n % 10) ∷ [] in
    if ltb n 10 then (b'0' + n) ∷ [] else more

unfoldable pub show_nat : ℕ → Text
unfolding digits_of
show_nat n = digits_of (suc n) n

-- `str(n)`
unfoldable pub show_int : ℤ → Text
show_int (pos n) = show_nat n
show_int (negsuc n) = b'-' ∷ show_nat (suc n)

digits_of-fuel : (f k n : ℕ) → n < f → n < k → digits_of f n ≡ digits_of k n
unfolding digits_of
digits_of-fuel zero k n h j = absurd (omega arith)
digits_of-fuel (suc f) zero n h j = absurd (omega arith)
digits_of-fuel (suc f) (suc k) n h j = ground (arith, digits_of-fuel f k (n / 10))

digits_of_big :
    (f n : ℕ) → 9 < n → digits_of (suc f) n ≡ digits_of f (n / 10) ++ (b'0' + n % 10) ∷ []
unfolding digits_of
digits_of_big f n h = ground arith

show_nat_small : (n : ℕ) → n < 10 → show_nat n ≡ (b'0' + n) ∷ []
unfolding digits_of show_nat
show_nat_small n h = ground arith

show_nat_step : (n d : ℕ) → 0 < n → d < 10 → show_nat (n * 10 + d) ≡ show_nat n ++ (b'0' + d) ∷ []
unfolding show_nat
show_nat_step n d hn hd =
    let quotient : (n * 10 + d) / 10 ≡ n = omega arith in
    let remainder : (n * 10 + d) % 10 ≡ d = omega arith in
    digits_of_big (n * 10 + d) (n * 10 + d) (omega arith)
    ∙ rw (quotient, remainder)
        (ap (λ l. l ++ (b'0' + d) ∷ [])
          (digits_of-fuel (n * 10 + d) (suc n) n (omega arith) (omega arith)))

-- The number that digits stand for, behind those that stand for `acc`.
unfoldable pub read_nat : ℕ → Text → ℕ
read_nat acc [] = acc
read_nat acc (c ∷ s) = read_nat (acc * 10 + (c - b'0')) s

read_nat_pos : (acc : ℕ) (s : Text) → 0 < acc → 0 < read_nat acc s
unfolding read_nat
read_nat_pos acc [] h = h
read_nat_pos acc (c ∷ s) h = read_nat_pos (acc * 10 + (c - b'0')) s (omega arith)

show-read_nat :
    (acc : ℕ) (s : Text)
    → 0 < acc
    → all_digits s ≡ true
    → show_nat (read_nat acc s) ≡ show_nat acc ++ s
unfolding read_nat all_digits is_digit
show-read_nat acc [] h d = sym (append-nil (show_nat acc))
show-read_nat acc (c ∷ s) h d =
    let low : b'0' ≤ c = ground arith in
    let high : c ≤ b'9' = ground arith in
    let same : b'0' + (c - b'0') ≡ c = omega arith in
    show-read_nat (acc * 10 + (c - b'0')) s (omega arith) (ground arith)
    ∙ rw (show_nat_step acc (c - b'0') h (omega arith), same)
        (append_assoc (show_nat acc) (c ∷ []) s)

starts_positive-shown : (s : Text) → starts_positive s ≡ true → (n : ℕ) × (0 < n) × (show_nat n ≡ s)
unfolding starts_positive all_digits
starts_positive-shown [] h = absurd (ground arith)
starts_positive-shown (c ∷ s) h =
    let low : b'1' ≤ c = ground arith in
    let high : c ≤ b'9' = ground arith in
    let same : b'0' + (c - b'0') ≡ c = omega arith in
    let e = show-read_nat (c - b'0') s (omega arith) (ground arith) in
    (
      read_nat (c - b'0') s,
      read_nat_pos (c - b'0') s (omega arith),
      e ∙ rw (show_nat_small (c - b'0') (omega arith), same) refl,
    )

all_digits-append : (s t : Text) → all_digits (s ++ t) ≡ (all_digits s && all_digits t)
unfolding all_digits
all_digits-append [] t = refl
all_digits-append (c ∷ s) t = ground (arith, all_digits-append s t)

starts_positive-snoc :
    (s : Text) (c : ℕ)
    → starts_positive s ≡ true
    → is_digit c ≡ true
    → starts_positive (s ++ c ∷ []) ≡ true
unfolding starts_positive all_digits
starts_positive-snoc [] c h d = absurd (ground arith)
starts_positive-snoc (b ∷ s) c h d = ground (arith, all_digits-append s (c ∷ []))

digits_of-starts_positive : (f n : ℕ) → 0 < n → n < f → starts_positive (digits_of f n) ≡ true
unfolding digits_of
digits_of-starts_positive zero n h k = absurd (omega arith)
digits_of-starts_positive (suc f) n h k = elim (Bool-cases (ltb n 10)) [
  | inl small ↦ rw small (unfold starts_positive all_digits is_digit in ground arith)
  | inr big ↦ rw big (
      starts_positive-snoc (digits_of f (n / 10)) (b'0' + n % 10)
        (digits_of-starts_positive f (n / 10) (ground arith) (ground arith))
        (unfold is_digit in ground arith))
]

positive_first : (s : Text) → starts_positive s ≡ true → is_str_canonical_int s ≡ true
unfolding is_str_canonical_int
positive_first [] h = absurd (ground arith)
positive_first (c ∷ s) h = ground arith

canonical_shown : (t : Text) → is_str_canonical_int t ≡ true → (n : ℤ) × (show_int n ≡ t)
unfolding is_str_canonical_int show_int
canonical_shown [] h = absurd (ground arith)
canonical_shown (c ∷ s) h = elim (Bool-cases (c == b'0' && is_empty s)) [
  | inl is_zero ↦ (pos 0, unfold show_nat in (zero_text c s (&&_true _ _ is_zero)))
  | inr n ↦ elim (Bool-cases (c == b'-')) [
    | inl minus ↦
        let (k, positive, e) = starts_positive-shown s (ground arith) in
        (negsuc (k - 1), minus_text c s k ((==_iff c b'-').0 minus) positive e)
    | inr plus ↦ let (k, positive, e) = starts_positive-shown (c ∷ s) (ground arith) in (pos k, e)
  ]
]
  where
    zero_text : (c : ℕ) (s : Text) → ((c == b'0') ≡ true) × (is_empty s ≡ true) → b'0' ∷ [] ≡ c ∷ s
    zero_text c [] h = ground arith
    zero_text c (d ∷ s) h = absurd (ground arith)

    minus_text :
        (c : ℕ) (s : Text) (k : ℕ)
        → c ≡ b'-'
        → 0 < k
        → show_nat k ≡ s
        → b'-' ∷ show_nat (suc (k - 1)) ≡ c ∷ s
    minus_text c s k h p e =
        let same : suc (k - 1) ≡ k = omega arith in rw (same, h) (ap (λ l. b'-' ∷ l) e)

shown_canonical : (n : ℤ) → is_str_canonical_int (show_int n) ≡ true
unfolding show_int
shown_canonical (pos zero) =
    rw (show_nat_small 0 (omega arith)) (unfold is_str_canonical_int in refl)
shown_canonical (pos (suc n)) =
    positive_first (show_nat (suc n)) (
      unfold show_nat in
      digits_of-starts_positive (suc (suc n)) (suc n) (omega arith) (omega arith))
shown_canonical (negsuc n) =
    unfold is_str_canonical_int show_nat in
    digits_of-starts_positive (suc (suc n)) (suc n) (omega arith) (omega arith)

-- A string is in canonical form exactly when it is `str` of some int.
pub is_str_canonical_int_iff :
    (s : Text) → (is_str_canonical_int s ≡ true) ↔ ((n : ℤ) × (show_int n ≡ s))
is_str_canonical_int_iff s =
    (canonical_shown s, λ (n, e). subst (λ t. is_str_canonical_int t ≡ true) e (shown_canonical n))
