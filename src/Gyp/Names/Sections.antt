-- ===== src/Gyp/Names/Sections.antt =====
-- `IsPathSection` of src/tools/pylib_dbg/input.py.
use dcfpe.Common.{
  sym, ◌++◌, append-nil, append_assoc, nat_eq, ℕ, zero, suc, ◌+◌, ◌-◌, ◌<◌, ◌≡◌, refl, ap, ◌∙◌, inl,
  inr, Bool, true, false, ◌||◌, Option, none, some, List, [], ◌∷◌, ◌==◌, if◌then◌else◌, length,
  drop, Text, codes, text_Eq, text_eq, contains, get_last?, drop_last, Bool-cases, arith,
}
use dcfpe.Common.Results.{ok, raise}
use dcfpe.Gyp.Errors.{Gyp, out_of_fuel}

-- `section[-1:] in '=+?!'`. The empty text is a part of every text, so the answer is true for it.
unfoldable pub ends_in_operator : Text → Bool
ends_in_operator s = elim (get_last? s) [
  | none ↦ true
  | some c ↦ c == b'=' || (c == b'+' || (c == b'?' || c == b'!'))
]

-- `while section[-1:] in '=+?!': section = section[:-1]`, on fuel
unfoldable pub strip_operators : ℕ → Text → Option Text
strip_operators zero section = none
strip_operators (suc f) section =
    let shorter = strip_operators f (drop_last section) in
    if ends_in_operator section then shorter else some section

-- `s[-n:]`
abbrev pub last_n : ℕ → Text → Text
last_n n s = drop (length s - n) s

abbrev pub without_s : Text → Text
without_s tail = elim (get_last? tail) [
  | none ↦ tail
  | some c ↦ if c == b's' then drop_last tail else tail
]

-- The test of the tail, in place of the regular expression _(dir|file|path)s?$.
unfoldable pub names_a_path : Text → Bool
names_a_path section =
    let tail = without_s (last_n 6 section) in
    if contains b'_' section
    then (text_eq (last_n 5 tail) (codes "_file") || text_eq (last_n 5 tail) (codes "_path"))
      || text_eq (last_n 4 tail) (codes "_dir")
    else false

-- `out_of_fuel` stands for a call that does not end.
unfoldable pub is_path_section : List Text → Text → Gyp Bool
unfolding strip_operators ends_in_operator names_a_path
is_path_section path_sections section = elim (strip_operators (length section + 1) section) [
  | none ↦ raise out_of_fuel
  | some base ↦ if contains base path_sections then ok true else ok (names_a_path base)
]

-- Some character of the text is none of '=+?!'.
unfoldable pub has_stem : Text → Bool
has_stem [] = false
has_stem (c ∷ s) = if c == b'=' || (c == b'+' || (c == b'?' || c == b'!')) then has_stem s else true

has_stem-drop_last : (s : Text) → ends_in_operator s ≡ true → has_stem (drop_last s) ≡ has_stem s
unfolding ends_in_operator get_last? drop_last has_stem
has_stem-drop_last [] h = refl
has_stem-drop_last (c ∷ []) h = ground arith
has_stem-drop_last (c ∷ d ∷ s) h = ground (arith, has_stem-drop_last (d ∷ s) h)

length-drop_last : (c : ℕ) (s : Text) → length (drop_last (c ∷ s)) ≡ length s
unfolding drop_last
length-drop_last c [] = refl
length-drop_last c (d ∷ s) = ap suc (length-drop_last d s)

strip_operators-some :
    (f : ℕ) (s : Text)
    → has_stem s ≡ true
    → length s < f
    → (base : Text) × (strip_operators f s ≡ some base) × (ends_in_operator base ≡ false)
unfolding strip_operators
strip_operators-some zero s h l = absurd (omega arith)
strip_operators-some (suc f) [] h l = absurd (unfold has_stem in ground arith)
strip_operators-some (suc f) (c ∷ s) h l = elim (Bool-cases (ends_in_operator (c ∷ s))) [
  | inr done ↦ (c ∷ s, rw done, done)
  | inl more ↦
      let (base, e, k) =
        strip_operators-some f (drop_last (c ∷ s)) (has_stem-drop_last (c ∷ s) more ∙ h)
          (omega (arith, length-drop_last c s)) in
      (base, rw more e, k)
]

no_stem-operator : (s : Text) → has_stem s ≡ false → ends_in_operator s ≡ true
unfolding ends_in_operator get_last? has_stem
no_stem-operator [] h = refl
no_stem-operator (c ∷ []) h = ground arith
no_stem-operator (c ∷ d ∷ s) h = no_stem-operator (d ∷ s) (ground arith)

has_stem-snoc : (s : Text) (c : ℕ) → has_stem (s ++ c ∷ []) ≡ (has_stem s || has_stem (c ∷ []))
unfolding has_stem
has_stem-snoc [] c = refl
has_stem-snoc (d ∷ s) c = ground (arith, has_stem-snoc s c)

last_operator :
    (c : ℕ) (s : Text)
    → ends_in_operator (c ∷ s) ≡ true
    → (o : ℕ) × (c ∷ s ≡ drop_last (c ∷ s) ++ o ∷ []) × (has_stem (o ∷ []) ≡ false)
unfolding ends_in_operator get_last? drop_last has_stem
last_operator c [] h = (c, refl, ground arith)
last_operator c (d ∷ s) h = let (o, e, k) = last_operator d s h in (o, ap (λ l. c ∷ l) e, k)

-- What the loop takes off the key are operator characters at its end.
strip_operators-Prefix :
    (f : ℕ) (s base : Text)
    → strip_operators f s ≡ some base
    → (operators : Text) × (s ≡ base ++ operators) × (has_stem operators ≡ false)
unfolding strip_operators has_stem ends_in_operator get_last? drop_last
strip_operators-Prefix zero s base e = absurd (ground arith)
strip_operators-Prefix (suc f) [] base e = strip_operators-Prefix f [] base e
strip_operators-Prefix (suc f) (c ∷ s) base e = elim (Bool-cases (ends_in_operator (c ∷ s))) [
  | inr done ↦
      let e' : some (c ∷ s) ≡ some base = (rw (done, strip_operators) at e) in
      let same : c ∷ s ≡ base = cc in ([], same ∙ sym (append-nil base), refl)
  | inl more ↦
      let (operators, shorter, none_left) =
        strip_operators-Prefix f (drop_last (c ∷ s)) base (rw (more, strip_operators) at e) in
      let (o, whole, is_operator) = last_operator c s more in
      (
        operators ++ o ∷ [],
        whole ∙ (ap (λ l. l ++ o ∷ []) shorter ∙ append_assoc base operators (o ∷ [])),
        ground (arith, has_stem-snoc operators o),
      )
]

-- On a key made of the operator characters alone, and on the empty key, the loop never ends.
pub strip_operators-diverges : (f : ℕ) (s : Text) → has_stem s ≡ false → strip_operators f s ≡ none
unfolding strip_operators
strip_operators-diverges zero s h = refl
strip_operators-diverges (suc f) s h =
    rw (no_stem-operator s h)
      (strip_operators-diverges f (drop_last s) (has_stem-drop_last s (no_stem-operator s h) ∙ h))

-- `IsPathSection` ends on every key that has a character other than '=', '+', '?' and '!'; its
-- answer is that for the key without the trailing ones.
pub is_path_section-total :
    (path_sections : List Text) (s : Text)
    → has_stem s ≡ true
    → (base operators : Text) × (s ≡ base ++ operators)
      × (has_stem operators ≡ false)
      × (ends_in_operator base ≡ false)
      × (is_path_section path_sections s ≡ ok (contains base path_sections || names_a_path base))
unfolding is_path_section
is_path_section-total path_sections s h =
    let (base, e, k) = strip_operators-some (length s + 1) s h (omega arith) in
    let (operators, whole, no_stem) = strip_operators-Prefix (length s + 1) s base e in
    (
      base,
      operators,
      whole,
      no_stem,
      k,
      rw (e, is_path_section) (or_ok (contains base path_sections) (names_a_path base)),
    )
  where
    answer : Bool → Gyp Bool
    answer b = ok b

    or_ok : (a b : Bool) → (if a then ok true else ok b) ≡ answer (a || b)
    or_ok true b = refl
    or_ok false b = refl
