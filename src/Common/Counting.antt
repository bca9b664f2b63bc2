-- ===== src/Common/Counting.antt =====
-- How often a list holds an item. A list without repetitions is no longer than a list that holds all its items.
use Prim.Native.Nat.{ℕ, suc, ◌≤◌, ◌<◌, ◌+◌}
use mathlib.Core.Path.{◌≡◌, refl}
use mathlib.Core.Logic.{inl, inr}
use mathlib.Core.Bool.{true, false}
use mathlib.Core.List.{List, [], ◌∷◌, ◌++◌}
use native.Mathlib.Omega.{arith}
use dcfpe.Common.Tests.{if◌then◌else◌, Bool-cases}
use dcfpe.Common.Lists.{length}
use dcfpe.Common.Equality.{Eq, ◌=?◌, =?_refl, =?_eq, contains, Nodup}

module _ {ℓ} {A : Type ℓ} ⦃e : Eq A⦄ where
  -- `l.remove(a)`, where `a` is there
  unfoldable pub erase : A → List A → List A
  erase a [] = []
  erase a (x ∷ xs) = if a =? x then xs else x ∷ erase a xs

  contains-erase_ne :
      (a b : A) (xs : List A)
      → (b =? a) ≡ false
      → contains b xs ≡ true
      → contains b (erase a xs) ≡ true
  unfolding contains erase
  contains-erase_ne a b [] n h = h
  contains-erase_ne a b (x ∷ xs) n h =
      ground
        (arith, contains-erase_ne a b xs n, e.equals_iff a x, e.equals_iff b x, e.equals_iff b a)

  pub length-erase :
      (a : A) (xs : List A) → contains a xs ≡ true → length xs ≡ suc (length (erase a xs))
  unfolding contains erase
  length-erase a [] h = absurd (ground arith)
  length-erase a (x ∷ xs) h = ground (arith, length-erase a xs)

  pub length_le_of_Nodup :
      (xs ys : List A)
      → Nodup xs
      → ((a : A) → contains a xs ≡ true → contains a ys ≡ true)
      → length xs ≤ length ys
  unfolding contains
  length_le_of_Nodup [] ys n h = omega arith
  length_le_of_Nodup (x ∷ xs) ys n h =
      let here : contains x ys ≡ true = h x (ground (arith, =?_refl x)) in
      omega (
        arith,
        length-erase x ys here,
        length_le_of_Nodup xs (erase x ys) n.1
            (λ b m. contains-erase_ne x b ys (other b m) (h b (ground arith))),
      )
    where
      other : (b : A) → contains b xs ≡ true → (b =? x) ≡ false
      other b m = elim (Bool-cases (b =? x)) [
        | inr no_eq ↦ no_eq
        | inl same ↦ absurd (clash b (=?_eq b x same) m)
      ]
        where
          clash : (b : A) → b ≡ x → contains b xs ≡ true → ⊥
          clash b p q = ground (arith, n.0)

  -- If it is as long, then it holds them all.
  pub contains_of_length :
      (xs ys : List A)
      → Nodup xs
      → ((a : A) → contains a xs ≡ true → contains a ys ≡ true)
      → length xs ≡ length ys
      → (a : A) → contains a ys ≡ true
      → contains a xs ≡ true
  unfolding contains
  contains_of_length xs ys n h same a m = elim (Bool-cases (contains a xs)) [
    | inl there ↦ there
    | inr absent ↦ absurd (omega (arith, length_le_of_Nodup (a ∷ xs) ys (absent, n) (bigger a m)))
  ]
    where
      bigger :
          (a : A)
          → contains a ys ≡ true
          → (b : A) → contains b (a ∷ xs) ≡ true
          → contains b ys ≡ true
      bigger a m b k = elim (Bool-cases (b =? a)) [
        | inl eq ↦ rw (=?_eq b a eq) m
        | inr ne ↦ h b (ground arith)
      ]

  unfoldable pub count : A → List A → ℕ
  count a [] = 0
  count a (x ∷ xs) = if a =? x then suc (count a xs) else count a xs

  pub count-append : (a : A) (xs ys : List A) → count a (xs ++ ys) ≡ count a xs + count a ys
  unfolding count
  count-append a [] ys = omega arith
  count-append a (x ∷ xs) ys = ground (arith, count-append a xs ys)

  pub count-snoc :
      (a b : A) (xs : List A)
      → count a (xs ++ b ∷ []) ≡ (if a =? b then suc (count a xs) else count a xs)
  unfolding count
  count-snoc a b [] = refl
  count-snoc a b (x ∷ xs) = ground (arith, count-snoc a b xs)

  pub count-erase :
      (a b : A) (xs : List A)
      → contains b xs ≡ true
      → count a xs ≡ (if a =? b then suc (count a (erase b xs)) else count a (erase b xs))
  unfolding count erase contains
  count-erase a b [] h = absurd (ground arith)
  count-erase a b (x ∷ xs) h = ground (
    arith,
    count-erase a b xs,
    e.equals_iff a b,
    e.equals_iff b x,
    e.equals_iff a x,
    e.equals_iff b a,
  )

  pub contains-count : (a : A) (xs : List A) → contains a xs ≡ true → 0 < count a xs
  unfolding count contains
  contains-count a [] h = absurd (ground arith)
  contains-count a (x ∷ xs) h = ground (arith, contains-count a xs)

  pub count-contains : (a : A) (xs : List A) → 0 < count a xs → contains a xs ≡ true
  unfolding count contains
  count-contains a [] h = absurd (ground arith)
  count-contains a (x ∷ xs) h = ground (arith, count-contains a xs)

  pub Nodup-count : (a : A) (xs : List A) → Nodup xs → count a xs ≤ 1
  unfolding count
  Nodup-count a [] n = omega arith
  Nodup-count a (x ∷ xs) n =
      ground (arith, Nodup-count a xs n.1, count-contains a xs, e.equals_iff a x, n.0)

  pub Nodup-of_count : (xs : List A) → ((a : A) → count a xs ≤ 1) → Nodup xs
  unfolding count
  Nodup-of_count [] h = tt
  Nodup-of_count (x ∷ xs) h = (
    ground (arith, contains-count x xs, h x, =?_refl x),
    Nodup-of_count xs (λ a. ground (arith, h a)),
  )
