-- ===== src/Common/Equality.antt =====
-- Equality tests as an interface, membership in a list and lists without repetitions.
use Prim.Native.Nat.{ℕ}
use mathlib.Core.Path.{◌≡◌, refl}
use mathlib.Core.Logic.{◌↔◌, ◌≢◌, inl, inr}
use mathlib.Core.Bool.{Bool, true, false, ◌||◌}
use mathlib.Core.List.{List, [], ◌∷◌, ◌++◌}
use native.Mathlib.Omega.{arith}
use dcfpe.Common.Tests.{if◌then◌else◌, Bool-cases, ◌==◌, ==_iff}
use dcfpe.Common.Lists.{All}

pub record Eq {ℓ} (A : Type ℓ) : Type ℓ where
  -- The test, and that it decides equality.
  pub equals : (x y : A) → Bool
  pub equals_iff : (x y : A) → (equals x y ≡ true) ↔ (x ≡ y)

infix 50 ◌=?◌
-- The test of the instance that is in scope.
abbrev pub ◌=?◌ {ℓ} : {A : Type ℓ} ⦃eq : Eq A⦄ → (x y : A) → Bool
◌=?◌ ⦃eq⦄ x y = eq.equals x y

instance abbrev pub nat_eq : Eq ℕ
nat_eq = record { equals = ◌==◌; equals_iff = ==_iff }

module _ {ℓ} {A : Type ℓ} ⦃e : Eq A⦄ where
  pub =?_refl : (a : A) → (a =? a) ≡ true
  =?_refl a = (e.equals_iff a a).1 refl

  pub =?_eq : (a b : A) → (a =? b) ≡ true → a ≡ b
  =?_eq a b h = (e.equals_iff a b).0 h

  pub =?_ne : (a b : A) → a ≢ b → (a =? b) ≡ false
  =?_ne a b h = elim (Bool-cases (a =? b)) [ inl t ↦ absurd (h (=?_eq a b t)) | inr f ↦ f ]

  -- `x in l`
  unfoldable pub contains : A → List A → Bool
  contains a [] = false
  contains a (x ∷ xs) = (a =? x) || contains a xs

  abbrev pub Nodup : List A → Type 0
  Nodup [] = Unit
  Nodup (x ∷ xs) = (contains x xs ≡ false) × Nodup xs

  pub contains-append :
      (a : A) (xs ys : List A) → contains a (xs ++ ys) ≡ (contains a xs || contains a ys)
  unfolding contains
  contains-append a [] ys = refl
  contains-append a (x ∷ xs) ys = ground (arith, contains-append a xs ys)

  pub contains-snoc_self : (a : A) (xs : List A) → contains a (xs ++ a ∷ []) ≡ true
  unfolding contains
  contains-snoc_self a [] = ground (arith, =?_refl a)
  contains-snoc_self a (x ∷ xs) = ground (arith, contains-snoc_self a xs)

  pub contains-snoc :
      (a b : A) (xs : List A) → contains a (xs ++ b ∷ []) ≡ (contains a xs || (a =? b))
  unfolding contains
  contains-snoc a b [] = ground arith
  contains-snoc a b (x ∷ xs) = ground (arith, contains-snoc a b xs)

  -- What holds of every item holds of one that is in the list.
  pub All-contains {κ} :
      (P : A → Type κ) (a : A) (xs : List A) → All P xs → contains a xs ≡ true → P a
  unfolding contains
  All-contains P a [] h c = absurd (ground arith)
  All-contains P a (x ∷ xs) h c = elim (Bool-cases (a =? x)) [
    | inl same ↦ subst_at P a x (=?_eq a x same) h.0
    | inr other ↦ All-contains P a xs h.1 (ground arith)
  ]
    where
      subst_at : (Q : A → Type κ) (u v : A) → u ≡ v → Q v → Q u
      subst_at Q u v p q = rw p q

  pub All-of_contains {κ} :
      (P : A → Type κ) (xs : List A) → ((a : A) → contains a xs ≡ true → P a) → All P xs
  unfolding contains
  All-of_contains P [] f = tt
  All-of_contains P (x ∷ xs) f =
      (f x (ground (arith, =?_refl x)), All-of_contains P xs (λ a c. f a (ground arith)))

  pub Nodup-snoc : (xs : List A) (a : A) → Nodup xs → contains a xs ≡ false → Nodup (xs ++ a ∷ [])
  unfolding contains
  Nodup-snoc [] a n c = (refl, tt)
  Nodup-snoc (x ∷ xs) a n c = (
    ground (arith, contains-snoc x a xs, e.equals_iff x a, e.equals_iff a x),
    Nodup-snoc xs a n.1 (ground arith),
  )

module _ {ℓ} {A : Type ℓ} ⦃e : Eq A⦄ where
  -- `list(set(l))`, with the first of equal items for the arbitrary order of a set
  unfoldable pub distinct : List A → List A → List A
  distinct seen [] = []
  distinct seen (x ∷ xs) =
      let old = distinct seen xs in
      let new = x ∷ distinct (x ∷ seen) xs in if contains x seen then old else new

  pub contains-distinct :
      (a : A) (seen xs : List A)
      → (contains a seen || contains a (distinct seen xs)) ≡ (contains a seen || contains a xs)
  unfolding distinct contains
  contains-distinct a seen [] = refl
  contains-distinct a seen (x ∷ xs) =
      ground
        (arith, contains-distinct a seen xs, contains-distinct a (x ∷ seen) xs, e.equals_iff a x)

  pub Nodup-distinct :
      (seen xs : List A)
      → Nodup (distinct seen xs)
        × ((a : A) → contains a seen ≡ true → contains a (distinct seen xs) ≡ false)
  unfolding distinct contains
  Nodup-distinct seen [] = (tt, λ a h. refl)
  Nodup-distinct seen (x ∷ xs) = elim (Bool-cases (contains x seen)) [
    | inl old ↦ rw old (Nodup-distinct seen xs)
    | inr new ↦
        let (n, absent) = Nodup-distinct (x ∷ seen) xs in
        rw new (
          (absent x (ground (arith, =?_refl x)), n),
          λ a h. ground (arith, absent a, e.equals_iff a x),
        )
  ]
