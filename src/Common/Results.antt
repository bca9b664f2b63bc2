-- ===== src/Common/Results.antt =====
-- Results of code that may raise, for any type of exceptions.
use mathlib.Core.Path.{◌≡◌, refl}

-- An exception, or what the call returns.
pub data Result {ℓ κ} (E : Type ℓ) (A : Type κ) : Type (ℓ ⊔ κ) where
  raise : E → Result E A
  ok : A → Result E A

infixl 5 ◌>>◌ ◌>>=◌
-- The first exception ends the sequence.
abbrev pub ◌>>=◌ {ℓ κ μ} :
    {E : Type ℓ} {A : Type κ} {B : Type μ} → Result E A → (next : A → Result E B) → Result E B
raise e >>= next = raise e
ok value >>= next = next value

abbrev pub ◌>>◌ {ℓ κ μ} :
    {E : Type ℓ} {A : Type κ} {B : Type μ} → Result E A → Result E B → Result E B
raise e >> rest = raise e
ok value >> rest = rest

-- A sequence that returns has returned at its first step.
pub >>=-ok {ℓ κ μ} :
    {E : Type ℓ} {A : Type κ} {B : Type μ} (first : Result E A) (next : A → Result E B) {value : B}
    → (first >>= next) ≡ ok value
    → (middle : A) × (first ≡ ok middle) × (next middle ≡ ok value)
>>=-ok (raise e) next returns = cc
>>=-ok (ok middle) next returns = (middle, refl, returns)

-- A call returns one value.
pub ok_unique {ℓ κ} :
    {E : Type ℓ} {A : Type κ} (r : Result E A) {a b : A} → r ≡ ok a → r ≡ ok b → a ≡ b
ok_unique r h k = cc

pub >>-ok {ℓ κ μ} :
    {E : Type ℓ} {A : Type κ} {B : Type μ} (first : Result E A) (rest : Result E B) {value : B}
    → (first >> rest) ≡ ok value
    → rest ≡ ok value
>>-ok (raise e) rest returns = cc
>>-ok (ok middle) rest returns = returns

-- Two sequences are equal if their steps are.
pub >>=_same {ℓ κ μ} :
    {E : Type ℓ} {A : Type κ} {B : Type μ} {first other : Result E A} {next last : A → Result E B}
    → first ≡ other
    → ((a : A) → next a ≡ last a)
    → (first >>= next) ≡ (other >>= last)
>>=_same {first = raise e} {next} {last} same steps = rw (← same) refl
>>=_same {first = ok a} {next} {last} same steps = rw (← same) (steps a)
