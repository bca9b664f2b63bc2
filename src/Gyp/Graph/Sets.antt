-- ===== src/Gyp/Graph/Sets.antt =====
-- The sets of `FlattenToList`, as lists without repetitions.
use dcfpe.Common.{
  ℕ, zero, suc, ◌≡◌, refl, false, ◌&&◌, ◌||◌, List, [], ◌∷◌, ◌++◌, Text, text_Eq, text_eq_iff, ◌=?◌,
  contains, contains-snoc, Nodup, Nodup-snoc, All, All-append, Bool-cases, inl, inr, arith,
}
use dcfpe.Gyp.Graph.{Graph, dependencies_of, add, to_set, pop, all_in, add_ready}

pub contains-add :
    (a t : Text) (ts : List Text) → contains a (add t ts) ≡ (contains a ts || (a =? t))
unfolding add
contains-add a t ts = elim (Bool-cases (contains t ts)) [
  | inl h ↦ rw h (ground (arith, text_eq_iff a t))
  | inr h ↦ rw h (contains-snoc a t ts)
]

pub add_fresh : (t : Text) (ts : List Text) → contains t ts ≡ false → add t ts ≡ ts ++ t ∷ []
unfolding add
add_fresh t ts h = rw h

pub Nodup-add : (t : Text) (ts : List Text) → Nodup ts → Nodup (add t ts)
unfolding add
Nodup-add t ts n = elim (Bool-cases (contains t ts)) [
  | inl h ↦ rw h n
  | inr h ↦ rw h (Nodup-snoc ts t n h)
]

pub contains-to_set :
    (a : Text) (ts seen : List Text)
    → contains a (to_set ts seen) ≡ (contains a seen || contains a ts)
unfolding to_set contains
contains-to_set a [] seen = ground arith
contains-to_set a (t ∷ ts) seen =
    ground (arith, contains-to_set a ts (add t seen), contains-add a t seen)

pub Nodup-to_set : (ts seen : List Text) → Nodup seen → Nodup (to_set ts seen)
unfolding to_set
Nodup-to_set [] seen n = n
Nodup-to_set (t ∷ ts) seen n = Nodup-to_set ts (add t seen) (Nodup-add t seen n)

pub contains-pop :
    (n : ℕ) (a t : Text) (ts : List Text)
    → contains a (t ∷ ts) ≡ ((a =? (pop n t ts).0) || contains a (pop n t ts).1)
unfolding pop contains
contains-pop zero a t ts = refl
contains-pop (suc n) a t [] = refl
contains-pop (suc n) a t (u ∷ ts) = ground (arith, contains-pop n a u ts)

pub Nodup-pop :
    (n : ℕ) (t : Text) (ts : List Text) → Nodup (t ∷ ts) → Nodup ((pop n t ts).0 ∷ (pop n t ts).1)
unfolding pop contains
Nodup-pop zero t ts h = h
Nodup-pop (suc n) t [] h = h
Nodup-pop (suc n) t (u ∷ ts) h =
    let (absent, rest) = Nodup-pop n u ts h.1 in
    (
      ground (
        arith,
        contains-pop n t u ts,
        text_eq_iff (pop n u ts).0 t,
        text_eq_iff t (pop n u ts).0,
      ),
      (ground (arith, contains-pop n t u ts), rest),
    )

pub contains-add_ready :
    (g : Graph) (flat : List Text) (a : Text) (ts zeros : List Text)
    → contains a (add_ready g flat ts zeros)
      ≡ (contains a zeros || (contains a ts && all_in flat (dependencies_of g a)))
unfolding add_ready contains
contains-add_ready g flat a [] zeros = ground arith
contains-add_ready g flat a (t ∷ ts) zeros = elim (Bool-cases (all_in flat (dependencies_of g t))) [
  | inl r ↦ rw r (
      ground (
        arith,
        contains-add_ready g flat a ts (add t zeros),
        contains-add a t zeros,
        text_eq_iff a t,
      ))
  | inr r ↦ rw r (ground (arith, contains-add_ready g flat a ts zeros, text_eq_iff a t))
]

pub Nodup-add_ready :
    (g : Graph) (flat ts zeros : List Text) → Nodup zeros → Nodup (add_ready g flat ts zeros)
unfolding add_ready
Nodup-add_ready g flat [] zeros n = n
Nodup-add_ready g flat (t ∷ ts) zeros n = elim (Bool-cases (all_in flat (dependencies_of g t))) [
  | inl r ↦ rw r (Nodup-add_ready g flat ts (add t zeros) (Nodup-add t zeros n))
  | inr r ↦ rw r (Nodup-add_ready g flat ts zeros n)
]

pub All-add {κ} :
    (P : Text → Type κ) (t : Text) (ts : List Text) → P t → All P ts → All P (add t ts)
unfolding add
All-add P t ts p h = elim (Bool-cases (contains t ts)) [
  | inl there ↦ rw there h
  | inr new ↦ rw new (All-append P ts (t ∷ []) h (p, tt))
]
