-- ===== src/Common/Dicts.antt =====
-- A Python dict as an association list. The order of the list is the order of iteration.
use Prim.Native.Nat.{suc}
use mathlib.Core.Path.{◌≡◌, refl, ap}
use mathlib.Core.Bool.{Bool, true, false, ◌||◌}
use mathlib.Core.List.{List, [], ◌∷◌}
use mathlib.Core.Option.{Option, none, some}
use native.Mathlib.Omega.{arith}
use mathlib.Core.Logic.{inl, inr}
use dcfpe.Common.Lists.{length}
use dcfpe.Common.Tests.{if◌then◌else◌, Bool-cases}
use dcfpe.Common.Equality.{Eq, ◌=?◌, =?_refl, contains, Nodup}

abbrev pub Dict {ℓ κ} : Type ℓ → Type κ → Type (ℓ ⊔ κ)
Dict K V = List (K × V)

module _ {ℓ κ} {K : Type ℓ} {V : Type κ} ⦃e : Eq K⦄ where
  -- `d.get(k)`
  unfoldable pub lookup : K → Dict K V → Option V
  lookup k [] = none
  lookup k ((j, v) ∷ d) = if k =? j then some v else lookup k d

  -- `k in d`
  unfoldable pub has_key : K → Dict K V → Bool
  has_key k [] = false
  has_key k ((j, v) ∷ d) = (k =? j) || has_key k d

  -- `d[k] = v`
  unfoldable pub insert : K → V → Dict K V → Dict K V
  insert k v [] = (k, v) ∷ []
  insert k v ((j, w) ∷ d) = if k =? j then (j, v) ∷ d else (j, w) ∷ insert k v d

  -- `del d[k]`
  unfoldable pub remove : K → Dict K V → Dict K V
  remove k [] = []
  remove k ((j, w) ∷ d) = if k =? j then remove k d else (j, w) ∷ remove k d

  abbrev pub keys : Dict K V → List K
  keys [] = []
  keys ((j, v) ∷ d) = j ∷ keys d

  pub contains-keys : (k : K) (d : Dict K V) → contains k (keys d) ≡ has_key k d
  unfolding contains has_key
  contains-keys k [] = refl
  contains-keys k ((j, v) ∷ d) = ground (arith, contains-keys k d)

  pub lookup-insert_self : (k : K) (v : V) (d : Dict K V) → lookup k (insert k v d) ≡ some v
  unfolding lookup insert
  lookup-insert_self k v [] = ground (arith, =?_refl k)
  lookup-insert_self k v ((j, w) ∷ d) = ground (arith, lookup-insert_self k v d)

  pub lookup-insert :
      (k j : K) (v : V) (d : Dict K V)
      → lookup j (insert k v d) ≡ (if j =? k then some v else lookup j d)
  unfolding lookup insert
  lookup-insert k j v [] = refl
  lookup-insert k j v ((i, w) ∷ d) =
      ground (arith, e.equals_iff k i, e.equals_iff j i, e.equals_iff j k, lookup-insert k j v d)

  pub lookup-remove :
      (k j : K) (d : Dict K V) → lookup j (remove k d) ≡ (if j =? k then none else lookup j d)
  unfolding lookup remove
  lookup-remove k j [] = ground arith
  lookup-remove k j ((i, w) ∷ d) =
      ground (arith, e.equals_iff k i, e.equals_iff j i, e.equals_iff j k, lookup-remove k j d)

  pub has_key-insert :
      (k j : K) (v : V) (d : Dict K V) → has_key j (insert k v d) ≡ ((j =? k) || has_key j d)
  unfolding has_key insert
  has_key-insert k j v [] = refl
  has_key-insert k j v ((i, w) ∷ d) =
      ground (arith, e.equals_iff k i, e.equals_iff j i, e.equals_iff j k, has_key-insert k j v d)

  pub has_key-lookup : (k : K) (d : Dict K V) → has_key k d ≡ true → (v : V) × (lookup k d ≡ some v)
  unfolding has_key lookup
  has_key-lookup k [] h = absurd (ground arith)
  has_key-lookup k ((j, v) ∷ d) h = elim (Bool-cases (k =? j)) [
    | inl same ↦ (v, ground arith)
    | inr other ↦ let (w, found) = has_key-lookup k d (ground arith) in (w, ground arith)
  ]

  pub lookup_no_key : (k : K) (d : Dict K V) → has_key k d ≡ false → lookup k d ≡ none
  unfolding has_key lookup
  lookup_no_key k [] h = refl
  lookup_no_key k ((j, v) ∷ d) h = ground (arith, lookup_no_key k d)

  pub lookup-has_key : (k : K) (v : V) (d : Dict K V) → lookup k d ≡ some v → has_key k d ≡ true
  unfolding has_key lookup
  lookup-has_key k v [] h = cc
  lookup-has_key k v ((j, w) ∷ d) h = ground (arith, lookup-has_key k v d)

  pub length-keys : (d : Dict K V) → length (keys d) ≡ length d
  length-keys [] = refl
  length-keys ((j, v) ∷ d) = ap suc (length-keys d)

  pub Nodup-insert : (k : K) (v : V) (d : Dict K V) → Nodup (keys d) → Nodup (keys (insert k v d))
  unfolding insert contains
  Nodup-insert k v [] n = (refl, tt)
  Nodup-insert k v ((j, w) ∷ d) n = elim (Bool-cases (k =? j)) [
    | inl same ↦ rw same n
    | inr other ↦ rw other (
      ground (
        arith,
        e.equals_iff j k,
        e.equals_iff k j,
        contains-keys j (insert k v d),
        contains-keys j d,
        has_key-insert k j v d,
      ),
      Nodup-insert k v d n.1,
    )
  ]

  pub has_key_missing : (k : K) (d : Dict K V) → lookup k d ≡ none → has_key k d ≡ false
  unfolding lookup has_key
  has_key_missing k [] h = refl
  has_key_missing k ((j, v) ∷ d) h = ground (arith, has_key_missing k d)

  -- Setting a key to the value that it has changes nothing.
  pub insert_same : (k : K) (v : V) (d : Dict K V) → lookup k d ≡ some v → insert k v d ≡ d
  unfolding insert lookup
  insert_same k v [] h = absurd (ground arith)
  insert_same k v ((j, w) ∷ d) h = elim (Bool-cases (k =? j)) [
    | inl same ↦
        let h' : some w ≡ some v = (rw (same, lookup) at h) in
        let e : w ≡ v = cc in rw (same, e) refl
    | inr other ↦ rw other (ap (λ l. (j, w) ∷ l) (insert_same k v d (rw (other, lookup) at h)))
  ]

  pub has_key-remove :
      (k j : K) (d : Dict K V) → has_key j (remove k d) ≡ (if j =? k then false else has_key j d)
  unfolding has_key remove
  has_key-remove k j [] = ground arith
  has_key-remove k j ((i, w) ∷ d) =
      ground (arith, e.equals_iff k i, e.equals_iff j i, e.equals_iff j k, has_key-remove k j d)
