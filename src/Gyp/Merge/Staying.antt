-- ===== src/Gyp/Merge/Staying.antt =====
-- What a list keeps when `MergeLists` of src/tools/pylib_dbg/input.py puts strings before it.
use dcfpe.Common.{
  ℕ, ◌+◌, ◌≡◌, refl, ap, Bool, false, not, ◌&&◌, ◌||◌, inl, inr, List, [], ◌∷◌, ◌++◌, map,
  if◌then◌else◌, length, Text, text_eq, text_eq_iff, text_Eq, starts_with, contains, Nodup,
  Bool-cases, arith, contains-append,
}
use dcfpe.Gyp.Value.{Value, str, int, bool, list, dict}
use dcfpe.Gyp.Merge.{same_item, item_in, hashables, is_hashable, remove_all, insert_at}

-- A string that a list may hold only once: it is no command-line option.
unfoldable pub is_singleton : Text → Bool
is_singleton s = not (starts_with s (b'-' ∷ []))

unfoldable pub count : Text → List Text → ℕ
count s [] = 0
count s (t ∷ ts) = if text_eq s t then 1 + count s ts else count s ts

-- The strings that appending takes over, from what is known to be there.
unfoldable pub fresh : List Value → List Text → List Text
fresh seen [] = []
fresh seen (s ∷ ss) =
    if is_singleton s && item_in (str s) seen then fresh seen ss else s ∷ fresh (str s ∷ seen) ss

pub append_snoc :
    (xs : List Value) (v : Value) (ys : List Value) → (xs ++ v ∷ []) ++ ys ≡ xs ++ v ∷ ys
append_snoc [] v ys = refl
append_snoc (x ∷ xs) v ys = ap (λ l. x ∷ l) (append_snoc xs v ys)

pub append-nil : (xs : List Value) → xs ++ [] ≡ xs
append-nil [] = refl
append-nil (x ∷ xs) = ap (λ l. x ∷ l) (append-nil xs)

same_item_hashable : (s : Text) (v : Value) → is_hashable v ≡ false → same_item (str s) v ≡ false
unfolding is_hashable same_item
same_item_hashable s (str t) h = absurd (ground arith)
same_item_hashable s (int n) h = absurd (ground arith)
same_item_hashable s (bool b) h = absurd (ground arith)
same_item_hashable s (list vs) h = refl
same_item_hashable s (dict fs) h = refl

-- Looking a string up among the hashable items is looking it up in the list.
pub item_in-hashables :
    (s : Text) (to : List Value) → item_in (str s) (hashables to) ≡ item_in (str s) to
unfolding hashables item_in
item_in-hashables s [] = refl
item_in-hashables s (v ∷ vs) = elim (Bool-cases (is_hashable v)) [
  | inl h ↦ rw h (ground (arith, item_in-hashables s vs))
  | inr h ↦ rw h (ground (arith, item_in-hashables s vs, same_item_hashable s v h))
]

-- What a list of strings keeps when strings are prepended: the items that are none of their singletons.
unfoldable pub is_moved : Value → List Text → Bool
is_moved v [] = false
is_moved v (s ∷ ss) = is_singleton s && same_item (str s) v || is_moved v ss

unfoldable pub staying : List Text → List Value → List Value
unfolding is_moved
staying fro [] = []
staying fro (v ∷ vs) = let rest = staying fro vs in if is_moved v fro then rest else v ∷ rest

pub staying-nil : (vs : List Value) → staying [] vs ≡ vs
unfolding staying
staying-nil [] = refl
staying-nil (v ∷ vs) = ap (λ l. v ∷ l) (staying-nil vs)

pub staying-remove_all :
    (s : Text) (ss : List Text) (vs : List Value)
    → staying (s ∷ ss) vs ≡ staying ss (if is_singleton s then remove_all (str s) vs else vs)
unfolding staying remove_all
staying-remove_all s ss [] = ground arith
staying-remove_all s ss (v ∷ vs) = ground (arith, staying-remove_all s ss vs)

pub remove_all-append :
    (s : Text) (placed : List Text) (vs : List Value)
    → contains s placed ≡ false
    → remove_all (str s) (map str placed ++ vs) ≡ map str placed ++ remove_all (str s) vs
unfolding remove_all same_item contains
remove_all-append s [] vs h = refl
remove_all-append s (t ∷ ts) vs h = ground (arith, remove_all-append s ts vs)

pub insert_at-append :
    (s : Text) (placed : List Text) (vs : List Value)
    → insert_at (length placed) (str s) (map str placed ++ vs) ≡ map str (placed ++ s ∷ []) ++ vs
unfolding insert_at
insert_at-append s [] vs = refl
insert_at-append s (t ∷ ts) vs = ap (λ l. str t ∷ l) (insert_at-append s ts vs)

pub append_nil : (placed : List Text) → placed ++ [] ≡ placed
append_nil [] = refl
append_nil (t ∷ ts) = ap (λ l. t ∷ l) (append_nil ts)

pub append_one : (s : Text) (placed ss : List Text) → (placed ++ s ∷ []) ++ ss ≡ placed ++ s ∷ ss
append_one s [] ss = refl
append_one s (t ∷ ts) ss = ap (λ l. t ∷ l) (append_one s ts ss)

pub Nodup-middle :
    (placed : List Text) (s : Text) (ss : List Text)
    → Nodup (placed ++ s ∷ ss)
    → contains s placed ≡ false
unfolding contains
Nodup-middle [] s ss n = refl
Nodup-middle (t ∷ ts) s ss n = ground (
  arith,
  Nodup-middle ts s ss n.1,
  contains-append t ts (s ∷ ss),
  text_eq_iff s t,
  text_eq_iff t s,
)
