-- ===== src/Gyp/Merge.antt =====
-- `MergeLists` and `MergeDicts` of src/tools/pylib_dbg/input.py.
pub mod Staying
pub mod Lists
pub mod Frame
use dcfpe.Common.{
  ℕ, zero, suc, ◌+◌, Bool, true, false, not, ◌&&◌, ◌||◌, Option, none, some, List, [], ◌∷◌, ◌++◌,
  ◌==◌, if◌then◌else◌, Text, text_eq, text_Eq, starts_with, get_last?, drop_last, Dict, lookup,
  has_key, insert,
}
use dcfpe.Common.Results.{ok, raise, ◌>>=◌, ◌>>◌}
use dcfpe.Gyp.Value.{
  ℤ, pos, negsuc, Value, str, int, bool, list, dict, Items, no_items, put, Fields, no_fields, field,
  items_list, list_items, to_dict, of_dict,
}
use dcfpe.Gyp.Errors.{
  Gyp, index_error, incompatible_policies, incompatible_type, unsupported_type, type_error,
}
use dcfpe.Gyp.Names.Sections.{is_path_section}
use dcfpe.Gyp.Paths.{PathTools, make_path_relative}

unfoldable pub int_eq : ℤ → ℤ → Bool
int_eq (pos m) (pos n) = m == n
int_eq (negsuc m) (negsuc n) = m == n
int_eq _ _ = false

-- `==` between a string or an int and any value
unfoldable pub same_item : Value → Value → Bool
unfolding int_eq text_eq
same_item (str s) (str t) = text_eq s t
same_item (int m) (int n) = int_eq m n
same_item (int m) (bool true) = int_eq m (pos 1)
same_item (int m) (bool false) = int_eq m (pos 0)
same_item _ _ = false

-- `x in to`, for a string or an int
unfoldable pub item_in : Value → List Value → Bool
item_in v [] = false
item_in v (w ∷ ws) = same_item v w || item_in v ws

-- A value whose type has a `__hash__`: lists and dicts have none.
unfoldable pub is_hashable : Value → Bool
is_hashable (list vs) = false
is_hashable (dict fs) = false
is_hashable _ = true

unfoldable pub hashables : List Value → List Value
unfolding is_hashable
hashables [] = []
hashables (v ∷ vs) = let rest = hashables vs in if is_hashable v then v ∷ rest else rest

-- `while to_item in to: to.remove(to_item)`
unfoldable pub remove_all : Value → List Value → List Value
remove_all v [] = []
remove_all v (w ∷ ws) = let rest = remove_all v ws in if same_item v w then rest else w ∷ rest

-- `to.insert(index, v)`
unfoldable pub insert_at : ℕ → Value → List Value → List Value
insert_at zero v ws = v ∷ ws
insert_at (suc n) v [] = v ∷ []
insert_at (suc n) v (w ∷ ws) = w ∷ insert_at n v ws

-- The variables of `MergeLists`: `to`, `hashable_to_set` and `prepend_index`.
pub record Merging : Type 0 where
  pub to : List Value
  pub hashed : List Value
  pub prepend_index : ℕ

abbrev pub hash_also : Value → List Value → List Value
hash_also v hashed = if is_hashable v then v ∷ hashed else hashed

-- `is_in_set_or_list(to_item, hashable_to_set, to)`
abbrev pub is_in_set_or_list : Value → Merging → Bool
is_in_set_or_list v m = if is_hashable v then item_in v m.hashed else item_in v m.to

unfoldable pub append_item : Value → Bool → Merging → Merging
append_item v singleton m =
    if singleton && is_in_set_or_list v m
    then m
    else record m { to = m.to ++ v ∷ []; hashed = hash_also v m.hashed }

unfoldable pub prepend_item : Value → Bool → Merging → Merging
prepend_item v singleton m =
    let kept = if singleton then remove_all v m.to else m.to in
    record {
      to = insert_at m.prepend_index v kept;
      hashed = hash_also v m.hashed;
      prepend_index = m.prepend_index + 1;
    }

unfoldable pub place : (append : Bool) → Value → Bool → Merging → Merging
unfolding append_item prepend_item
place append v singleton m =
    if append then append_item v singleton m else prepend_item v singleton m

abbrev pub merging : List Value → Merging
merging to = record { to = to; hashed = hashables to; prepend_index = 0 }

-- The type of `to[k]` fits a string or an int, a dict, or a list.
abbrev pub fits_plain : Option Value → Bool
fits_plain (some (list vs)) = false
fits_plain (some (dict fs)) = false
fits_plain (some (bool b)) = false
fits_plain _ = true

abbrev pub fits_dict : Option Value → Bool
fits_dict none = true
fits_dict (some (dict fs)) = true
fits_dict _ = false

abbrev pub fits_list : Option Value → Bool
fits_list none = true
fits_list (some (list vs)) = true
fits_list _ = false

abbrev pub dict_or_empty : Option Value → Dict Text Value
dict_or_empty (some (dict fs)) = to_dict fs
dict_or_empty _ = []

abbrev pub items_or_empty : Option Value → List Value
items_or_empty (some (list vs)) = items_list vs
items_or_empty _ = []

-- How the last character of a key says to merge its list.
pub data Policy : Type 0 where
  replace prepend unless_present append_to : Policy

unfoldable pub policy_of : ℕ → Policy
policy_of ext =
    if ext == b'='
    then replace
    else if ext == b'+'
    then prepend
    else if ext == b'?'
    then unless_present
    else append_to

unfoldable pub list_base : Policy → Text → Text
list_base append_to k = k
list_base _ k = drop_last k

abbrev pub with_ext : Text → ℕ → Text
with_ext base c = base ++ c ∷ []

unfoldable pub lists_incompatible : Policy → Text → List Text
lists_incompatible replace base = base ∷ with_ext base b'?' ∷ []
lists_incompatible unless_present base = base ∷ with_ext base b'=' ∷ with_ext base b'+' ∷ []
lists_incompatible _ base = with_ext base b'=' ∷ with_ext base b'?' ∷ []

-- the loop over `lists_incompatible`
unfoldable pub check_policies : Text → List Text → Dict Text Value → Gyp (Unit {0})
check_policies k [] fro = ok tt
check_policies k (other ∷ others) fro =
    if has_key other fro then raise (incompatible_policies k other) else check_policies k others fro

abbrev pub is_append : Policy → Bool
is_append prepend = false
is_append _ = true

module _ (tools : PathTools) (path_sections : List Text) (to_file fro_file : Text) where
  unfoldable pub fix_text : Bool → Text → Gyp Value
  fix_text is_paths s = elim is_paths [
    | true ↦ make_path_relative tools to_file fro_file s >>= λ t. ok (str t)
    | false ↦ ok (str s)
  ]

  -- An int is no path: the test of `MakePathRelative` refuses it where the files differ.
  unfoldable pub fix_int : Bool → ℤ → Gyp Value
  fix_int is_paths n =
      if is_paths && not (text_eq to_file fro_file) then raise (type_error []) else ok (int n)

  -- The merged list goes in under the key `base`, on top of `old`.
  unfoldable pub merge_onto :
      (Bool → Bool → List Value → Gyp (List Value))
      → (append : Bool) → Text
      → List Value
      → Dict Text Value
      → Gyp (Dict Text Value)
  merge_onto merge_into append base old to = is_path_section path_sections base >>= λ is_paths.
      merge_into is_paths append old >>= λ new. ok (insert base (list (list_items new)) to)

  unfoldable pub merge_list_by :
      (Bool → Bool → List Value → Gyp (List Value))
      → Policy
      → Text
      → Dict Text Value
      → Gyp (Dict Text Value)
  merge_list_by merge_into replace base to =
      merge_onto merge_into true base [] (insert base (list no_items) to)
  merge_list_by merge_into unless_present base to =
      if has_key base to then ok to else merge_onto merge_into true base [] to
  merge_list_by merge_into policy base to =
      if fits_list (lookup base to)
      then merge_onto merge_into (is_append policy) base (items_or_empty (lookup base to)) to
      else raise (incompatible_type base)

  -- Where the list of key `k` goes in, and what it goes into.
  unfoldable pub merge_list_with :
      (Bool → Bool → List Value → Gyp (List Value))
      → Dict Text Value
      → Text
      → Dict Text Value
      → Gyp (Dict Text Value)
  merge_list_with merge_into fro k to = elim (get_last? k) [
    | none ↦ raise index_error
    | some ext ↦
        let policy = policy_of ext in
        let base = list_base policy k in
        check_policies k (lists_incompatible policy base) fro
        >> merge_list_by merge_into policy base to
  ]

  unfoldable mutual
    -- `to_item`, and whether it is a singleton
    pub merged_item : Bool → Value → Gyp (Value × Bool)
    merged_item is_paths (str s) =
        fix_text is_paths s >>= λ v. ok (v, not (starts_with s (b'-' ∷ [])))
    merged_item is_paths (int n) = fix_int is_paths n >>= λ v. ok (v, true)
    merged_item is_paths (bool b) = raise (unsupported_type [])
    merged_item is_paths (dict fs) =
        merge_fields (to_dict fs) [] fs >>= λ d. ok (dict (of_dict d), false)
    merged_item is_paths (list vs) =
        merge_items false true (merging []) vs >>= λ m. ok (list (list_items m.to), false)

    pub merge_items : (is_paths append : Bool) → Merging → Items → Gyp Merging
    merge_items is_paths append m no_items = ok m
    merge_items is_paths append m (put v vs) =
        merged_item is_paths v >>= λ r. merge_items is_paths append (place append r.0 r.1 m) vs

    -- one entry of the loop of `MergeDicts`
    pub merge_value : Dict Text Value → Dict Text Value → Text → Value → Gyp (Dict Text Value)
    merge_value fro to k (str s) =
        if fits_plain (lookup k to)
        then (is_path_section path_sections k >>= λ is_paths.
            fix_text is_paths s >>= λ v. ok (insert k v to))
        else raise (incompatible_type k)
    merge_value fro to k (int n) =
        if fits_plain (lookup k to)
        then (is_path_section path_sections k >>= λ is_paths.
            fix_int is_paths n >>= λ v. ok (insert k v to))
        else raise (incompatible_type k)
    merge_value fro to k (bool b) = raise (unsupported_type k)
    merge_value fro to k (dict fs) =
        let merged = merge_fields (to_dict fs) (dict_or_empty (lookup k to)) fs in
        if fits_dict (lookup k to)
        then (merged >>= λ d. ok (insert k (dict (of_dict d)) to))
        else raise (incompatible_type k)
    merge_value fro to k (list vs) =
        if fits_list (lookup k to)
        then merge_list_with
            (λ is_paths append old. merge_items is_paths append (merging old) vs >>= λ m. ok m.to)
            fro k to
        else raise (incompatible_type k)

    pub merge_fields : Dict Text Value → Dict Text Value → Fields → Gyp (Dict Text Value)
    merge_fields fro to no_fields = ok to
    merge_fields fro to (field k v fs) = merge_value fro to k v >>= λ to'. merge_fields fro to' fs

  unfoldable pub merge_lists : (is_paths append : Bool) → (to fro : List Value) → Gyp (List Value)
  unfolding merge_items
  merge_lists is_paths append to fro =
      merge_items is_paths append (merging to) (list_items fro) >>= λ m. ok m.to

  unfoldable pub merge_dicts : (to fro : Dict Text Value) → Gyp (Dict Text Value)
  unfolding merge_fields
  merge_dicts to fro = merge_fields fro to (of_dict fro)
