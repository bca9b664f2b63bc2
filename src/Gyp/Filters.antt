-- ===== src/Gyp/Filters.antt =====
-- `ProcessListFiltersInDict` and `ProcessListFiltersInList` of src/tools/pylib_dbg/input.py.
-- Regular expressions are a parameter: `compile` gives the search of a pattern, where it compiles.
pub mod Marks
pub mod Actions
use dcfpe.Common.{
  ℕ, zero, suc, ◌+◌, Bool, true, false, not, ◌&&◌, ◌||◌, Option, none, some, List, [], ◌∷◌, ◌++◌,
  ◌==◌, if◌then◌else◌, length, Text, codes, text_eq, text_Eq, get_last?, drop_last, contains, Dict,
  lookup, has_key, insert, remove,
}
use dcfpe.Common.Results.{ok, raise, ◌>>=◌}
use dcfpe.Gyp.Value.{
  Value, str, int, bool, list, dict, Items, no_items, put, Fields, no_fields, field, items_list,
  list_items, to_dict, of_dict,
}
use dcfpe.Gyp.Errors.{
  Gyp, index_error, key_error, value_error, type_error, excluded_key_present, unrecognized_action,
  out_of_fuel,
}
use dcfpe.Gyp.Merge.{same_item}

pub record Regex : Type 0 where
  pub compile : Text → Option (Text → Bool)

unfoldable mutual
  -- `==` of two values. Dicts are equal if they have equal values at the same keys.
  pub value_eq : Value → Value → Bool
  value_eq (str s) w = same_item (str s) w
  value_eq (int n) w = same_item (int n) w
  value_eq (bool b) (int n) = same_item (int n) (bool b)
  value_eq (bool true) (bool b) = b
  value_eq (bool false) (bool b) = not b
  value_eq (bool b) _ = false
  value_eq (list vs) (list ws) = items_eq vs ws
  value_eq (list vs) _ = false
  value_eq (dict fs) (dict gs) =
      fields_in fs (to_dict gs) && length (to_dict fs) == length (to_dict gs)
  value_eq (dict fs) _ = false

  pub items_eq : Items → Items → Bool
  items_eq no_items no_items = true
  items_eq no_items (put w ws) = false
  items_eq (put v vs) no_items = false
  items_eq (put v vs) (put w ws) = value_eq v w && items_eq vs ws

  pub fields_in : Fields → Dict Text Value → Bool
  fields_in no_fields gs = true
  fields_in (field k v fs) gs =
      elim (lookup k gs) [ some w ↦ value_eq v w | none ↦ false ] && fields_in fs gs

-- An entry of `list_actions`: -1, 0 or 1.
pub data Action : Type 0 where
  undecided excluded included : Action

unfoldable pub same_action : Action → Action → Bool
same_action undecided undecided = true
same_action excluded excluded = true
same_action included included = true
same_action _ _ = false

-- `the_list` with `list_actions` beside it
abbrev pub Marked : Type 0
Marked = List (Value × Action)

unfoldable pub unmarked : List Value → Marked
unmarked [] = []
unmarked (v ∷ vs) = (v, undecided) ∷ unmarked vs

unfoldable pub exclude_item : Value → Marked → Marked
exclude_item e [] = []
exclude_item e ((v, a) ∷ m) = (v, if value_eq e v then excluded else a) ∷ exclude_item e m

unfoldable pub exclude_items : List Value → Marked → Marked
exclude_items [] m = m
exclude_items (e ∷ es) m = exclude_items es (exclude_item e m)

unfoldable pub search_item : (Text → Bool) → Action → Value → Action → Gyp Action
search_item search action v a =
    if same_action a action
    then ok a
    else elim v [ str s ↦ ok (if search s then action else a) | _ ↦ raise (type_error []) ]

unfoldable pub search_items : (Text → Bool) → Action → Marked → Gyp Marked
search_items search action [] = ok []
search_items search action ((v, a) ∷ m) =
    search_item search action v a >>= λ b. search_items search action m >>= λ m'. ok ((v, b) ∷ m')

-- `[action, pattern] = regex_item`
unfoldable pub action_and_pattern : Value → Gyp (Text × Text)
action_and_pattern (list (put (str action) (put (str pattern) no_items))) = ok (action, pattern)
action_and_pattern _ = raise (value_error [])

unfoldable pub action_value : Text → Gyp Action
action_value action =
    if text_eq action (codes "exclude")
    then ok excluded
    else if text_eq action (codes "include")
    then ok included
    else raise (unrecognized_action action)

-- The items that stay, and the excluded ones.
unfoldable pub partition : Marked → List Value × List Value
partition [] = ([], [])
partition ((v, a) ∷ m) =
    let rest = partition m in
    if same_action a excluded then (rest.0, v ∷ rest.1) else (v ∷ rest.0, rest.1)

-- The value of a key that the first loop has seen to be a list.
unfoldable pub items_at : Text → Dict Text Value → List Value
items_at k d = elim (lookup k d) [ some (list vs) ↦ items_list vs | _ ↦ [] ]

abbrev pub is_filter_operation : ℕ → Bool
is_filter_operation c = c == b'!' || c == b'/'

-- One turn of the loop that collects `lists` and `del_lists`.
unfoldable pub collect_key :
    Dict Text Value → Text → Value → List Text × List Text → Gyp (List Text × List Text)
collect_key d k v (lists, del_lists) = elim (get_last? k) [
  | none ↦ raise index_error
  | some c ↦ if not (is_filter_operation c) then ok (lists, del_lists) else elim v [
    | list vs ↦ elim (lookup (drop_last k) d) [
      | none ↦ ok (lists, del_lists ++ k ∷ [])
      | some (list ws) ↦
          ok (if contains (drop_last k) lists then lists else lists ++ drop_last k ∷ [], del_lists)
      | some w ↦ raise (value_error (drop_last k))
    ]
    | _ ↦ raise (value_error k)
  ]
]

unfoldable pub collect_keys :
    Dict Text Value → Dict Text Value → List Text × List Text → Gyp (List Text × List Text)
collect_keys d [] found = ok found
collect_keys d ((k, v) ∷ entries) found = collect_key d k v found >>= collect_keys d entries

unfoldable pub remove_keys : List Text → Dict Text Value → Dict Text Value
remove_keys [] d = d
remove_keys (k ∷ ks) d = remove_keys ks (remove k d)

unfoldable pub each_entry : (Value → Gyp Value) → Dict Text Value → Gyp (Dict Text Value)
each_entry f [] = ok []
each_entry f ((k, v) ∷ d) = f v >>= λ w. each_entry f d >>= λ d'. ok ((k, w) ∷ d')

unfoldable pub each_item : (Value → Gyp Value) → List Value → Gyp (List Value)
each_item f [] = ok []
each_item f (v ∷ vs) = f v >>= λ w. each_item f vs >>= λ ws. ok (w ∷ ws)

module _ (regex : Regex) where
  unfoldable pub regex_step : Value → Marked → Gyp Marked
  regex_step item m = action_and_pattern item >>= λ r. elim (regex.compile r.1) [
    | none ↦ raise (value_error r.1)
    | some search ↦ action_value r.0 >>= λ action. search_items search action m
  ]

  unfoldable pub regex_steps : List Value → Marked → Gyp Marked
  regex_steps [] m = ok m
  regex_steps (item ∷ items) m = regex_step item m >>= regex_steps items

  -- The two lists that come of a list, its exclusions and its regex filters.
  unfoldable pub filter_list :
      (the_list exclusions filters : List Value) → Gyp (List Value × List Value)
  unfolding regex_steps
  filter_list the_list exclusions filters =
      regex_steps filters (exclude_items exclusions (unmarked the_list)) >>= λ m. ok (partition m)

  -- one turn of the loop over `lists`
  unfoldable pub filter_key : Text → Dict Text Value → Gyp (Dict Text Value)
  filter_key list_key d =
      let exclude_key = list_key ++ b'!' ∷ [] in
      let regex_key = list_key ++ b'/' ∷ [] in
      let excluded_key = list_key ++ codes "_excluded" in
      if not (has_key list_key d)
      then raise (key_error list_key)
      else (filter_list (items_at list_key d) (items_at exclude_key d) (items_at regex_key d)
          >>= λ r.
              let rest = remove regex_key (remove exclude_key d) in
              if has_key excluded_key rest
              then raise (excluded_key_present excluded_key)
              else let filtered = insert list_key (list (list_items r.0)) rest in
                elim r.1 [
                  | [] ↦ ok filtered
                  | v ∷ vs ↦ ok (insert excluded_key (list (list_items (v ∷ vs))) filtered)
                ])

  unfoldable pub filter_keys : List Text → Dict Text Value → Gyp (Dict Text Value)
  filter_keys [] d = ok d
  filter_keys (k ∷ ks) d = filter_key k d >>= filter_keys ks

  -- `ProcessListFiltersInDict` up to its recursion
  unfoldable pub filter_dict : Dict Text Value → Gyp (Dict Text Value)
  filter_dict d = collect_keys d d ([], []) >>= λ found. filter_keys found.0 (remove_keys found.1 d)

  -- `ProcessListFiltersInDict` for a dict and `ProcessListFiltersInList` for a list, on fuel: a nested
  -- dict or list takes one.
  unfoldable pub process_value : ℕ → Value → Gyp Value
  process_value zero (dict fs) = raise out_of_fuel
  process_value zero (list vs) = raise out_of_fuel
  process_value (suc f) (dict fs) = filter_dict (to_dict fs) >>= λ d.
      each_entry (process_value f) d >>= λ d'. ok (dict (of_dict d'))
  process_value (suc f) (list vs) =
      each_item (process_value f) (items_list vs) >>= λ ws. ok (list (list_items ws))
  process_value f (str s) = ok (str s)
  process_value f (int n) = ok (int n)
  process_value f (bool b) = ok (bool b)
