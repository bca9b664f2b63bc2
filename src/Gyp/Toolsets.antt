-- ===== src/Gyp/Toolsets.antt =====
-- `ProcessToolsetsInDict` of src/tools/pylib_dbg/input.py, for values of every type.
pub mod Settled
pub mod Idempotent
use dcfpe.Common.{
  ◌||◌, starts_with, contains, keys, Bool, true, false, not, ◌&&◌, Option, none, some, List, [],
  ◌∷◌, ◌++◌, map, if◌then◌else◌, Text, codes, text_Eq, ◌=?◌, Dict, lookup, has_key, insert, remove,
}
use dcfpe.Common.Results.{ok, raise, ◌>>=◌}
use dcfpe.Gyp.Value.{
  texts, of_texts, Value, bool, int, str, dict, list, Fields, no_fields, field, Items, no_items,
  put, items_list, list_items, to_dict, of_dict,
}
use dcfpe.Gyp.Errors.{Gyp, type_error}

abbrev pub targets_key : Text
targets_key = codes "targets"

abbrev pub conditions_key : Text
conditions_key = codes "conditions"

abbrev pub toolset_key : Text
toolset_key = codes "toolset"

abbrev pub toolsets_key : Text
toolsets_key = codes "toolsets"

-- `name in s`, for two strings
unfoldable pub occurs_in : (name s : Text) → Bool
occurs_in name [] = false
occurs_in name (c ∷ s) = starts_with (c ∷ s) name || occurs_in name s

-- `name in v`
unfoldable pub is_in : Text → Value → Gyp Bool
unfolding occurs_in
is_in name (str s) = ok (occurs_in name s)
is_in name (list vs) = ok (contains name (texts vs))
is_in name (dict fs) = ok (has_key name (to_dict fs))
is_in name _ = raise (type_error name)

-- What Python iterates over: items, characters or keys.
unfoldable pub iterate : Value → Gyp Items
iterate (list vs) = ok vs
iterate (str s) = ok (of_texts (map (λ c. c ∷ []) s))
iterate (dict fs) = ok (of_texts (keys (to_dict fs)))
iterate _ = raise (type_error targets_key)

-- The items of a value that Python can take a slice of; a string's items are its characters.
unfoldable pub sequence_of : Value → Gyp (List Value)
sequence_of (list vs) = ok (items_list vs)
sequence_of (str s) = ok (map (λ c. str (c ∷ [])) s)
sequence_of (dict no_fields) = ok []
sequence_of _ = raise (type_error toolsets_key)

-- `target.get('toolsets', ['target'])`, or `['target']` without support for several
unfoldable pub toolsets_of : (multiple_toolsets : Bool) → Dict Text Value → Gyp (List Value)
toolsets_of multiple_toolsets target = elim multiple_toolsets [
  | false ↦ ok (str (codes "target") ∷ [])
  | true ↦ elim (lookup toolsets_key target) [
    | none ↦ ok (str (codes "target") ∷ [])
    | some v ↦ sequence_of v
  ]
]

-- One target for each toolset; the one for the first toolset comes last.
unfoldable pub copies : Dict Text Value → List Value → List (Dict Text Value)
copies target [] = []
copies target (first ∷ rest) =
    map (λ build. insert toolset_key build target) rest ++ insert toolset_key first target ∷ []

abbrev pub is_settled : Dict Text Value → Bool
is_settled target = has_key toolset_key target && not (has_key toolsets_key target)

unfoldable pub expand_target : Bool → Dict Text Value → Gyp (List (Dict Text Value))
expand_target multiple_toolsets target =
    if is_settled target
    then ok (target ∷ [])
    else (toolsets_of multiple_toolsets target >>= λ toolsets.
        ok (copies (remove toolsets_key target) toolsets))

abbrev pub dict_values : List (Dict Text Value) → List Value
dict_values ds = map (λ d. dict (of_dict d)) ds

-- A target that is no dict passes if it has the name, and cannot be given a toolset.
unfoldable pub expand_other : Value → Gyp (List Value)
expand_other target = is_in toolset_key target >>= λ toolset.
    is_in toolsets_key target >>= λ toolsets.
    if toolset && not toolsets then ok (target ∷ []) else raise (type_error targets_key)

unfoldable pub expand_value : Bool → Value → Gyp (List Value)
expand_value multiple_toolsets (dict fs) =
    expand_target multiple_toolsets (to_dict fs) >>= λ ts. ok (dict_values ts)
expand_value multiple_toolsets (bool b) = expand_other (bool b)
expand_value multiple_toolsets (int n) = expand_other (int n)
expand_value multiple_toolsets (str s) = expand_other (str s)
expand_value multiple_toolsets (list vs) = expand_other (list vs)

-- the loop over the targets
unfoldable pub expand_each : Bool → Items → Gyp (List Value)
expand_each multiple_toolsets no_items = ok []
expand_each multiple_toolsets (put v vs) = expand_value multiple_toolsets v >>= λ ts.
    expand_each multiple_toolsets vs >>= λ rest. ok (ts ++ rest)

unfoldable pub expand_list : Bool → Value → Gyp (List Value)
expand_list multiple_toolsets v = iterate v >>= expand_each multiple_toolsets

unfoldable pub expand_targets : Bool → Dict Text Value → Gyp (Dict Text Value)
expand_targets multiple_toolsets d = elim (lookup targets_key d) [
  | none ↦ ok d
  | some v ↦
      expand_list multiple_toolsets v >>= λ ts. ok (insert targets_key (list (list_items ts)) d)
]

abbrev pub set_conditions : Option Value → Dict Text Value → Dict Text Value
set_conditions none d = d
set_conditions (some v) d = insert conditions_key v d

module _ (multiple_toolsets : Bool) where
  unfoldable mutual
    -- `ProcessToolsetsInDict`, for a dict; another value fails, or holds neither name and stays
    pub process_toolsets_in_dict : Value → Gyp Value
    process_toolsets_in_dict (dict fs) = expand_targets multiple_toolsets (to_dict fs) >>= λ d.
        conditions_of fs >>= λ conditions. ok (dict (of_dict (set_conditions conditions d)))
    process_toolsets_in_dict (bool b) = raise (type_error targets_key)
    process_toolsets_in_dict (int n) = raise (type_error targets_key)
    process_toolsets_in_dict (str s) =
        if occurs_in targets_key s || occurs_in conditions_key s
        then raise (type_error targets_key)
        else ok (str s)
    process_toolsets_in_dict (list vs) =
        if contains targets_key (texts vs) || contains conditions_key (texts vs)
        then raise (type_error targets_key)
        else ok (list vs)

    -- the processed `data['conditions']`, if it is there
    pub conditions_of : Fields → Gyp (Option Value)
    conditions_of no_fields = ok none
    conditions_of (field k v fs) =
        let here = (process_conditions v >>= λ w. ok (some w)) in
        let later = conditions_of fs in if conditions_key =? k then here else later

    pub process_conditions : Value → Gyp Value
    process_conditions (list vs) = process_each_condition vs >>= λ ws. ok (list ws)
    process_conditions (dict fs) = ok (dict fs)
    process_conditions (str s) = ok (str s)
    process_conditions _ = raise (type_error conditions_key)

    pub process_each_condition : Items → Gyp Items
    process_each_condition no_items = ok no_items
    process_each_condition (put v vs) =
        process_condition v >>= λ w. process_each_condition vs >>= λ ws. ok (put w ws)

    -- `if type(condition) is list`: the dicts behind the expression
    pub process_condition : Value → Gyp Value
    process_condition (list (put expression dicts)) =
        process_dicts dicts >>= λ ds. ok (list (put expression ds))
    process_condition (list no_items) = ok (list no_items)
    process_condition (dict fs) = ok (dict fs)
    process_condition (str s) = ok (str s)
    process_condition (int n) = ok (int n)
    process_condition (bool b) = ok (bool b)

    pub process_dicts : Items → Gyp Items
    process_dicts no_items = ok no_items
    process_dicts (put v vs) =
        process_toolsets_in_dict v >>= λ w. process_dicts vs >>= λ ws. ok (put w ws)
