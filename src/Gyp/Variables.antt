-- ===== src/Gyp/Variables.antt =====
-- The variables that a dict brings with it: `LoadAutomaticVariablesFromDict` and
-- `LoadVariablesFromVariablesDict` of src/tools/pylib_dbg/input.py.
pub mod Precedence
use dcfpe.Common.{
  Bool, true, false, Option, none, some, [], ◌∷◌, ◌==◌, if◌then◌else◌, Text, codes, text_Eq,
  get_last?, drop_last, Dict, lookup, has_key, insert,
}
use dcfpe.Gyp.Value.{Value, bool, int, str, dict, list, dict_at}

-- `type(value) in (str, int, list)`
abbrev pub is_variable : Value → Bool
is_variable (bool b) = false
is_variable (dict fs) = false
is_variable _ = true

unfoldable pub load_automatic_variables_from_dict :
    (variables the_dict : Dict Text Value) → Dict Text Value
load_automatic_variables_from_dict variables [] = variables
load_automatic_variables_from_dict variables ((key, value) ∷ rest) =
    load_automatic_variables_from_dict
      (if is_variable value then insert (b'_' ∷ key) value variables else variables) rest

abbrev pub is_percent : Option Text → Bool
is_percent none = false
is_percent (some s) = true

-- `key[:-1]`, if the key ends with "%"
unfoldable pub default_name : Text → Option Text
default_name key = elim (get_last? key) [
  | none ↦ none
  | some c ↦ if c == b'%' then some (drop_last key) else none
]

-- The value of a variable that is set only if it is unset; `in_variables` stands for
-- `the_dict_key is 'variables'`.
unfoldable pub default_value : Bool → Dict Text Value → Text → Value → Value
default_value in_variables the_dict name value = elim in_variables [
  | false ↦ value
  | true ↦ elim (lookup name the_dict) [ none ↦ value | some own ↦ own ]
]

-- the body of the loop over the entries of the "variables" dict
unfoldable pub load_entry :
    Bool → Dict Text Value → Text → Value → (variables : Dict Text Value) → Dict Text Value
load_entry in_variables the_dict key value variables =
    if is_variable value
    then elim (default_name key) [
      | none ↦ insert key value variables
      | some variable_name ↦
          if has_key variable_name variables
          then variables
          else insert variable_name (default_value in_variables the_dict variable_name value)
              variables
    ]
    else variables

-- the loop
unfoldable pub load_each :
    Bool → Dict Text Value → (entries variables : Dict Text Value) → Dict Text Value
load_each in_variables the_dict [] variables = variables
load_each in_variables the_dict ((key, value) ∷ rest) variables =
    load_each in_variables the_dict rest (load_entry in_variables the_dict key value variables)

unfoldable pub load_variables_from_variables_dict :
    (variables the_dict : Dict Text Value) → (in_variables : Bool) → Dict Text Value
load_variables_from_variables_dict variables the_dict in_variables =
    load_each in_variables the_dict (dict_at (codes "variables") the_dict) variables
