-- ===== src/Gyp/Options.antt =====
-- The command-line options of src/tools/pylib_dbg/__init__.py: `NameValueListToDict`, `FormatOpt`,
-- `RegenerateAppendFlag` and `RegenerateFlags`. Python's `int` of a string, the environment, with its
-- splitting by shlex, and `FixIfRelativePath` of gyp.common are parameters.
pub mod Regenerated
pub mod Named
use dcfpe.Common.{
  ℕ, Bool, true, false, not, ◌&&◌, ◌||◌, Option, none, some, List, [], ◌∷◌, ◌++◌, ◌==◌,
  if◌then◌else◌, Text, codes, text_eq, text_Eq, contains, starts_with, Dict, insert,
}
use dcfpe.Gyp.Value.{ℤ, Value, str, int, bool}

-- `item.split('=', 1)`: what stands before the first "=", and behind it, if there is one.
unfoldable pub split_equals : Text → Text × Option Text
split_equals [] = ([], none)
split_equals (c ∷ s) =
    let rest = split_equals s in if c == b'=' then ([], some s) else (c ∷ rest.0, rest.1)

unfoldable pub token_value : (Text → Option ℤ) → Option Text → Value
token_value int_of none = bool true
token_value int_of (some t) = elim (int_of t) [ some n ↦ int n | none ↦ str t ]

unfoldable pub name_values : (Text → Option ℤ) → List Text → Dict Text Value → Dict Text Value
name_values int_of [] result = result
name_values int_of (item ∷ items) result =
    let tokens = split_equals item in
    name_values int_of items (insert tokens.0 (token_value int_of tokens.1) result)

unfoldable pub name_value_list_to_dict : (Text → Option ℤ) → List Text → Dict Text Value
name_value_list_to_dict int_of name_value_list = name_values int_of name_value_list []

unfoldable pub format_opt : (opt value : Text) → Text
format_opt opt value = if starts_with opt (codes "--") then opt ++ b'=' ∷ value else opt ++ value

-- `flags.remove(value)`: the first of the flags that are equal to it.
unfoldable pub remove_first : Text → List Text → List Text
remove_first v [] = []
remove_first v (w ∷ ws) = if text_eq v w then ws else w ∷ remove_first v ws

-- The loop over the values of the environment.
unfoldable pub environment_flags : Text → (Text → Text) → List Text → List Text → List Text
environment_flags flag predicate [] flags = flags
environment_flags flag predicate (v ∷ vs) flags =
    let value = format_opt flag (predicate v) in
    environment_flags flag predicate vs
      ((if contains value flags then remove_first value flags else flags) ++ value ∷ [])

unfoldable pub value_flags : Text → (Text → Text) → List Text → List Text
value_flags flag predicate [] = []
value_flags flag predicate (v ∷ vs) = format_opt flag (predicate v) ∷ value_flags flag predicate vs

-- `from_environment` holds what `ShlexEnv(env_name)` gives, where there is a name to look up.
unfoldable pub regenerate_append_flag :
    (flag : Text)
    → (values : List Text) → (Text → Text)
    → (from_environment : Option (List Text)) → (use_environment : Bool) → List Text
regenerate_append_flag flag values predicate from_environment use_environment =
    elim from_environment [
      | some vs ↦ if use_environment then environment_flags flag predicate vs [] else []
      | none ↦ []
    ]
    ++ value_flags flag predicate values

-- The action of an option; `other_action` is one that the code only warns of.
pub data OptAction : Type 0 where
  append_action store store_true store_false other_action : OptAction

-- The value of an option: a list, a text, or a truth. None is `store_value none`.
pub data OptValue : Type 0 where
  append_values : List Text → OptValue
  store_value : Option Text → OptValue
  truth_value : Bool → OptValue

-- `options._regeneration_metadata[name]`, with the value of the option and of its variable.
pub record Opt : Type 0 where
  pub opt : Text
  pub is_path : Bool
  pub action : OptAction
  pub value : OptValue
  pub environment_list : Option (List Text)
  pub environment_text : Option Text

abbrev pub values_of : OptValue → List Text
values_of (append_values vs) = vs
values_of _ = []

-- A text that Python takes as true.
abbrev pub nonempty : Option Text → Option Text
nonempty none = none
nonempty (some []) = none
nonempty (some (c ∷ s)) = some (c ∷ s)

abbrev pub text_of : OptValue → Option Text
text_of (store_value t) = nonempty t
text_of _ = none

abbrev pub flag_of : OptValue → Bool
flag_of (truth_value b) = b
flag_of (append_values []) = false
flag_of (append_values (v ∷ vs)) = true
flag_of (store_value t) = elim (nonempty t) [ some s ↦ true | none ↦ false ]

module _ (fix_if_relative_path : Text → Text) (use_environment : Bool) where
  -- `FixPath`; `os.path.curdir` is "."
  unfoldable pub fix_path : Text → Text
  fix_path path = elim (fix_if_relative_path path) [ [] ↦ b'.' ∷ [] | c ∷ s ↦ c ∷ s ]

  unfoldable pub predicate_of : Opt → Text → Text
  predicate_of o v = if o.is_path then fix_path v else v

  unfoldable pub flags_of : Opt → List Text
  unfolding predicate_of
  flags_of o = elim o.action [
    | append_action ↦
        regenerate_append_flag o.opt (values_of o.value) (predicate_of o) o.environment_list
          use_environment
    | store ↦ elim (text_of o.value) [
      | some v ↦ format_opt o.opt (predicate_of o v) ∷ []
      | none ↦ elim (nonempty o.environment_text) [
        | some v ↦ if use_environment then format_opt o.opt (predicate_of o v) ∷ [] else []
        | none ↦ []
      ]
    ]
    | store_true ↦ if flag_of o.value then o.opt ∷ [] else []
    | store_false ↦ if flag_of o.value then [] else o.opt ∷ []
    | other_action ↦ []
  ]

  unfoldable pub all_flags : List Opt → List Text
  all_flags [] = []
  all_flags (o ∷ os) = flags_of o ++ all_flags os

  unfoldable pub regenerate_flags : List Opt → List Text
  regenerate_flags options = codes "--ignore-environment" ∷ all_flags options
