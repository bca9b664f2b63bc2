-- ===== src/Gyp/Validate.antt =====
-- The checks of a target that src/tools/pylib_dbg/input.py makes last: `ValidateTargetType`,
-- `ValidateSourcesInTarget`, `ValidateRulesInTarget`, `ValidateRunAsInTarget`,
-- `ValidateActionsInTarget` and `VerifyNoCollidingTargets`. A call that returns gives `ok`; what the
-- code prints before it raises is left out. The functions of os.path are parameters.
pub mod Unique
pub mod Sources
use dcfpe.Common.{
  insert, ltb, length, Bool, true, false, not, ◌&&◌, ◌||◌, Option, none, some, List, [], ◌∷◌, ◌++◌,
  ◌==◌, if◌then◌else◌, Text, codes, text_eq, text_Eq, contains, Dict, lookup, has_key, starts_with,
  drop,
}
use dcfpe.Common.Results.{ok, raise, ◌>>=◌}
use dcfpe.Gyp.Value.{
  Value, str, int, bool, list, dict, Items, no_items, put, Fields, to_dict, of_dict, truth,
  texts_at, text_at, truth_at,
}
use dcfpe.Gyp.Errors.{
  Gyp, index_error, value_error, invalid_target_type, standalone_not_static, duplicate_basenames,
  duplicate_rule_name, duplicate_rule_extension, rule_sources_present, bad_run_as, bad_action,
  colliding_targets,
}
use dcfpe.Gyp.Targets.{required, dicts_at}

pub record PathParts : Type 0 where
  pub splitext : Text → Text × Text
  pub basename : Text → Text
  pub split : Text → Text × Text

unfoldable pub valid_target_types : List Text
valid_target_types =
    codes "executable"
    ∷ codes "loadable_module"
    ∷ codes "static_library"
    ∷ codes "shared_library"
    ∷ codes "none"
    ∷ []

-- `target_type in types`, for the value of "type"
abbrev pub type_in : List Text → Option Text → Bool
type_in types none = false
type_in types (some t) = contains t types

unfoldable pub validate_target_type : Text → Dict Text Value → Gyp (Unit {0})
validate_target_type target d =
    let target_type = text_at (codes "type") d in
    if not (type_in valid_target_types target_type)
    then raise (invalid_target_type target)
    else if truth_at (codes "standalone_static_library") false d
        && not (type_in (codes "static_library" ∷ []) target_type)
    then raise (standalone_not_static target)
    else ok tt

unfoldable pub compiled_extensions : List Text
compiled_extensions =
    codes ".c"
    ∷ codes ".cc"
    ∷ codes ".cpp"
    ∷ codes ".cxx"
    ∷ codes ".m"
    ∷ codes ".mm"
    ∷ codes ".s"
    ∷ codes ".S"
    ∷ []

abbrev pub files_under : Option (List Text) → List Text
files_under none = []
files_under (some files) = files

-- `if not subdir: subdir = '.'`
abbrev pub current_if_empty : Text → Text
current_if_empty [] = b'.' ∷ []
current_if_empty (c ∷ s) = c ∷ s

module _ (paths : PathParts) where
  -- `basenames.setdefault(basename, []).append(source)`, for a compiled file
  unfoldable pub add_source : Text → Dict Text (List Text) → Dict Text (List Text)
  add_source source basenames =
      let parts = paths.splitext source in
      let basename = paths.basename parts.0 in
      if contains parts.1 compiled_extensions
      then insert basename (files_under (lookup basename basenames) ++ source ∷ []) basenames
      else basenames

  -- the loop over the sources
  unfoldable pub add_sources : List Text → Dict Text (List Text) → Dict Text (List Text)
  add_sources [] basenames = basenames
  add_sources (source ∷ sources) basenames = add_sources sources (add_source source basenames)

  -- `error` is not empty: the loop over the basenames meets one with `len(files) > 1`.
  unfoldable pub has_several : Dict Text (List Text) → Bool
  has_several [] = false
  has_several ((basename, files) ∷ basenames) = ltb 1 (length files) || has_several basenames

  unfoldable pub validate_sources_in_target : Text → Dict Text Value → Bool → Gyp (Unit {0})
  validate_sources_in_target target d duplicate_basename_check =
      if not duplicate_basename_check
      then ok tt
      else if not (
          type_in (codes "static_library" ∷ codes "shared_library" ∷ []) (text_at (codes "type") d))
      then ok tt
      else if has_several (add_sources (texts_at (codes "sources") d) [])
      then raise (duplicate_basenames target)
      else ok tt

  -- An extension without its dot.
  unfoldable pub without_dot : Text → Text
  without_dot e = if starts_with e (b'.' ∷ []) then drop 1 e else e

  unfoldable pub sources_with_extension : Text → List Text → List Text
  sources_with_extension e [] = []
  sources_with_extension e (source ∷ sources) =
      let rest = sources_with_extension e sources in
      if text_eq (without_dot ((paths.splitext source).1)) e then source ∷ rest else rest

  unfoldable pub sources_of_rule : Dict Text Value → Text → List Text → List Text
  sources_of_rule d e [] = []
  sources_of_rule d e (key ∷ source_keys) =
      sources_with_extension e (texts_at key d) ++ sources_of_rule d e source_keys

  -- The rule with its "rule_sources", and its name and extension.
  unfoldable pub validate_rule :
      Text
      → Dict Text Value
      → List Text
      → (rule_names rule_extensions : List Text) → Dict Text Value
      → Gyp (Text × Text × List Text)
  validate_rule target d extra_sources_for_rules rule_names rule_extensions rule =
      required (codes "rule_name") rule >>= λ rule_name.
      if contains rule_name rule_names
      then raise (duplicate_rule_name rule_name target)
      else (required (codes "extension") rule >>= λ extension.
          let rule_extension = without_dot extension in
          if contains rule_extension rule_extensions
          then raise (duplicate_rule_extension rule_extension target)
          else if has_key (codes "rule_sources") rule
          then raise (rule_sources_present rule_name target)
          else ok (
            rule_name,
            rule_extension,
            sources_of_rule d rule_extension (codes "sources" ∷ extra_sources_for_rules),
          ))

  -- What the loop over "rules" leaves as "rule_sources" of each rule: a rule without sources gets none.
  unfoldable pub validate_rules :
      Text
      → Dict Text Value
      → List Text
      → List (Dict Text Value)
      → (rule_names rule_extensions : List Text) → Gyp (List (List Text))
  validate_rules target d extra [] rule_names rule_extensions = ok []
  validate_rules target d extra (rule ∷ rules) rule_names rule_extensions =
      validate_rule target d extra rule_names rule_extensions rule >>= λ r.
      validate_rules target d extra rules (r.0 ∷ rule_names) (r.1 ∷ rule_extensions) >>= λ rest.
      ok (r.2 ∷ rest)

  unfoldable pub validate_rules_in_target :
      Text → Dict Text Value → List Text → Gyp (List (List Text))
  validate_rules_in_target target d extra_sources_for_rules =
      validate_rules target d extra_sources_for_rules (dicts_at (codes "rules") d) [] []

  -- `subdir + ':' + name` of a target, where `path, name = target.rsplit(':', 1)`
  unfoldable pub rsplit_colon : Text → Option (Text × Text)
  rsplit_colon [] = none
  rsplit_colon (c ∷ s) = elim (rsplit_colon s) [
    | some parts ↦ some (c ∷ parts.0, parts.1)
    | none ↦ if c == b':' then some ([], s) else none
  ]

  unfoldable pub collision_key : Text → Gyp Text
  collision_key target = elim (rsplit_colon target) [
    | none ↦ raise (value_error target)
    | some parts ↦ ok (current_if_empty ((paths.split parts.0).0) ++ b':' ∷ parts.1)
  ]

  unfoldable pub verify_no_colliding_from : (used : List Text) → List Text → Gyp (Unit {0})
  verify_no_colliding_from used [] = ok tt
  verify_no_colliding_from used (t ∷ ts) = collision_key t >>= λ key.
      if contains key used
      then raise (colliding_targets t key)
      else verify_no_colliding_from (key ∷ used) ts

  unfoldable pub verify_no_colliding_targets : List Text → Gyp (Unit {0})
  verify_no_colliding_targets targets = verify_no_colliding_from [] targets

-- `d.get(k)`, with None for a value that Python takes as false
unfoldable pub get_true : Text → Dict Text Value → Option Value
get_true k d = elim (lookup k d) [ some v ↦ if truth v then some v else none | none ↦ none ]

unfoldable pub validate_working_directory : Text → Dict Text Value → Gyp (Unit {0})
validate_working_directory target run_as = elim (get_true (codes "working_directory") run_as) [
  | none ↦ ok tt
  | some (str s) ↦ ok tt
  | some v ↦ raise (bad_run_as target)
]

unfoldable pub validate_environment : Text → Dict Text Value → Gyp (Unit {0})
validate_environment target run_as = elim (get_true (codes "environment") run_as) [
  | none ↦ ok tt
  | some (dict fs) ↦ ok tt
  | some v ↦ raise (bad_run_as target)
]

unfoldable pub validate_run_as : Text → Dict Text Value → Gyp (Unit {0})
validate_run_as target run_as = elim (get_true (codes "action") run_as) [
  | some (list action) ↦
      validate_working_directory target run_as >>= λ _. validate_environment target run_as
  | _ ↦ raise (bad_run_as target)
]

unfoldable pub validate_run_as_in_target : Text → Dict Text Value → Gyp (Unit {0})
unfolding validate_run_as
validate_run_as_in_target target d = elim (get_true (codes "run_as") d) [
  | none ↦ ok tt
  | some (dict fs) ↦ validate_run_as target (to_dict fs)
  | some v ↦ raise (bad_run_as target)
]

-- `action_command and not action_command[0]`, for a list or a string
unfoldable pub is_empty_command : Option Value → Bool
is_empty_command (some (list (put v vs))) = not (truth v)
is_empty_command _ = false

unfoldable pub validate_action : Text → Dict Text Value → Gyp (Unit {0})
unfolding is_empty_command
validate_action target action = elim (get_true (codes "action_name") action) [
  | none ↦ raise (bad_action target)
  | some name ↦
      if not (has_key (codes "inputs") action)
      then raise (bad_action target)
      else if is_empty_command (lookup (codes "action") action)
      then raise (bad_action target)
      else ok tt
]

unfoldable pub validate_actions : Text → List (Dict Text Value) → Gyp (Unit {0})
validate_actions target [] = ok tt
validate_actions target (a ∷ rest) = validate_action target a >>= λ _. validate_actions target rest

unfoldable pub validate_actions_in_target : Text → Dict Text Value → Gyp (Unit {0})
validate_actions_in_target target d = validate_actions target (dicts_at (codes "actions") d)
