-- ===== src/Gyp/Errors.antt =====
-- The exceptions of src/tools/pylib_dbg/input.py, by what they are raised for and the names that
-- their messages show. `out_of_fuel` belongs to the model only.
use dcfpe.Common.{List, Text}
use dcfpe.Common.Results.{Result}

pub data Error : Type 0 where
  key_error : Text → Error
  index_error : Error
  value_error : Text → Error
  type_error : Text → Error
  dependency_not_found : (dependency target : Text) → Error
  circular : Error
  circular_files : (cycles : List (List Text)) → Error
  duplicate_target : Text → Error
  not_in_dependencies : (dependency key target : Text) → Error
  wildcard_in_same_file : (key target : Text) → Error
  missing_target_name : Error
  missing_type : Text → Error
  incompatible_policies : (key other : Text) → Error
  incompatible_type : Text → Error
  unsupported_type : Text → Error
  excluded_key_present : Text → Error
  unrecognized_action : Text → Error
  invalid_target_type : Text → Error
  standalone_not_static : Text → Error
  duplicate_basenames : Text → Error
  duplicate_rule_name : (rule target : Text) → Error
  duplicate_rule_extension : (extension target : Text) → Error
  rule_sources_present : (rule target : Text) → Error
  bad_run_as : Text → Error
  bad_action : Text → Error
  target_not_found : Text → Error
  colliding_targets : (name directory : Text) → Error
  invalid_configuration_key : (key configuration target : Text) → Error
  repeated_key : (key : Text) (key_path : List Text) → Error
  unknown_node : (key_path : List Text) → Error
  included_files_present : Text → Error
  targets_missing : Text → Error
  assertion_error : Error
  out_of_fuel : Error

abbrev pub Gyp : Type 0 → Type 0
Gyp A = Result Error A
