-- ===== src/Samples/Configured.antt =====
-- `SetUpConfigurations` of src/tools/pylib_dbg/input.py at a concrete target.
use dcfpe.Common.{
  ◌≡◌, refl, true, some, [], ◌∷◌, All, Text, codes, text_Eq, text_eq, contains, Dict, lookup, keys,
  has_key, insert, get_last?, drop_last, remove,
}
use dcfpe.Common.Results.{ok}
use dcfpe.Gyp.Value.{
  Value, str, dict, no_fields, field, list, put, no_items, of_dict, dict_at, truth_at, texts_at,
}
use dcfpe.Gyp.Paths.{PathTools}
use dcfpe.Gyp.Merge.{merge_dicts}
use dcfpe.Build.Targets.{sorted}
use dcfpe.Gyp.Configurations.{
  base_non_configuration_keys, invalid_configuration_keys, key_base, configurations_key,
  set_up_configurations, with_defaults, concrete_names, merged_configurations, inherited, retained,
  merge_config_with_inheritance, merge_parents, put_back, drop_abstract, check_configurations,
  check_keys,
}
use dcfpe.Gyp.Configurations.Valid.{
  IsValidConfiguration, set_up_configurations-IsValidConfiguration,
}

abbrev same_paths : PathTools
same_paths = record {
  dirname = λ p. p;
  join = λ p q. q;
  normpath = λ p. p;
  relative_path = λ p q. p;
}

-- A target of type "none" with a setting "x", which goes into its configuration.
abbrev target_dict : Dict Text Value
target_dict = (codes "type", str (codes "none")) ∷ (codes "x", str (codes "1")) ∷ []

abbrev configured : Dict Text Value
configured =
    (codes "type", str (codes "none"))
    ∷ (
      codes "configurations",
      dict (
          field (codes "Default") (dict (field (codes "x") (str (codes "1")) no_fields)) no_fields),
    )
    ∷ (codes "default_configuration", str (codes "Default"))
    ∷ []

configurations_kept : contains (key_base configurations_key) base_non_configuration_keys ≡ true
unfolding contains text_eq key_base get_last? base_non_configuration_keys
configurations_kept = refl

run_target_dict :
    set_up_configurations same_paths [] (λ t. t) base_non_configuration_keys (codes "t") target_dict
    ≡ ok configured
unfolding set_up_configurations with_defaults concrete_names merged_configurations inherited
    retained merge_config_with_inheritance merge_parents merge_dicts put_back drop_abstract
    check_configurations check_keys contains text_eq key_base get_last? drop_last
    base_non_configuration_keys invalid_configuration_keys lookup has_key insert remove dict_at
    truth_at texts_at sorted
run_target_dict = refl

set_up_configurations-IsValidConfiguration_example :
    All (λ k. contains (key_base k) base_non_configuration_keys ≡ true) (keys configured)
    × (left : Dict Text Value) × (lookup configurations_key configured ≡ some (dict (of_dict left)))
    × All IsValidConfiguration left
set_up_configurations-IsValidConfiguration_example =
    set_up_configurations-IsValidConfiguration same_paths [] (λ t. t) base_non_configuration_keys
      (codes "t") target_dict configured configurations_kept run_target_dict

abbrev debug : Text
debug = codes "Debug"

abbrev release : Text
release = codes "Release"

abbrev inherit_from : Text
inherit_from = codes "inherit_from"

-- Two configurations that inherit from each other.
abbrev in_a_circle : Dict Text Value
in_a_circle =
    (debug, dict (field inherit_from (list (put (str release) no_items)) no_fields))
    ∷ (release, dict (field inherit_from (list (put (str debug) no_items)) no_fields))
    ∷ []
