-- ===== src/Gyp/Configurations.antt =====
-- `MergeConfigWithInheritance` and `SetUpConfigurations` of src/tools/pylib_dbg/input.py. The copies
-- that the code makes with gyp.simple_copy are the values themselves here, since no value of the
-- model is changed in place.
pub mod Inherited
pub mod Valid
use dcfpe.Common.{
  ℕ, zero, suc, ◌+◌, Bool, false, ◌||◌, none, some, List, [], ◌∷◌, ◌++◌, ◌==◌, if◌then◌else◌,
  length, Text, codes, text_Eq, get_last?, drop_last, contains, Dict, lookup, has_key, insert,
  remove, keys,
}
use dcfpe.Common.Results.{ok, raise, ◌>>=◌}
use dcfpe.Gyp.Value.{Value, str, dict, no_fields, to_dict, of_dict, texts_at, truth_at, dict_at}
use dcfpe.Gyp.Errors.{Gyp, key_error, index_error, invalid_configuration_key, out_of_fuel}
use dcfpe.Gyp.Paths.{PathTools}
use dcfpe.Gyp.Merge.{merge_dicts}
use dcfpe.Build.Targets.{sorted}

unfoldable pub base_non_configuration_keys : List Text
base_non_configuration_keys =
    codes "actions"
    ∷ codes "configurations"
    ∷ codes "copies"
    ∷ codes "default_configuration"
    ∷ codes "dependencies"
    ∷ codes "dependencies_original"
    ∷ codes "libraries"
    ∷ codes "postbuilds"
    ∷ codes "product_dir"
    ∷ codes "product_extension"
    ∷ codes "product_name"
    ∷ codes "product_prefix"
    ∷ codes "rules"
    ∷ codes "run_as"
    ∷ codes "sources"
    ∷ codes "standalone_static_library"
    ∷ codes "suppress_wildcard"
    ∷ codes "target_name"
    ∷ codes "toolset"
    ∷ codes "toolsets"
    ∷ codes "type"
    ∷ codes "variables"
    ∷ []

unfoldable pub invalid_configuration_keys : List Text
invalid_configuration_keys =
    codes "actions"
    ∷ codes "all_dependent_settings"
    ∷ codes "configurations"
    ∷ codes "dependencies"
    ∷ codes "direct_dependent_settings"
    ∷ codes "libraries"
    ∷ codes "link_settings"
    ∷ codes "sources"
    ∷ codes "standalone_static_library"
    ∷ codes "target_name"
    ∷ codes "type"
    ∷ []

-- `key_base`: a key without one of the suffixes = + ? ! /
unfoldable pub key_base : Text → Text
key_base key = elim (get_last? key) [
  | none ↦ key
  | some c ↦
      if c == b'=' || (c == b'+' || (c == b'?' || (c == b'!' || c == b'/')))
      then drop_last key
      else key
]

abbrev pub configurations_key : Text
configurations_key = codes "configurations"

abbrev pub is_abstract : Dict Text Value → Bool
is_abstract = truth_at (codes "abstract") false

-- A configuration, which is a dict.
abbrev pub fields_of : Value → Dict Text Value
fields_of (dict fs) = to_dict fs
fields_of _ = []

unfoldable pub concrete_names : Dict Text Value → List Text
concrete_names [] = []
concrete_names ((name, config) ∷ configs) =
    let rest = concrete_names configs in
    if is_abstract (fields_of config) then rest else name ∷ rest

-- The keys of the target that a configuration takes over, and those that stay.
unfoldable pub inherited : List Text → Dict Text Value → Dict Text Value
inherited non_configuration_keys [] = []
inherited non_configuration_keys ((k, v) ∷ d) =
    let rest = inherited non_configuration_keys d in
    if contains (key_base k) non_configuration_keys then rest else (k, v) ∷ rest

unfoldable pub retained : List Text → Dict Text Value → Dict Text Value
retained non_configuration_keys [] = []
retained non_configuration_keys ((k, v) ∷ d) =
    let rest = retained non_configuration_keys d in
    if contains (key_base k) non_configuration_keys then (k, v) ∷ rest else rest

unfoldable pub check_keys : (target configuration : Text) → List Text → Gyp (Unit {0})
check_keys target configuration [] = ok tt
check_keys target configuration (k ∷ ks) =
    if contains k invalid_configuration_keys
    then raise (invalid_configuration_key k configuration target)
    else check_keys target configuration ks

unfoldable pub check_configurations : Text → Dict Text Value → Gyp (Unit {0})
check_configurations target [] = ok tt
check_configurations target ((name, config) ∷ configs) =
    check_keys target name (keys (fields_of config)) >>= λ _. check_configurations target configs

unfoldable pub drop_abstract : Dict Text Value → Dict Text Value
drop_abstract [] = []
drop_abstract ((name, config) ∷ configs) =
    let rest = drop_abstract configs in
    if is_abstract (fields_of config) then rest else (name, config) ∷ rest

-- `target_dict` with the configurations and the default that it has at least.
unfoldable pub with_defaults : Dict Text Value → Gyp (Dict Text Value)
with_defaults d =
    let d' =
      if has_key configurations_key d
      then d
      else insert configurations_key (dict (of_dict ((codes "Default", dict no_fields) ∷ []))) d in
    if has_key (codes "default_configuration") d'
    then ok d'
    else elim (sorted (concrete_names (dict_at configurations_key d'))) [
      | [] ↦ raise index_error
      | name ∷ names ↦ ok (insert (codes "default_configuration") (str name) d')
    ]

unfoldable pub put_back : Dict Text Value → Dict Text Value → Dict Text Value
put_back [] configs = configs
put_back ((name, config) ∷ merged) configs = put_back merged (insert name config configs)

module _ (tools : PathTools) (path_sections : List Text) (build_file : Text → Text) where
  -- The loop over the parents; `merge` is the recursive call.
  unfoldable pub merge_parents :
      (Dict Text Value → Text → Gyp (Dict Text Value))
      → List Text
      → Dict Text Value
      → Gyp (Dict Text Value)
  merge_parents merge [] new = ok new
  merge_parents merge (p ∷ ps) new = merge new p >>= merge_parents merge ps

  -- On fuel: a call for a parent takes one. `visited` grows with every nested call, so the depth is
  -- at most the number of configurations.
  unfoldable pub merge_config_with_inheritance :
      ℕ
      → Text
      → Dict Text Value
      → (visited : List Text) → Dict Text Value
      → Text
      → Gyp (Dict Text Value)
  merge_config_with_inheritance zero file configs visited new configuration = raise out_of_fuel
  merge_config_with_inheritance (suc f) file configs visited new configuration =
      if contains configuration visited then ok new else elim (lookup configuration configs) [
        | none ↦ raise (key_error configuration)
        | some config ↦
            merge_parents
              (merge_config_with_inheritance f file configs (visited ++ configuration ∷ []))
              (texts_at (codes "inherit_from") (fields_of config)) new
            >>= λ merged.
                merge_dicts tools path_sections file file merged (fields_of config) >>= λ merged.
                ok (remove (codes "abstract") merged)
      ]

  unfoldable pub merged_configurations :
      List Text → Text → Dict Text Value → (all configs : Dict Text Value) → Gyp (Dict Text Value)
  merged_configurations non_configuration_keys file d all [] = ok []
  merged_configurations non_configuration_keys file d all ((name, config) ∷ configs) =
      let rest = merged_configurations non_configuration_keys file d all configs in
      if is_abstract (fields_of config)
      then rest
      else (merge_config_with_inheritance (length all + 2) file all []
            (inherited non_configuration_keys d) name
          >>= λ new. rest >>= λ others. ok ((name, dict (of_dict new)) ∷ others))

  unfoldable pub set_up_configurations : List Text → Text → Dict Text Value → Gyp (Dict Text Value)
  set_up_configurations non_configuration_keys target target_dict =
      with_defaults target_dict >>= λ d.
      let configs = dict_at configurations_key d in
      merged_configurations non_configuration_keys (build_file target) d configs configs
      >>= λ merged.
          let left = drop_abstract (put_back merged configs) in
          let kept =
            retained non_configuration_keys (insert configurations_key (dict (of_dict left)) d) in
          check_configurations target left >>= λ _. ok kept
