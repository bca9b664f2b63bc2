-- ===== src/Gyp/Settings.antt =====
-- `DoDependentSettings` and `AdjustStaticLibraryDependencies` of src/tools/pylib_dbg/input.py, as
-- steps from target dicts to target dicts. A target is taken not to be among its own dependencies,
-- so that no dict is merged into itself.
use dcfpe.Common.{
  Bool, false, not, ◌&&◌, ◌||◌, none, some, List, [], ◌∷◌, ◌++◌, if◌then◌else◌, Text, codes,
  text_eq, text_Eq, contains, Dict, lookup, has_key, insert, remove,
}
use dcfpe.Common.Results.{ok, raise, ◌>>=◌}
use dcfpe.Gyp.Value.{Value, list, dict, to_dict, of_texts, texts_at, truth_at, Targets}
use dcfpe.Gyp.Errors.{Gyp, key_error, type_error}
use dcfpe.Gyp.Paths.{PathTools}
use dcfpe.Gyp.Merge.{merge_dicts}
use dcfpe.Gyp.Targets.{required}
use dcfpe.Gyp.Graph.{Graph}
use dcfpe.Gyp.Graph.Traversal.{
  linkable_types, deep_dependencies, direct_and_imported_dependencies, dependencies_to_link_against,
  dependencies_for_link_settings,
}

-- `targets[t]`
unfoldable pub target_at : Text → Targets → Gyp (Dict Text Value)
target_at t targets = elim (lookup t targets) [ some d ↦ ok d | none ↦ raise (key_error t) ]

abbrev pub all_dependent_settings : Text
all_dependent_settings = codes "all_dependent_settings"

abbrev pub direct_dependent_settings : Text
direct_dependent_settings = codes "direct_dependent_settings"

abbrev pub link_settings : Text
link_settings = codes "link_settings"

-- The dependencies whose settings under a key a target takes over.
unfoldable pub setting_dependencies : Text → Targets → Graph → Text → Gyp (List Text)
setting_dependencies key targets g t =
    if text_eq key all_dependent_settings
    then deep_dependencies g t
    else if text_eq key direct_dependent_settings
    then direct_and_imported_dependencies targets g t
    else if text_eq key link_settings
    then dependencies_for_link_settings targets g t
    else raise (key_error key)

module _ (tools : PathTools) (path_sections : List Text) (build_file : Text → Text) where
  unfoldable pub merge_setting : Text → Text → Text → Targets → Gyp Targets
  merge_setting key target dependency targets = target_at dependency targets >>= λ dependency_dict.
      elim (lookup key dependency_dict) [
        | none ↦ ok targets
        | some (dict settings) ↦ target_at target targets >>= λ target_dict.
            merge_dicts tools path_sections (build_file target) (build_file dependency) target_dict
              (to_dict settings)
            >>= λ merged. ok (insert target merged targets)
        | some v ↦ raise (type_error key)
      ]

  unfoldable pub merge_settings : Text → Text → List Text → Targets → Gyp Targets
  merge_settings key target [] targets = ok targets
  merge_settings key target (d ∷ ds) targets =
      merge_setting key target d targets >>= merge_settings key target ds

  unfoldable pub do_dependent_settings : Text → List Text → Graph → Targets → Gyp Targets
  do_dependent_settings key [] g targets = ok targets
  do_dependent_settings key (t ∷ flat_list) g targets = target_at t targets >>= λ _.
      setting_dependencies key targets g t >>= λ dependencies.
      merge_settings key t dependencies targets >>= do_dependent_settings key flat_list g

abbrev pub is_static_library : Text → Bool
is_static_library t = text_eq t (codes "static_library")

-- A dependency that a static library loses: a static library that is not hard, or another target
-- that is no direct dependency.
unfoldable pub is_dropped : (direct : List Text) → Text → Dict Text Value → Text → Bool
is_dropped direct dependency d its_type =
    is_static_library its_type && not (truth_at (codes "hard_dependency") false d)
    || not (is_static_library its_type) && not (contains dependency direct)

unfoldable pub kept_dependencies : Targets → (direct : List Text) → List Text → Gyp (List Text)
kept_dependencies targets direct [] = ok []
kept_dependencies targets direct (t ∷ ts) = target_at t targets >>= λ d.
    required (codes "type") d >>= λ its_type. kept_dependencies targets direct ts >>= λ rest.
    ok (if is_dropped direct t d its_type then rest else t ∷ rest)

abbrev pub dependencies_key : Text
dependencies_key = codes "dependencies"

unfoldable pub adjust_static_library :
    Targets → Graph → Text → Dict Text Value → Gyp (Dict Text Value)
adjust_static_library targets g target d =
    if not (has_key dependencies_key d)
    then ok d
    else (let direct = texts_at dependencies_key d in
        let d' = insert (codes "dependencies_original") (list (of_texts direct)) d in
        direct_and_imported_dependencies (insert target d' targets) g target
        >>= kept_dependencies (insert target d' targets) direct
        >>= λ kept. elim kept [
          | [] ↦ ok (remove dependencies_key d')
          | t ∷ ts ↦ ok (insert dependencies_key (list (of_texts (t ∷ ts))) d')
        ])

-- The loop over the link dependencies of a target.
unfoldable pub add_missing : Text → List Text → Dict Text Value → Dict Text Value
add_missing target [] d = d
add_missing target (t ∷ ts) d =
    let present = texts_at dependencies_key d in
    add_missing target ts (
      if text_eq t target
      then d
      else if contains t present
      then d
      else insert dependencies_key (list (of_texts (present ++ t ∷ []))) d)

-- `[dep for dep in reversed(flat_list) if dep in dependencies]`
unfoldable pub sort_by : List Text → List Text → List Text
sort_by [] dependencies = []
sort_by (t ∷ flat_list) dependencies =
    let rest = sort_by flat_list dependencies in
    if contains t dependencies then rest ++ t ∷ [] else rest

unfoldable pub adjust_linkable :
    List Text → Targets → Graph → Bool → Text → Dict Text Value → Gyp (Dict Text Value)
adjust_linkable flat_list targets g sort_dependencies target d =
    dependencies_to_link_against targets g target >>= λ link_dependencies.
    let d' = add_missing target link_dependencies d in
    if sort_dependencies && has_key dependencies_key d'
    then ok (
        insert dependencies_key (list (of_texts (sort_by flat_list (texts_at dependencies_key d'))))
          d')
    else ok d'

unfoldable pub adjust_target : List Text → Targets → Graph → Bool → Text → Gyp Targets
adjust_target flat_list targets g sort_dependencies target = target_at target targets >>= λ d.
    required (codes "type") d >>= λ target_type.
    if is_static_library target_type
    then (adjust_static_library targets g target d >>= λ d'. ok (insert target d' targets))
    else if contains target_type linkable_types
    then (adjust_linkable flat_list targets g sort_dependencies target d >>= λ d'.
        ok (insert target d' targets))
    else ok targets

unfoldable pub adjust_each : (flat_list todo : List Text) → Graph → Bool → Targets → Gyp Targets
adjust_each flat_list [] g sort_dependencies targets = ok targets
adjust_each flat_list (t ∷ ts) g sort_dependencies targets =
    adjust_target flat_list targets g sort_dependencies t
    >>= adjust_each flat_list ts g sort_dependencies

unfoldable pub adjust_static_library_dependencies : List Text → Targets → Graph → Bool → Gyp Targets
adjust_static_library_dependencies flat_list targets g sort_dependencies =
    adjust_each flat_list flat_list g sort_dependencies targets
