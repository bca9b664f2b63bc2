-- ===== src/Gyp/Defaults.antt =====
-- Steps of `LoadTargetBuildFile` of src/tools/pylib_dbg/input.py that neither read a file nor expand
-- variables: the DEPTH variable, the files that a build file includes, the defaults of its targets,
-- and the files that its targets depend on. A "targets" entry
-- is a list of dicts, and "target_defaults" is a dict.
use dcfpe.Common.{
  none, some, List, [], ◌∷◌, ◌++◌, map, if◌then◌else◌, Text, codes, text_Eq, Dict, lookup, has_key,
  insert, remove,
}
use dcfpe.Common.Results.{ok, raise, ◌>>=◌}
use dcfpe.Gyp.Value.{
  Value, str, dict, list, Items, no_items, put, of_texts, to_dict, of_dict, texts_at,
}
use dcfpe.Gyp.Errors.{Gyp, type_error, included_files_present, targets_missing}
use dcfpe.Gyp.Paths.{PathTools, forward_slashes}
use dcfpe.Gyp.Includes.{Included, get_included_build_files}
use dcfpe.Gyp.Merge.{merge_dicts}
use dcfpe.Gyp.Toolsets.{targets_key}

abbrev pub target_defaults_key : Text
target_defaults_key = codes "target_defaults"

abbrev pub included_files_key : Text
included_files_key = codes "included_files"

abbrev pub or_dot : Text → Text
or_dot [] = b'.' ∷ []
or_dot d = forward_slashes d

-- The files of the dependencies of a target; `file_of` stands for the first item of what
-- `gyp.common.ResolveTarget(build_file_path, dependency, None)` gives.
unfoldable pub files_of_targets : (file_of : Text → Text) → Items → Gyp (List Text)
files_of_targets file_of no_items = ok []
files_of_targets file_of (put (dict fs) vs) = files_of_targets file_of vs >>= λ rest.
    ok (map file_of (texts_at (codes "dependencies") (to_dict fs)) ++ rest)
files_of_targets file_of (put _ vs) = raise (type_error targets_key)

unfoldable pub dependency_files : (file_of : Text → Text) → Dict Text Value → Gyp (List Text)
dependency_files file_of d = elim (lookup targets_key d) [
  | none ↦ ok []
  | some (list vs) ↦ files_of_targets file_of vs
  | some _ ↦ raise (type_error targets_key)
]

module _ (tools : PathTools) (build_file_path : Text) where
  -- An empty `depth` sets nothing.
  unfoldable pub set_depth : (depth : Text) → (variables : Dict Text Value) → Dict Text Value
  set_depth [] variables = variables
  set_depth (c ∷ depth) variables =
      insert (codes "DEPTH")
        (str (or_dot (tools.relative_path (c ∷ depth) (tools.dirname build_file_path)))) variables

  unfoldable pub list_included : (aux_data : Included) → Dict Text Value → Gyp (Dict Text Value)
  list_included aux_data d =
      if has_key included_files_key d
      then raise (included_files_present build_file_path)
      else (get_included_build_files aux_data build_file_path >>= λ included.
          let relative =
            map (λ f. tools.relative_path f (tools.dirname build_file_path)) included in
          ok (insert included_files_key (list (of_texts relative)) d))

  module _ (path_sections : List Text) where
    -- the loop over the targets, each of which is merged into a copy of the defaults
    unfoldable pub merge_defaults : (defaults : Value) → Items → Gyp Items
    merge_defaults defaults no_items = ok no_items
    merge_defaults (dict ds) (put (dict fs) vs) =
        merge_dicts tools path_sections build_file_path build_file_path (to_dict ds) (to_dict fs)
        >>= λ merged. merge_defaults (dict ds) vs >>= λ rest. ok (put (dict (of_dict merged)) rest)
    merge_defaults defaults (put _ vs) = raise (type_error targets_key)

    unfoldable pub apply_target_defaults : Dict Text Value → Gyp (Dict Text Value)
    apply_target_defaults d = elim (lookup target_defaults_key d) [
      | none ↦ ok d
      | some defaults ↦ elim (lookup targets_key d) [
        | none ↦ raise (targets_missing build_file_path)
        | some (list vs) ↦ merge_defaults defaults vs >>= λ merged.
            ok (remove target_defaults_key (insert targets_key (list merged) d))
        | some _ ↦ raise (type_error targets_key)
      ]
    ]
