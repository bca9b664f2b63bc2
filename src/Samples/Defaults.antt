-- ===== src/Samples/Defaults.antt =====
-- Steps of `LoadTargetBuildFile` of src/tools/pylib_dbg/input.py at a concrete build file.
use dcfpe.Common.{
  ◌≡◌, refl, [], ◌∷◌, ◌++◌, Text, codes, text_eq, text_Eq, contains, Dict, lookup, insert, remove,
  has_key, get_last?, drop_last,
}
use dcfpe.Common.Results.{ok, raise}
use dcfpe.Gyp.Value.{Value, str, dict, list, put, no_items, field, no_fields, texts_at}
use dcfpe.Gyp.Errors.{targets_missing}
use dcfpe.Gyp.Paths.{PathTools}
use dcfpe.Gyp.Names.Sections.{is_path_section, strip_operators, ends_in_operator, names_a_path}
use dcfpe.Gyp.Merge.{merge_dicts, fix_text}
use dcfpe.Gyp.Defaults.{
  set_depth, list_included, apply_target_defaults, merge_defaults, dependency_files,
  files_of_targets,
}
use dcfpe.Gyp.Includes.{get_included_build_files, included_from, include_each}

-- Directories are not looked at.
abbrev flat_paths : PathTools
flat_paths = record {
  dirname = λ p. [];
  join = λ p q. q;
  normpath = λ p. p;
  relative_path = λ p q. p;
}

abbrev gyp : Text
gyp = codes "a.gyp"

abbrev gypi : Text
gypi = codes "b.gypi"

abbrev defaults : Value
defaults =
    dict (field (codes "type") (str (codes "none")) (field (codes "x") (str (codes "1")) no_fields))

-- One target, which has a type of its own and a dependency.
abbrev build_file : Dict Text Value
build_file =
    (codes "target_defaults", defaults)
    ∷ (
      codes "targets",
      list (put (dict (field (codes "type") (str (codes "executable")) no_fields)) no_items),
    )
    ∷ []

defaults_merged :
    apply_target_defaults flat_paths gyp [] build_file
    ≡ ok (
        (
          codes "targets",
          list (
              put
                (dict (
                  field
                    (codes "type")
                    (str (codes "executable"))
                    (field (codes "x") (str (codes "1")) no_fields)))
                no_items),
        )
        ∷ [])
unfolding apply_target_defaults merge_defaults merge_dicts fix_text lookup insert remove text_eq
    is_path_section strip_operators ends_in_operator names_a_path contains get_last? drop_last
defaults_merged = refl

no_targets :
    apply_target_defaults flat_paths gyp [] ((codes "target_defaults", defaults) ∷ [])
    ≡ raise (targets_missing gyp)
unfolding apply_target_defaults lookup text_eq
no_targets = refl

depth_backslash :
    set_depth flat_paths gyp (codes "..\\..") [] ≡ (codes "DEPTH", str (codes "../..")) ∷ []
unfolding set_depth insert dcfpe.Gyp.Paths.forward_slashes
depth_backslash = refl

included_listed :
    list_included flat_paths gyp ((gyp, gypi ∷ []) ∷ (gypi, []) ∷ []) []
    ≡ ok ((codes "included_files", list (put (str gyp) (put (str gypi) no_items))) ∷ [])
unfolding list_included get_included_build_files included_from include_each has_key insert lookup
    contains text_eq
included_listed = refl

dependency_listed :
    dependency_files
      (λ d. d ++ codes ".gyp")
      ((
        codes "targets",
        list (
            put
              (dict
                (field (codes "dependencies") (list (put (str (codes "base")) no_items)) no_fields))
              no_items),
      )
        ∷ [])
    ≡ ok (codes "base.gyp" ∷ [])
unfolding dependency_files files_of_targets lookup texts_at text_eq
dependency_listed = refl
