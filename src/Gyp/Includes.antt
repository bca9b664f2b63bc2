-- ===== src/Gyp/Includes.antt =====
-- `GetIncludedBuildFiles` of src/tools/pylib_dbg/input.py. The recursion runs on fuel that bounds its
-- depth by the number of build files: a file that is in the list already is not gone into again.
pub mod Reached
use dcfpe.Common.{
  ℕ, zero, suc, ◌+◌, Option, none, some, List, [], ◌∷◌, ◌++◌, if◌then◌else◌, length, Text, text_Eq,
  contains, Dict, lookup,
}
use dcfpe.Common.Results.{ok, raise, ◌>>=◌}
use dcfpe.Gyp.Errors.{Gyp, key_error, out_of_fuel}

-- The "included" lists of `aux_data`; a file whose dict has none is there with an empty list.
abbrev pub Included : Type 0
Included = Dict Text (List Text)

-- the loop over the files that a file includes; `visit` is the recursive call
unfoldable pub include_each :
    (Text → List Text → Gyp (List Text)) → List Text → List Text → Gyp (List Text)
include_each visit [] included = ok included
include_each visit (file ∷ files) included = visit file included >>= include_each visit files

unfoldable pub included_from : Included → ℕ → Text → List Text → Gyp (List Text)
included_from aux_data zero path included = raise out_of_fuel
included_from aux_data (suc f) path included =
    let onward = λ (files : List Text).
      include_each (included_from aux_data f) files (included ++ path ∷ []) in
    if contains path included
    then ok included
    else elim (lookup path aux_data) [ none ↦ raise (key_error path) | some files ↦ onward files ]

unfoldable pub get_included_build_files : Included → Text → Gyp (List Text)
get_included_build_files aux_data path = included_from aux_data (length aux_data + 1) path []
