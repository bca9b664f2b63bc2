-- ===== src/Gyp/Paths.antt =====
-- `MakePathRelative` of src/tools/pylib_dbg/input.py. The functions of os.path, which depend on the
-- platform, and gyp.common.RelativePath are parameters.
use dcfpe.Common.{
  ℕ, Bool, false, ◌&&◌, ◌||◌, none, some, [], ◌∷◌, ◌++◌, map, ◌==◌, if◌then◌else◌, Text, text_eq,
  get_last?,
}
use dcfpe.Common.Results.{ok, raise}
use dcfpe.Gyp.Errors.{Gyp, index_error}

pub record PathTools : Type 0 where
  pub dirname : Text → Text
  pub join : Text → Text → Text
  pub normpath : Text → Text
  pub relative_path : (path relative_to : Text) → Text

-- the class [-/$<>^]
unfoldable pub is_exception : ℕ → Bool
is_exception c = c == b'-' || (c == b'/' || (c == b'$' || (c == b'<' || (c == b'>' || c == b'^'))))

-- `exception_re.match(item)`, for the expression ["']?[-/$<>^]
unfoldable pub matches_exception : Text → Bool
unfolding is_exception
matches_exception [] = false
matches_exception (c ∷ []) = is_exception c
matches_exception (c ∷ d ∷ s) = is_exception c || ((c == b'"' || c == b'\'') && is_exception d)

-- `.replace('\\', '/')`
unfoldable pub forward_slashes : Text → Text
forward_slashes = map (λ c. if c == b'\\' then b'/' else c)

unfoldable pub make_path_relative : PathTools → (to_file fro_file item : Text) → Gyp Text
make_path_relative tools to_file fro_file item =
    let moved = forward_slashes (
      tools.normpath
        (tools.join (tools.relative_path (tools.dirname fro_file) (tools.dirname to_file)) item)) in
    if text_eq to_file fro_file || matches_exception item then ok item else elim (get_last? item) [
      | none ↦ raise index_error
      | some c ↦ ok (if c == b'/' then moved ++ b'/' ∷ [] else moved)
    ]
