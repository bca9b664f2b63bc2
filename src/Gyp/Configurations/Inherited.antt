-- ===== src/Gyp/Configurations/Inherited.antt =====
-- How deep `MergeConfigWithInheritance` of src/tools/pylib_dbg/input.py goes into parents.
use dcfpe.Common.{
  none, codes, remove, ◌≡◌, ℕ, true, false, some, List, [], ◌∷◌, ◌++◌, Text, text_Eq, contains,
  Nodup, Dict, lookup, keys,
}
use dcfpe.Common.Results.{ok, raise, ◌>>=◌}
use dcfpe.Gyp.Value.{Value, texts_at}
use dcfpe.Gyp.Errors.{Gyp, Error, key_error}
use dcfpe.Gyp.Merge.{merge_dicts}
use dcfpe.Gyp.Paths.{PathTools}
use dcfpe.Gyp.Configurations.{fields_of, merge_parents, merge_config_with_inheritance}

-- The configurations on the way down: known ones, each once.
record IsVisited (configs : Dict Text Value) (visited : List Text) : Type 0 where
  distinct : Nodup visited
  known : (a : Text) → contains a visited ≡ true → contains a (keys configs) ≡ true

module _ (tools : PathTools) (path_sections : List Text) (file : Text)
    (configs : Dict Text Value) where
  -- What is done with a configuration when its parents are merged in.
  abbrev pub merge_own : Value → Dict Text Value → Gyp (Dict Text Value)
  merge_own config merged =
      merge_dicts tools path_sections file file merged (fields_of config) >>= λ merged.
      ok (remove (codes "abstract") merged)

  -- Merging configurations into `new`, one after the other, each behind its parents, and what comes
  -- of it. A configuration whose parents are being merged is not gone into again. Nothing here runs
  -- on fuel: there is an outcome only where the recursion ends.
  pub data Inherits
      : (visited : List Text)
        → Dict Text Value
        → (configurations : List Text) → Gyp (Dict Text Value)
        → Type 0 where
    none_left : {visited : List Text} {new : Dict Text Value} → Inherits visited new [] (ok new)
    skipped :
        {visited : List Text} {new : Dict Text Value} {c : Text} {cs : List Text}
        {out : Gyp (Dict Text Value)}
        → contains c visited ≡ true
        → Inherits visited new cs out
        → Inherits visited new (c ∷ cs) out
    unknown :
        {visited : List Text} {new : Dict Text Value} {c : Text} {cs : List Text}
        → contains c visited ≡ false
        → lookup c configs ≡ none
        → Inherits visited new (c ∷ cs) (raise (key_error c))
    failed :
        {visited : List Text} {new : Dict Text Value} {c : Text} {cs : List Text} {config : Value}
        {parents : Gyp (Dict Text Value)} {e : Error}
        → contains c visited ≡ false
        → lookup c configs ≡ some config
        → Inherits
            (visited ++ c ∷ [])
            new
            (texts_at (codes "inherit_from") (fields_of config))
            parents
        → (parents >>= merge_own config) ≡ raise e
        → Inherits visited new (c ∷ cs) (raise e)
    merged :
        {visited : List Text} {new after : Dict Text Value} {c : Text} {cs : List Text}
        {config : Value} {parents out : Gyp (Dict Text Value)}
        → contains c visited ≡ false
        → lookup c configs ≡ some config
        → Inherits
            (visited ++ c ∷ [])
            new
            (texts_at (codes "inherit_from") (fields_of config))
            parents
        → (parents >>= merge_own config) ≡ ok after
        → Inherits visited after cs out
        → Inherits visited new (c ∷ cs) out

  module _ (build_file : Text → Text) where
    abbrev parents_by : ℕ → List Text → List Text → Dict Text Value → Gyp (Dict Text Value)
    parents_by f visited cs new =
        merge_parents tools path_sections build_file
          (merge_config_with_inheritance tools path_sections build_file f file configs visited) cs
          new
