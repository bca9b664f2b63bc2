-- ===== src/Gyp/Pruning.antt =====
-- `PruneUnwantedTargets` of src/tools/pylib_dbg/input.py. `FindQualifiedTargets` and
-- `QualifiedTarget` of gyp.common are parameters.
pub mod Kept
pub mod Wanted
use dcfpe.Common.{
  not, ◌&&◌, ◌||◌, none, some, List, [], ◌∷◌, ◌++◌, ◌==◌, leb, if◌then◌else◌, Text, codes, text_Eq,
  Dict, lookup, has_key, insert,
}
use dcfpe.Common.Results.{ok, raise, ◌>>=◌}
use dcfpe.Gyp.Value.{Value, dict, list, list_items, of_dict, Targets}
use dcfpe.Gyp.Errors.{Gyp, key_error, target_not_found}
use dcfpe.Gyp.Targets.{TargetNames, required, dicts_at}
use dcfpe.Gyp.Settings.{target_at}
use dcfpe.Gyp.Graph.{Graph}
use dcfpe.Gyp.Graph.Traversal.{deep_dependencies}

-- `target.strip()`
unfoldable pub lstrip : Text → Text
lstrip [] = []
lstrip (c ∷ s) = if c == b' ' || (leb 9 c && leb c 13) then lstrip s else c ∷ s

unfoldable pub rstrip : Text → Text
rstrip [] = []
rstrip (c ∷ s) = elim (rstrip s) [
  | [] ↦ if c == b' ' || (leb 9 c && leb c 13) then [] else c ∷ []
  | d ∷ t ↦ c ∷ d ∷ t
]

unfoldable pub strip : Text → Text
strip s = rstrip (lstrip s)

unfoldable pub qualified_roots : (Text → List Text) → List Text → Gyp (List Text)
qualified_roots find_qualified_targets [] = ok []
qualified_roots find_qualified_targets (t ∷ ts) = elim (find_qualified_targets (strip t)) [
  | [] ↦ raise (target_not_found (strip t))
  | q ∷ qs ↦ qualified_roots find_qualified_targets ts >>= λ rest. ok (q ∷ qs ++ rest)
]

-- `wanted_targets[t] = targets[t]`, for each of the names
unfoldable pub want_each : Targets → List Text → Targets → Gyp Targets
want_each targets [] wanted = ok wanted
want_each targets (t ∷ ts) wanted =
    target_at t targets >>= λ d. want_each targets ts (insert t d wanted)

unfoldable pub want_roots : Targets → Graph → List Text → Targets → Gyp Targets
want_roots targets g [] wanted = ok wanted
want_roots targets g (t ∷ ts) wanted = want_each targets (t ∷ []) wanted >>= λ wanted'.
    (if has_key t g.nodes then deep_dependencies g t else raise (key_error t)) >>= λ deep.
    want_each targets deep wanted' >>= want_roots targets g ts

unfoldable pub wanted_names : Targets → List Text → List Text
wanted_names wanted [] = []
wanted_names wanted (t ∷ ts) =
    let rest = wanted_names wanted ts in if has_key t wanted then t ∷ rest else rest

module _ (names : TargetNames) where
  unfoldable pub new_targets : Targets → Text → List (Dict Text Value) → Gyp (List Value)
  new_targets wanted file [] = ok []
  new_targets wanted file (d ∷ ds) = required (codes "target_name") d >>= λ name.
      required (codes "toolset") d >>= λ toolset. new_targets wanted file ds >>= λ rest. ok (
        if has_key (names.qualified_target file name toolset) wanted
        then dict (of_dict d) ∷ rest
        else rest)

  unfoldable pub prune_files :
      Targets → List Text → Dict Text (Dict Text Value) → Gyp (Dict Text (Dict Text Value))
  prune_files wanted [] build_files = ok build_files
  prune_files wanted (f ∷ fs) build_files = elim (lookup f build_files) [
    | none ↦ raise (key_error f)
    | some contents ↦
        if not (has_key (codes "targets") contents)
        then prune_files wanted fs build_files
        else (new_targets wanted f (dicts_at (codes "targets") contents) >>= λ left.
            prune_files wanted fs
              (insert f (insert (codes "targets") (list (list_items left)) contents) build_files))
  ]

  -- The wanted targets and flat list, and the build files.
  unfoldable pub prune_unwanted_targets :
      (find_qualified_targets : Text → List Text → List Text)
      → Targets
      → (flat_list : List Text) → Graph
      → (root_targets target_build_files : List Text) → Dict Text (Dict Text Value)
      → Gyp (Targets × List Text × Dict Text (Dict Text Value))
  prune_unwanted_targets find_qualified_targets targets flat_list g root_targets target_build_files
        build_files =
      qualified_roots (λ t. find_qualified_targets t flat_list) root_targets >>= λ roots.
      want_roots targets g roots [] >>= λ wanted.
      prune_files wanted target_build_files build_files >>= λ pruned.
      ok (wanted, wanted_names wanted flat_list, pruned)
