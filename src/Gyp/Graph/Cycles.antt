-- ===== src/Gyp/Graph/Cycles.antt =====
-- `FindCycles` of class DependencyGraphNode and `VerifyNoGYPFileCircularDependencies` of
-- src/tools/pylib_dbg/input.py. `gyp.common.BuildFile` is a parameter. The root, at which every
-- search starts, is not in the paths of the model: it stands behind their last item. The search runs
-- on fuel that bounds its depth by the number of nodes, since the items of a path are different.
pub mod Links
pub mod Rounds
pub mod Files
pub mod Rooted
pub mod Verified
use dcfpe.Common.{
  ℕ, zero, suc, ◌+◌, Bool, true, false, not, ◌||◌, List, [], ◌∷◌, ◌++◌, ◌==◌, if◌then◌else◌, length,
  map, Option, none, some, Text, text_Eq, texts_Eq, ◌=?◌, contains, distinct, has_key, keys, Dict,
  lookup,
}
use dcfpe.Common.Results.{ok, raise, ◌>>=◌}
use dcfpe.Gyp.Value.{Value, Targets, texts_at}
use dcfpe.Gyp.Errors.{Gyp, dependency_not_found, circular_files, out_of_fuel}
use dcfpe.Gyp.Graph.{
  Node, Graph, create_nodes, link, link_root, dependencies_of, dependents_of, dependencies_key,
  flatten_to_list,
}

-- `self.dependents`, for the first node of a path or the root
unfoldable pub followers : Graph → List Text → List Text
followers g [] = g.root_dependents
followers g (node ∷ path) = dependents_of g node

-- The part of the path up to the node.
unfoldable pub up_to : Text → List Text → List Text
up_to node [] = []
up_to node (part ∷ path) =
    let rest = up_to node path in if part =? node then part ∷ [] else part ∷ rest

-- the loop over the dependents; `visit` is the recursive call
unfoldable pub cycles_each :
    (List Text → Gyp (List (List Text))) → (path dependents : List Text) → Gyp (List (List Text))
cycles_each visit path [] = ok []
cycles_each visit path (node ∷ nodes) =
    let here : Gyp (List (List Text)) = ok ((node ∷ up_to node path) ∷ []) in
    let deeper = visit (node ∷ path) in
    (if contains node path then here else deeper) >>= λ found.
    cycles_each visit path nodes >>= λ rest. ok (found ++ rest)

unfoldable pub cycles_from : Graph → ℕ → List Text → Gyp (List (List Text))
cycles_from g zero path = raise out_of_fuel
cycles_from g (suc f) path =
    cycles_each (cycles_from g f) path (followers g path) >>= λ results. ok (distinct [] results)

-- `root_node.FindCycles()`
unfoldable pub find_cycles : Graph → Gyp (List (List Text))
find_cycles g = cycles_from g (length g.nodes + 1) []

-- `node in build_file_node.dependencies`
unfoldable pub ref_among : Text → List (Option Text) → Bool
ref_among t [] = false
ref_among t (none ∷ refs) = ref_among t refs
ref_among t (some d ∷ refs) = (t =? d) || ref_among t refs

abbrev pub no_refs : List (Option Text) → Bool
no_refs [] = true
no_refs (d ∷ refs) = false

-- the loop that makes files without dependencies depend on the root
unfoldable pub link_roots : List Text → Graph → Graph
link_roots [] g = g
link_roots (file ∷ files) g =
    let alone = link_roots files (link_root file g) in
    let linked = link_roots files g in if no_refs (dependencies_of g file) then alone else linked

module _ (build_file_of : Text → Text) where
  -- the loop over the dependencies of a target of the file
  unfoldable pub link_file : (file : Text) → List Text → Graph → Gyp Graph
  link_file file [] g = ok g
  link_file file (dependency ∷ dependencies) g =
      let other = build_file_of dependency in
      let same = link_file file dependencies g in
      let linked = link_file file dependencies (link file other g) in
      if other =? file
      then same
      else if not (has_key other g.nodes)
      then raise (dependency_not_found other file)
      else if ref_among other (dependencies_of g file)
      then same
      else linked

  unfoldable pub link_files : Targets → Graph → Gyp Graph
  link_files [] g = ok g
  link_files ((target, spec) ∷ targets) g =
      link_file (build_file_of target) (texts_at dependencies_key spec) g >>= link_files targets

  unfoldable pub build_file_graph : Targets → Gyp Graph
  build_file_graph targets =
      link_files targets (record {
        nodes = create_nodes (map build_file_of (keys targets)) [];
        root_dependents = [];
      })
      >>= λ g. ok (link_roots (keys g.nodes) g)

  unfoldable pub verify_no_gyp_file_circular_dependencies :
      (List Text → ℕ) → Targets → Gyp (Unit {0})
  verify_no_gyp_file_circular_dependencies pick targets = build_file_graph targets >>= λ g.
      flatten_to_list pick g >>= λ flat_list.
      let report : Gyp (Unit {0}) = (find_cycles g >>= λ cycles. raise (circular_files cycles)) in
      if length flat_list == length g.nodes then ok tt else report
