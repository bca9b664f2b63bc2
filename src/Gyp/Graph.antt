-- ===== src/Gyp/Graph.antt =====
-- The dependency graph of src/tools/pylib_dbg/input.py: the nodes of class DependencyGraphNode,
-- `BuildDependencyList` and `FlattenToList`. A node is named by its `ref`, since each target has one
-- node; the root node, whose ref is None, is `none`.
pub mod Linking
pub mod Wiring
pub mod Unknown
pub mod Sets
pub mod Order
pub mod Flatten
pub mod Building
pub mod Traversal
pub mod Deep
pub mod Linked
pub mod Ended
pub mod Cycles
use dcfpe.Common.{
  ℕ, zero, suc, ◌+◌, Bool, true, false, not, ◌&&◌, Option, none, some, List, [], ◌∷◌, ◌++◌, ◌==◌,
  if◌then◌else◌, length, map, Text, codes, text_Eq, ◌=?◌, contains, Dict, lookup, has_key, insert,
  keys,
}
use dcfpe.Common.Results.{ok, raise, ◌>>=◌}
use dcfpe.Gyp.Value.{Value, Targets, texts_at}
use dcfpe.Gyp.Errors.{Gyp, dependency_not_found, circular, out_of_fuel}

pub record Node : Type 0 where
  pub dependencies : List (Option Text)
  pub dependents : List Text

pub record Graph : Type 0 where
  pub nodes : Dict Text Node
  pub root_dependents : List Text

abbrev pub empty_node : Node
empty_node = record { dependencies = []; dependents = [] }

abbrev pub node_or_empty : Option Node → Node
node_or_empty none = empty_node
node_or_empty (some n) = n

unfoldable pub dependencies_of : Graph → Text → List (Option Text)
dependencies_of g t = (node_or_empty (lookup t g.nodes)).dependencies

unfoldable pub dependents_of : Graph → Text → List Text
dependents_of g t = (node_or_empty (lookup t g.nodes)).dependents

-- A change of one node's fields.
unfoldable pub modify : Text → (Node → Node) → Dict Text Node → Dict Text Node
modify t f [] = []
modify t f ((u, n) ∷ d) = if t =? u then (u, f n) ∷ d else (u, n) ∷ modify t f d

-- `if target not in dependency_nodes: dependency_nodes[target] = DependencyGraphNode(target)`
unfoldable pub create_nodes : List Text → Dict Text Node → Dict Text Node
create_nodes [] nodes = nodes
create_nodes (t ∷ ts) nodes =
    create_nodes ts (if has_key t nodes then nodes else insert t empty_node nodes)

-- `target_node.dependencies = [root_node]`, `root_node.dependents.append(target_node)`
unfoldable pub link_root : Text → Graph → Graph
link_root t g = record {
  nodes = modify t (λ n. record n { dependencies = none ∷ [] }) g.nodes;
  root_dependents = g.root_dependents ++ t ∷ [];
}

-- `target_node.dependencies.append(dependency_node)`, `dependency_node.dependents.append(target_node)`
unfoldable pub link : Text → Text → Graph → Graph
link t d g = record g {
  nodes =
      modify d (λ n. record n { dependents = n.dependents ++ t ∷ [] })
        (modify t (λ n. record n { dependencies = n.dependencies ++ some d ∷ [] }) g.nodes);
}

-- the loop over one target's dependencies
unfoldable pub link_each : Text → List Text → Graph → Gyp Graph
link_each t [] g = ok g
link_each t (d ∷ ds) g =
    let rest = link_each t ds (link t d g) in
    if has_key d g.nodes then rest else raise (dependency_not_found d t)

unfoldable pub link_target : Text → List Text → Graph → Gyp Graph
link_target t [] g = ok (link_root t g)
link_target t (d ∷ ds) g = link_each t (d ∷ ds) g

abbrev pub dependencies_key : Text
dependencies_key = codes "dependencies"

unfoldable pub link_targets : Targets → Graph → Gyp Graph
link_targets [] g = ok g
link_targets ((t, spec) ∷ targets) g = do
  g' ← link_target t (texts_at dependencies_key spec) g
  link_targets targets g'

-- a node for each target, and no links yet
unfoldable pub unlinked : Targets → Graph
unfolding create_nodes
unlinked targets = record { nodes = create_nodes (keys targets) []; root_dependents = [] }

unfoldable pub build_graph : Targets → Gyp Graph
build_graph targets = link_targets targets (unlinked targets)

-- `add` of a set and of gyp.common.OrderedSet
unfoldable pub add : Text → List Text → List Text
add t ts = if contains t ts then ts else ts ++ t ∷ []

unfoldable pub to_set : List Text → List Text → List Text
to_set [] seen = seen
to_set (t ∷ ts) seen = to_set ts (add t seen)

-- `pop` of a set: which element it takes is up to Python, here to the number given.
unfoldable pub pop : ℕ → Text → List Text → Text × List Text
pop zero t ts = (t, ts)
pop (suc n) t [] = (t, [])
pop (suc n) t (u ∷ ts) = let (v, rest) = pop n u ts in (v, t ∷ rest)

-- `ref in flat_list`, for the ref of a node, which is None at the root
abbrev pub ref_in : List Text → Option Text → Bool
ref_in flat none = false
ref_in flat (some t) = contains t flat

-- `is_in_degree_zero`
unfoldable pub all_in : List Text → List (Option Text) → Bool
all_in flat [] = true
all_in flat (d ∷ ds) = let rest = all_in flat ds in if ref_in flat d then rest else false

unfoldable pub add_ready : Graph → List Text → List Text → List Text → List Text
add_ready g flat [] zeros = zeros
add_ready g flat (t ∷ ts) zeros =
    add_ready g flat ts (if all_in flat (dependencies_of g t) then add t zeros else zeros)

-- The loop of `FlattenToList`: `pick` stands for the order of Python's set.
unfoldable pub flatten_from : (List Text → ℕ) → Graph → ℕ → List Text → List Text → Gyp (List Text)
flatten_from pick g zero flat zeros = raise out_of_fuel
flatten_from pick g (suc f) flat [] = ok flat
flatten_from pick g (suc f) flat (z ∷ zs) =
    let (node, rest) = pop (pick (z ∷ zs)) z zs in
    let flat' = add node flat in
    flatten_from pick g f flat' (add_ready g flat' (dependents_of g node) rest)

unfoldable pub flatten_to_list : (List Text → ℕ) → Graph → Gyp (List Text)
flatten_to_list pick g = flatten_from pick g (length g.nodes + 1) [] (to_set g.root_dependents [])

unfoldable pub build_dependency_list : (List Text → ℕ) → Targets → Gyp (Graph × List Text)
build_dependency_list pick targets = do
  g ← build_graph targets
  flat ← flatten_to_list pick g
  if length flat == length targets then ok (g, flat) else raise circular
