-- ===== src/Samples/Graphs.antt =====
-- The dependency graph of src/tools/pylib_dbg/input.py at concrete targets.
use dcfpe.Common.{
  ℕ, ◌≡◌, ◌≢◌, ◌⊎◌, ◌↔◌, refl, true, false, none, some, List, [], ◌∷◌, Text, codes, text_eq,
  text_Eq, insert, text_eq_iff, contains, Nodup, keys, has_key, lookup, Bool-cases, arith,
}
use dcfpe.Common.Results.{ok, raise}
use dcfpe.Gyp.Value.{Value, list, no_items, put, str, texts_at, Targets}
use dcfpe.Gyp.Errors.{dependency_not_found, circular}
use dcfpe.Gyp.Graph.{
  Graph, build_graph, build_dependency_list, link_targets, link_target, link_each, unlinked,
  link_root, modify, link, create_nodes, dependencies_of, dependents_of, flatten_to_list,
  flatten_from, to_set, add, add_ready, all_in, pop,
}
use dcfpe.Gyp.Graph.Wiring.{depends_on, IsClosed, IsGraphOf}
use dcfpe.Gyp.Graph.Unknown.{build_graph_outcomes}
use dcfpe.Gyp.Graph.Building.{
  IsRanked, IsBuildOrder, Reaches, direct, build_dependency_list-IsBuildOrder,
  build_dependency_list_outcomes, build_dependency_list_cycle,
}
use dcfpe.Gyp.Graph.Traversal.{deep_dependencies}
use dcfpe.Gyp.Graph.Deep.{deep_dependencies-Reaches}
use dcfpe.Gyp.Pruning.{want_roots, wanted_names}
use dcfpe.Gyp.Pruning.Wanted.{want_roots-IsBuildOrder}
use dcfpe.Gyp.Pruning.Kept.{IsWanted}

abbrev a : Text
a = codes "a"

abbrev b : Text
b = codes "b"

abbrev on : Text → Text × List (Text × Value)
on t = (t, (codes "dependencies", list (put (str b) no_items)) ∷ [])

-- `a` depends on `b`.
abbrev a_on_b : Targets
a_on_b = on a ∷ (b, []) ∷ []

-- `b` depends on itself.
abbrev b_on_b : Targets
b_on_b = on b ∷ []

abbrev first : List Text → ℕ
first l = 0

a_on_b-Nodup : Nodup (keys a_on_b)
unfolding contains text_eq
a_on_b-Nodup = (refl, (refl, tt))

abbrev built : Graph
built = record {
  nodes =
      (a, record { dependencies = some b ∷ []; dependents = [] })
      ∷ (b, record { dependencies = none ∷ []; dependents = a ∷ [] })
      ∷ [];
  root_dependents = b ∷ [];
}

run_a_on_b : build_dependency_list first a_on_b ≡ ok (built, b ∷ a ∷ [])
unfolding build_dependency_list build_graph contains text_eq lookup has_key insert texts_at
    link_targets link_target link_each unlinked link_root modify link create_nodes dependencies_of
    dependents_of flatten_to_list flatten_from to_set add add_ready all_in pop
run_a_on_b = refl

built-a_on_b : build_graph a_on_b ≡ ok built
unfolding build_graph contains text_eq lookup has_key insert texts_at link_targets link_target
    link_each unlinked link_root modify link create_nodes dependencies_of dependents_of
built-a_on_b = refl

build_dependency_list-IsBuildOrder_example : IsBuildOrder a_on_b (b ∷ a ∷ [])
build_dependency_list-IsBuildOrder_example =
    build_dependency_list-IsBuildOrder first a_on_b built (b ∷ a ∷ []) a_on_b-Nodup run_a_on_b

b_on_b_raises : build_dependency_list first b_on_b ≡ raise circular
unfolding build_dependency_list build_graph contains text_eq lookup has_key insert texts_at
    link_targets link_target link_each unlinked link_root modify link create_nodes dependencies_of
    dependents_of flatten_to_list flatten_from to_set add add_ready all_in pop
b_on_b_raises = refl

build_dependency_list_outcomes_example :
    ((g : Graph) × (flat : List Text) × (build_dependency_list first a_on_b ≡ ok (g, flat))
      × IsClosed a_on_b)
    ⊎ ((d t : Text) × (build_dependency_list first a_on_b ≡ raise (dependency_not_found d t))
        × (depends_on a_on_b t d ≡ true)
        × (has_key d a_on_b ≡ false))
    ⊎ ((build_dependency_list first a_on_b ≡ raise circular)
        × IsClosed a_on_b
        × ((rank : Text → ℕ) → ¬ IsRanked a_on_b rank))
build_dependency_list_outcomes_example = build_dependency_list_outcomes first a_on_b a_on_b-Nodup

b_on_b-Nodup : Nodup (keys b_on_b)
unfolding contains text_eq
b_on_b-Nodup = (refl, tt)

b_depends : depends_on b_on_b b b ≡ true
unfolding contains text_eq lookup texts_at
b_depends = refl

b-Reaches : Reaches b_on_b b b
b-Reaches = direct b_depends

build_dependency_list_cycle_example : build_dependency_list first b_on_b ≢ ok (built, b ∷ [])
build_dependency_list_cycle_example =
    build_dependency_list_cycle first b_on_b b built (b ∷ []) b_on_b-Nodup b-Reaches

build_graph_outcomes_example :
    ((g : Graph) × (build_graph a_on_b ≡ ok g) × IsClosed a_on_b × IsGraphOf a_on_b g)
    ⊎ ((d t : Text) × (build_graph a_on_b ≡ raise (dependency_not_found d t))
        × (depends_on a_on_b t d ≡ true)
        × (has_key d a_on_b ≡ false))
build_graph_outcomes_example = build_graph_outcomes a_on_b a_on_b-Nodup

a_on_b-IsClosed : IsClosed a_on_b
unfolding contains text_eq lookup has_key texts_at
a_on_b-IsClosed m n h =
    ground (arith, Bool-cases (text_eq m a), Bool-cases (text_eq m b), text_eq_iff n b)

deep_dependencies-Reaches_example :
    (out : List Text) × (deep_dependencies built a ≡ ok out)
    × Nodup out
    × ((d : Text) → contains d out ≡ true → Reaches a_on_b a d)
    × ((d : Text) → Reaches a_on_b a d → contains d out ≡ true)
deep_dependencies-Reaches_example =
    deep_dependencies-Reaches a_on_b built a a_on_b-Nodup built-a_on_b a_on_b-IsClosed

a_on_b-IsBuildOrder : IsBuildOrder a_on_b (b ∷ a ∷ [])
a_on_b-IsBuildOrder =
    build_dependency_list-IsBuildOrder first a_on_b built (b ∷ a ∷ []) a_on_b-Nodup run_a_on_b

b_known : (root : Text) → contains root (b ∷ []) ≡ true → has_key root a_on_b ≡ true
unfolding contains has_key
b_known root h = ground arith

want_roots-IsBuildOrder_example :
    (wanted : Targets) × (want_roots a_on_b built (b ∷ []) [] ≡ ok wanted)
    × ((t : Text) → (has_key t wanted ≡ true) ↔ IsWanted a_on_b (b ∷ []) t)
    × ((t : Text) → has_key t wanted ≡ true → lookup t wanted ≡ lookup t a_on_b)
    × IsBuildOrder wanted (wanted_names wanted (b ∷ a ∷ []))
want_roots-IsBuildOrder_example =
    want_roots-IsBuildOrder a_on_b built (b ∷ []) (b ∷ a ∷ []) a_on_b-Nodup built-a_on_b
      a_on_b-IsClosed b_known a_on_b-IsBuildOrder
