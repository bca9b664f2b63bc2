-- ===== src/Samples/Cycles.antt =====
-- The check for cycles among .gyp files of src/tools/pylib_dbg/input.py at concrete targets.
use dcfpe.Common.{
  false, ℕ, ◌≡◌, ◌⊎◌, ◌↔◌, refl, true, false, List, [], ◌∷◌, map, Text, codes, text_eq, text_Eq,
  texts_Eq, contains, distinct, Dict, lookup, has_key, insert, keys, take,
}
use dcfpe.Common.Results.{ok, raise}
use dcfpe.Gyp.Value.{Value, list, put, str, no_items, texts_at, Targets}
use dcfpe.Gyp.Errors.{dependency_not_found, circular_files}
use dcfpe.Gyp.Graph.{
  Graph, create_nodes, link, link_root, modify, dependencies_of, dependents_of, flatten_to_list,
  flatten_from, to_set, add, add_ready, all_in, pop,
}
use dcfpe.Gyp.Graph.Cycles.{
  followers, up_to, cycles_each, cycles_from, find_cycles, ref_among, link_file, link_files,
  link_roots, build_file_graph, verify_no_gyp_file_circular_dependencies,
}
use dcfpe.Gyp.Graph.Cycles.Rounds.{IsCycle}
use dcfpe.Gyp.Graph.Cycles.Files.{file_depends}
use dcfpe.Gyp.Graph.Cycles.Verified.{FilesRanked, verify_no_gyp_file_circular_dependencies_outcomes}

-- A target's name starts with the one letter of its file.
abbrev file_of : Text → Text
file_of t = take 1 t

abbrev first : List Text → ℕ
first l = 0

abbrev on : Text → Text → Text × Dict Text Value
on t d = (t, (codes "dependencies", list (put (str d) no_items)) ∷ [])

-- Two files that depend on each other only.
abbrev each_other : Targets
each_other = on (codes "a:x") (codes "b:x") ∷ on (codes "b:x") (codes "a:x") ∷ []

-- The same, with one more target that depends on a third file.
abbrev with_third : Targets
with_third = on (codes "a:y") (codes "c:x") ∷ (codes "c:x", []) ∷ each_other

-- The error for two files in a circle names no cycle: the search starts at files without dependencies.
no_cycle_named :
    verify_no_gyp_file_circular_dependencies file_of first each_other ≡ raise (circular_files [])
unfolding verify_no_gyp_file_circular_dependencies build_file_graph link_files link_file link_roots
    find_cycles cycles_from cycles_each followers up_to distinct ref_among create_nodes link
    link_root modify dependencies_of dependents_of flatten_to_list flatten_from to_set add add_ready
    all_in pop contains text_eq lookup has_key insert texts_at
no_cycle_named = refl

cycle_named :
    verify_no_gyp_file_circular_dependencies file_of first with_third
    ≡ raise (circular_files ((codes "a" ∷ codes "b" ∷ codes "a" ∷ []) ∷ []))
unfolding verify_no_gyp_file_circular_dependencies build_file_graph link_files link_file link_roots
    find_cycles cycles_from cycles_each followers up_to distinct ref_among create_nodes link
    link_root modify dependencies_of dependents_of flatten_to_list flatten_from to_set add add_ready
    all_in pop contains text_eq lookup has_key insert texts_at
cycle_named = refl

verify_no_gyp_file_circular_dependencies_outcomes_example :
    ((rank : Text → ℕ) × (verify_no_gyp_file_circular_dependencies file_of first with_third ≡ ok tt)
      × FilesRanked file_of with_third rank)
    ⊎ ((d file : Text) × (verify_no_gyp_file_circular_dependencies file_of first with_third
          ≡ raise (dependency_not_found d file))
        × (file_depends file_of with_third file d ≡ true)
        × (contains d (map file_of (keys with_third)) ≡ false))
    ⊎ ((g : Graph) × (cycles : List (List Text)) × (verify_no_gyp_file_circular_dependencies file_of
            first with_third
          ≡ raise (circular_files cycles))
        × ((rank : Text → ℕ) → ¬ FilesRanked file_of with_third rank)
        × ((m n : Text) → contains m (dependents_of g n) ≡ file_depends file_of with_third m n)
        × ((m : Text)
            → (contains m g.root_dependents ≡ true) ↔ (
                (contains m (map file_of (keys with_third)) ≡ true)
                × ((n : Text) → file_depends file_of with_third m n ≡ false)))
        × ((cycle : List Text) → (contains cycle cycles ≡ true) ↔ IsCycle g cycle))
verify_no_gyp_file_circular_dependencies_outcomes_example =
    verify_no_gyp_file_circular_dependencies_outcomes file_of first with_third
