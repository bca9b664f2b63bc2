-- ===== src/Gyp/Graph/Cycles/Verified.antt =====
-- When `VerifyNoGYPFileCircularDependencies` of src/tools/pylib_dbg/input.py raises.
use dcfpe.Common.{
  =?_refl, false, has_key_missing, ℕ, ◌<◌, ◌≡◌, refl, sym, ◌∙◌, ap, subst, inl, inr, ◌⊎◌, ◌↔◌, true,
  false, List, [], ◌∷◌, ◌==◌, ==_iff, length, map, Text, text_Eq, text_eq_iff, texts_Eq, contains,
  Nodup, Dict, lookup, has_key, insert, keys, Nodup-insert, length-keys, Option-cases,
  lookup-has_key, Bool-cases, arith,
}
use dcfpe.Common.Results.{ok, raise}
use dcfpe.Gyp.Value.{Targets, texts_at}
use dcfpe.Gyp.Graph.Linking.{is_nil}
use dcfpe.Gyp.Errors.{dependency_not_found, circular_files}
use dcfpe.Gyp.Graph.{
  Node, Graph, empty_node, create_nodes, dependencies_of, dependents_of, dependencies_key,
}
use dcfpe.Gyp.Graph.Wiring.{
  IsGraphOf, IsClosed, depends_on, depends_on-target, has_none, lookup-create_nodes,
  has_key-create_nodes,
}
use dcfpe.Gyp.Graph.Flatten.{flatten_to_list-Inv}
use dcfpe.Gyp.Graph.Building.{
  IsBuildOrder, Inv-IsBuildOrder, ranked-length, position, dependency_first,
}
use dcfpe.Gyp.Graph.Cycles.{
  ref_among, followers, link_roots, build_file_graph, verify_no_gyp_file_circular_dependencies,
}
use dcfpe.Gyp.Graph.Cycles.Rounds.{IsCycle, find_cycles_iff}
use dcfpe.Gyp.Graph.Cycles.Files.{
  file_depends, HasFiles, link_files-FileLinked, link_files-LinkOutcome,
}
use dcfpe.Gyp.Graph.Cycles.Links.{has_root, IsLinkedUp, FileLinked}
use dcfpe.Gyp.Graph.Cycles.Rooted.{
  table, keys-table, has_key-table, depends_on-table, keys-link_roots, link_roots-IsGraphOf,
}

Nodup-create_nodes :
    (ts : List Text) (nodes : Dict Text Node)
    → Nodup (keys nodes)
    → Nodup (keys (create_nodes ts nodes))
unfolding create_nodes
Nodup-create_nodes [] nodes n = n
Nodup-create_nodes (t ∷ ts) nodes n = elim (Bool-cases (has_key t nodes)) [
  | inl old ↦ rw old (Nodup-create_nodes ts nodes n)
  | inr new ↦
      rw new (Nodup-create_nodes ts (insert t empty_node nodes) (Nodup-insert t empty_node nodes n))
]

contains-map :
    (f : Text → Text) (t : Text) (ts : List Text)
    → contains t ts ≡ true
    → contains (f t) (map f ts) ≡ true
unfolding contains
contains-map f t [] h = absurd (ground arith)
contains-map f t (u ∷ ts) h =
    ground (arith, contains-map f t ts, text_eq_iff t u, text_eq_iff (f t) (f u), ap f)

has_none-target : (m : Text) (ts : Targets) → has_none (lookup m ts) ≡ true → has_key m ts ≡ true
has_none-target m ts h = elim (Option-cases (lookup m ts)) [
  | inl absent ↦ absurd (ground (arith, ap has_none absent))
  | inr (spec, found) ↦ lookup-has_key m spec ts found
]

is_nil_iff : (ds : List Text) → (is_nil ds ≡ true) ↔ ((n : Text) → contains n ds ≡ false)
unfolding contains
is_nil_iff [] = ((λ h n. refl), (λ h. refl))
is_nil_iff (d ∷ ds) = ((λ h. absurd (ground arith)), (λ h. absurd (ground (arith, h d, =?_refl d))))

-- A target without dependencies.
has_none_iff :
    (m : Text) (ts : Targets)
    → (has_none (lookup m ts) ≡ true)
      ↔ ((has_key m ts ≡ true) × ((n : Text) → depends_on ts m n ≡ false))
has_none_iff m ts = elim (Option-cases (lookup m ts)) [
  | inl absent ↦
      rw (absent, has_key_missing m ts absent)
        ((λ h. absurd (ground arith)), (λ h. absurd (ground (arith, h.0))))
  | inr (spec, found) ↦
      rw (found, lookup-has_key m spec ts found)
        (
          (λ h. (refl, (is_nil_iff (texts_at dependencies_key spec)).0 h)),
          (λ h. (is_nil_iff (texts_at dependencies_key spec)).1 h.1),
        )
]

module _ (build_file_of : Text → Text) (targets : Targets) where
  abbrev files : List Text
  files = map build_file_of (keys targets)

  abbrev unlinked_files : Graph
  unlinked_files = record { nodes = create_nodes files []; root_dependents = [] }

  no_dependencies : (m : Text) → dependencies_of unlinked_files m ≡ []
  unfolding dependencies_of lookup
  no_dependencies m = ap (λ n. n.dependencies) (lookup-create_nodes m files [])

  no_dependents : (m : Text) → dependents_of unlinked_files m ≡ []
  unfolding dependents_of lookup
  no_dependents m = ap (λ n. n.dependents) (lookup-create_nodes m files [])

  unlinked-IsLinkedUp : IsLinkedUp unlinked_files
  unfolding has_root contains ref_among
  unlinked-IsLinkedUp = record {
    no_root = λ m. ap has_root (no_dependencies m);
    both_ways =
        λ m n. ap (contains m) (no_dependents n) ∙ sym (ap (ref_among n) (no_dependencies m));
    rootless = refl;
  }

  has_key-files : (m : Text) → has_key m unlinked_files.nodes ≡ contains m files
  unfolding has_key
  has_key-files m = ground (arith, has_key-create_nodes m files [])

  unlinked-HasFiles : HasFiles build_file_of targets unlinked_files
  unlinked-HasFiles t h =
      has_key-files (build_file_of t) ∙ contains-map build_file_of t (keys targets) h

  -- A measure that falls along the dependencies of files on other files.
  abbrev pub FilesRanked : (Text → ℕ) → Type 0
  FilesRanked rank = (a b : Text) → file_depends build_file_of targets a b ≡ true → rank b < rank a

  module _ (g : Graph) (f : FileLinked (file_depends build_file_of targets) unlinked_files g) where
    abbrev rooted : Graph
    rooted = link_roots (keys g.nodes) g

    abbrev up : IsLinkedUp g
    up = f.linked_up unlinked-IsLinkedUp

    depends_on-files :
        (m n : Text) → depends_on (table g.nodes) m n ≡ file_depends build_file_of targets m n
    unfolding ref_among
    depends_on-files m n =
        depends_on-table g m n
        ∙ (f.dependencies m n ∙ ground (arith, ap (ref_among n) (no_dependencies m)))

    table-IsClosed : IsClosed (table g.nodes)
    table-IsClosed m n h =
        has_key-table n g.nodes ∙ (f.same_keys n ∙ f.known m n (sym (depends_on-files m n) ∙ h))

    table-Nodup : Nodup (keys (table g.nodes))
    table-Nodup = subst Nodup (sym (keys-table g.nodes ∙ f.listed)) (Nodup-create_nodes files [] tt)

    same_length : length (table g.nodes) ≡ length rooted.nodes
    same_length =
        sym (length-keys (table g.nodes))
        ∙ (ap length (keys-table g.nodes)
            ∙ (sym (ap length (keys-link_roots g up)) ∙ length-keys rooted.nodes))

    graph : IsGraphOf (table g.nodes) rooted
    graph = link_roots-IsGraphOf g up

    -- The dependents of the root are the files without dependencies.
    roots_iff :
        (m : Text)
        → (contains m rooted.root_dependents ≡ true) ↔ (
            (contains m files ≡ true)
            × ((n : Text) → file_depends build_file_of targets m n ≡ false))
    roots_iff m =
        let named = has_key-table m g.nodes ∙ (f.same_keys m ∙ has_key-files m) in
        let alone = has_none_iff m (table g.nodes) in
        (
          (λ h.
              let found = alone.0 (sym (graph.roots m) ∙ h) in
              (sym named ∙ found.0, λ n. sym (depends_on-files m n) ∙ found.1 n)),
          (λ h. graph.roots m ∙ alone.1 (named ∙ h.0, λ n. depends_on-files m n ∙ h.1 n)),
        )

    followers-known :
        (path : List Text) (node : Text)
        → contains node (followers rooted path) ≡ true
        → has_key node rooted.nodes ≡ true
    unfolding followers
    followers-known [] node h =
        graph.nodes node ∙ has_none-target node (table g.nodes) (sym (graph.roots node) ∙ h)
    followers-known (last ∷ path) node h =
        graph.nodes node
        ∙ depends_on-target node last (table g.nodes) (sym (graph.dependents node last) ∙ h)

    ordered_ranked :
        (out : List Text) → IsBuildOrder (table g.nodes) out → FilesRanked (λ a. position a out)
    unfolding contains
    ordered_ranked out o a b h =
        let dep = depends_on-files a b ∙ h in
        dependency_first (table g.nodes) [] out a b o.ordered
          (o.same_targets a ∙ depends_on-target a b (table g.nodes) dep) refl dep

-- The check for cycles among .gyp files ends, in one of three ways. It returns, and then some measure
-- falls along every dependency of a file on another. It fails for a file that some file depends on and
-- that holds no target. Or it fails with a list of cycles, and then no measure falls along these
-- dependencies, and the list has exactly the cycles that close a path from the root along dependents:
-- a file's dependents are the files that depend on it, and the root's are the files of targets that
-- depend on no other file.
pub verify_no_gyp_file_circular_dependencies_outcomes :
    (build_file_of : Text → Text) (pick : List Text → ℕ) (targets : Targets)
    → ((rank : Text → ℕ) × (verify_no_gyp_file_circular_dependencies build_file_of pick targets
          ≡ ok tt)
        × FilesRanked build_file_of targets rank)
      ⊎ ((d file : Text) × (verify_no_gyp_file_circular_dependencies build_file_of pick targets
            ≡ raise (dependency_not_found d file))
          × (file_depends build_file_of targets file d ≡ true)
          × (contains d (map build_file_of (keys targets)) ≡ false))
      ⊎ ((g : Graph) × (cycles : List (List Text)) × (verify_no_gyp_file_circular_dependencies
              build_file_of pick targets
            ≡ raise (circular_files cycles))
          × ((rank : Text → ℕ) → ¬ FilesRanked build_file_of targets rank)
          × ((m n : Text) → contains m (dependents_of g n) ≡ file_depends build_file_of targets m n)
          × ((m : Text)
              → (contains m g.root_dependents ≡ true) ↔ (
                  (contains m (map build_file_of (keys targets)) ≡ true)
                  × ((n : Text) → file_depends build_file_of targets m n ≡ false)))
          × ((cycle : List Text) → (contains cycle cycles ≡ true) ↔ IsCycle g cycle))
unfolding verify_no_gyp_file_circular_dependencies build_file_graph
verify_no_gyp_file_circular_dependencies_outcomes build_file_of pick targets =
    elim (link_files-LinkOutcome build_file_of targets (unlinked_files build_file_of targets)
      (unlinked-HasFiles build_file_of targets)) [
        | inr (d, file, e, needs, unknown) ↦
            inr (
              inl
                (d, file, rw e refl, needs, sym (has_key-files build_file_of targets d) ∙ unknown))
        | inl (g, e) ↦
            let f =
              link_files-FileLinked build_file_of targets (unlinked_files build_file_of targets) g
                (unlinked-HasFiles build_file_of targets) e in
            let after = rooted build_file_of targets g f in
            let gr = graph build_file_of targets g f in
            let nd = table-Nodup build_file_of targets g f in
            let (out, e', i) = flatten_to_list-Inv pick (table g.nodes) after gr in
            let lengths = same_length build_file_of targets g f in
            elim (Bool-cases (length out == length after.nodes)) [
              | inl same ↦ inl (
                λ a. position a out,
                rw (e, e', same) refl,
                ordered_ranked build_file_of targets g f out (
                    Inv-IsBuildOrder (table g.nodes) nd after gr out i
                      ((==_iff _ _).0 same ∙ sym lengths)),
              )
              | inr differ ↦
                  let (cycles, e'', cycles_iff) =
                    find_cycles_iff after (followers-known build_file_of targets g f) in
                  inr (
                    inr (
                      after,
                      cycles,
                      rw (e, e', differ, e'') refl,
                      λ rank ranked. ground (
                        arith,
                        lengths,
                        ranked-length (table g.nodes) nd after gr out i
                            (table-IsClosed build_file_of targets g f) rank
                            (λ t d h.
                              ranked t d
                                (sym (depends_on-files build_file_of targets g f t d) ∙ h)),
                      ),
                      λ m n. gr.dependents m n ∙ depends_on-files build_file_of targets g f m n,
                      roots_iff build_file_of targets g f,
                      cycles_iff,
                    ))
            ]
      ]
