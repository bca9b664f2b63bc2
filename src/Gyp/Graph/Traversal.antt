-- ===== src/Gyp/Graph/Traversal.antt =====
-- The traversals of class DependencyGraphNode in src/tools/pylib_dbg/input.py: direct, imported,
-- deep and link dependencies. The recursions run on fuel that bounds their depth by the number of
-- nodes: each call is made for a name that was not in the ordered set before.
use dcfpe.Common.{
  ℕ, zero, suc, ◌+◌, Bool, true, false, not, ◌&&◌, ◌||◌, Option, none, some, List, [], ◌∷◌, ◌++◌,
  if◌then◌else◌, length, Text, codes, text_Eq, text_eq, contains, Dict, lookup, has_key,
}
use dcfpe.Common.Results.{ok, raise, ◌>>=◌}
use dcfpe.Gyp.Value.{Value, Targets, texts_at, text_at, truth_at}
use dcfpe.Gyp.Errors.{Gyp, key_error, missing_target_name, missing_type, out_of_fuel}
use dcfpe.Gyp.Graph.{Graph, dependencies_of, add}

-- The loop of `DirectDependencies`: refs that are not None and not there yet are appended.
unfoldable pub direct_from : List (Option Text) → List Text → List Text
direct_from [] acc = acc
direct_from (none ∷ refs) acc = direct_from refs acc
direct_from (some d ∷ refs) acc = direct_from refs (add d acc)

unfoldable pub direct_dependencies : Graph → Text → List Text
direct_dependencies g t = direct_from (dependencies_of g t) []

abbrev pub export_key : Text
export_key = codes "export_dependent_settings"

-- The exported names that are not in the list yet, in the order in which they are inserted.
unfoldable pub new_imports : List Text → List Text → List Text
new_imports whole [] = []
new_imports whole (e ∷ es) =
    let old = new_imports whole es in
    let new = e ∷ new_imports (e ∷ whole) es in if contains e whole then old else new

-- The loop of `_AddImportedDependencies`: `done` is dependencies[:index], and `todo` the rest. What
-- a dependency exports is inserted behind it.
unfoldable pub import_from : Targets → ℕ → List Text → List Text → Gyp (List Text)
import_from targets zero done todo = raise out_of_fuel
import_from targets (suc f) done [] = ok done
import_from targets (suc f) done (d ∷ todo) = elim (lookup d targets) [
  | none ↦ raise (key_error d)
  | some spec ↦
      import_from targets f (done ++ d ∷ [])
        (new_imports (done ++ d ∷ todo) (texts_at export_key spec) ++ todo)
]

unfoldable pub add_imported_dependencies : Targets → List Text → Gyp (List Text)
add_imported_dependencies targets dependencies =
    import_from targets (length targets + 1) [] dependencies

unfoldable pub direct_and_imported_dependencies : Targets → Graph → Text → Gyp (List Text)
direct_and_imported_dependencies targets g t =
    add_imported_dependencies targets (direct_dependencies g t)

-- The loop of `DeepDependencies`; `visit` is the recursive call.
unfoldable pub deep_each :
    (Text → List Text → Gyp (List Text)) → List (Option Text) → List Text → Gyp (List Text)
deep_each visit [] acc = ok acc
deep_each visit (none ∷ refs) acc = deep_each visit refs acc
deep_each visit (some d ∷ refs) acc =
    let seen = deep_each visit refs acc in
    let unseen = (visit d (add d acc) >>= deep_each visit refs) in
    if contains d acc then seen else unseen

unfoldable pub deep_from : Graph → ℕ → Text → List Text → Gyp (List Text)
deep_from g zero t acc = raise out_of_fuel
deep_from g (suc f) t acc = deep_each (deep_from g f) (dependencies_of g t) acc

unfoldable pub deep_dependencies : Graph → Text → Gyp (List Text)
deep_dependencies g t = deep_from g (length g.nodes + 1) t []

abbrev pub linkable_types : List Text
linkable_types = codes "executable" ∷ codes "shared_library" ∷ codes "loadable_module" ∷ []

-- `target_type == name`, for the value of "type"
abbrev pub has_type : Option Text → Text → Bool
has_type none name = false
has_type (some t) name = text_eq t name

abbrev pub is_linkable : Option Text → Bool
is_linkable none = false
is_linkable (some t) = contains t linkable_types

-- What `_LinkDependenciesInternal` does with a target before it looks at its dependencies.
pub data Visit : Type 0 where
  leave_out : Visit
  only_itself : Visit
  itself_and_on : Visit

unfoldable pub visit_kind : (include_shared initial : Bool) → Dict Text Value → Visit
visit_kind include_shared initial spec =
    let type = text_at (codes "type") spec in
    if initial && not (is_linkable type)
    then leave_out
    else if has_type type (codes "none") && not (truth_at (codes "dependencies_traverse") true spec)
    then only_itself
    else if not initial
        && (has_type type (codes "executable") || has_type type (codes "loadable_module"))
    then leave_out
    else if not initial && (has_type type (codes "shared_library") && not include_shared)
    then leave_out
    else if initial || not (is_linkable type)
    then itself_and_on
    else only_itself

unfoldable pub link_each_dependency :
    (Text → List Text → Gyp (List Text)) → List (Option Text) → List Text → Gyp (List Text)
link_each_dependency visit [] acc = ok acc
link_each_dependency visit (none ∷ refs) acc = link_each_dependency visit refs acc
link_each_dependency visit (some d ∷ refs) acc = visit d acc >>= link_each_dependency visit refs

module _ (targets : Targets) (g : Graph) (include_shared : Bool) where
  unfoldable pub link_checked :
      (Text → List Text → Gyp (List Text))
      → Text
      → Bool
      → List Text
      → Dict Text Value
      → Gyp (List Text)
  link_checked visit t initial acc spec =
      let onward = link_each_dependency visit (dependencies_of g t) (add t acc) in
      if not (has_key (codes "target_name") spec)
      then raise missing_target_name
      else if not (has_key (codes "type") spec)
      then raise (missing_type t)
      else elim (visit_kind include_shared initial spec) [
        | leave_out ↦ ok acc
        | only_itself ↦ ok (add t acc)
        | itself_and_on ↦ if contains t acc then ok acc else onward
      ]

  unfoldable pub link_from : ℕ → Text → Bool → List Text → Gyp (List Text)
  unfolding link_checked visit_kind link_each_dependency
  link_from zero t initial acc = raise out_of_fuel
  link_from (suc f) t initial acc = elim (lookup t targets) [
    | none ↦ raise (key_error t)
    | some spec ↦ link_checked (λ d. link_from f d false) t initial acc spec
  ]

  unfoldable pub link_dependencies_internal : Text → Gyp (List Text)
  link_dependencies_internal t = link_from (length g.nodes + 1) t true []

unfoldable pub dependencies_to_link_against : Targets → Graph → Text → Gyp (List Text)
dependencies_to_link_against targets g t = link_dependencies_internal targets g true t

unfoldable pub dependencies_for_link_settings : Targets → Graph → Text → Gyp (List Text)
dependencies_for_link_settings targets g t = elim (lookup t targets) [
  | none ↦ raise (key_error t)
  | some spec ↦
      link_dependencies_internal targets g
        (truth_at (codes "allow_sharedlib_linksettings_propagation") true spec) t
]
