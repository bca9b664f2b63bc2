-- ===== src/Samples/Loading.antt =====
-- The loading of build files of src/tools/pylib_dbg/input.py at concrete inputs.
use dcfpe.Common.{
  Bool, Eq, ◌==◌, text_eq_iff, Option, if◌then◌else◌, ℕ, ◌≡◌, ◌≢◌, ◌↔◌, ◌⊎◌, refl, true, false,
  none, some, List, [], ◌∷◌, All, Text, codes, text_eq, text_Eq, contains, Nodup, Dict, lookup,
  has_key, insert, remove, erase, arith,
}
use dcfpe.Common.Results.{ok, raise}
use dcfpe.Gyp.Value.{
  Value, str, dict, list, list_items, field, no_fields, put, no_items, Targets, text_at, truth_at,
}
use dcfpe.Gyp.Errors.{Error, key_error, out_of_fuel}
use dcfpe.Gyp.Names.Brackets.{find_enclosing_bracket_group}
use dcfpe.Gyp.Names.Groups.{HasGroup, find_enclosing_bracket_group_iff}
use dcfpe.Gyp.Graph.{Graph, add, dependencies_of}
use dcfpe.Gyp.Graph.Traversal.{
  link_dependencies_internal, link_from, link_checked, link_each_dependency, visit_kind,
}
use dcfpe.Gyp.Graph.Linked.{IsCollected}
use dcfpe.Gyp.Graph.Ended.{link_dependencies_internal_outcomes}
use dcfpe.Gyp.Parallel.{
  ParallelState, Loaded, schedule, update, load_target_build_file_callback, pop_last, loop_turn,
  waits, starts, ended, initially, exits, Reached, begin, start, wait, finish,
}
use dcfpe.Gyp.Parallel.Complete.{AllLoaded, loop_turn-starts_once, Reached-wakes, loop_turn-ended}
use dcfpe.Gyp.Includes.{Included, get_included_build_files}
use dcfpe.Gyp.Includes.Reached.{IsIncluded, get_included_build_files_outcomes}
use dcfpe.Gyp.Checked.{
  constant_key, Ast, constant_node, list_node, dict_node, no_nodes, node, no_entries, entry, Tree,
  check_node,
}
use dcfpe.Gyp.Checked.Literal.{literal, is_literal, names_key, check_node_iff}
use dcfpe.Gyp.Toolsets.{
  toolset_key, toolsets_key, targets_key, process_toolsets_in_dict, expand_targets, expand_list,
  expand_each, expand_target, toolsets_of, sequence_of, copies, iterate, expand_value,
}
use dcfpe.Gyp.Toolsets.Idempotent.{process_toolsets_in_dict-idempotent}

find_enclosing_bracket_group_iff_example :
    (find_enclosing_bracket_group (codes "<(a[0])b") ≡ some (some 1, 7))
    ↔ HasGroup 0 (codes "<(a[0])b") (some 1) 7
find_enclosing_bracket_group_iff_example =
    find_enclosing_bracket_group_iff (codes "<(a[0])b") (some 1) 7

group_found : find_enclosing_bracket_group (codes "<(a[0])b") ≡ some (some 1, 7)
unfolding find_enclosing_bracket_group
group_found = refl

abbrev app : Text
app = codes "app"

abbrev lib : Text
lib = codes "lib"

abbrev typed : Text → Text → Text × Dict Text Value
typed name type = (name, (codes "target_name", str name) ∷ (codes "type", str type) ∷ [])

-- An executable that depends on a static library.
abbrev app_and_lib : Targets
app_and_lib = typed app (codes "executable") ∷ typed lib (codes "static_library") ∷ []

abbrev app_on_lib : Graph
app_on_lib = record {
  nodes =
      (app, record { dependencies = some lib ∷ []; dependents = [] })
      ∷ (lib, record { dependencies = none ∷ []; dependents = app ∷ [] })
      ∷ [];
  root_dependents = lib ∷ [];
}

app_links : link_dependencies_internal app_and_lib app_on_lib true app ≡ ok (app ∷ lib ∷ [])
unfolding link_dependencies_internal link_from link_checked link_each_dependency visit_kind
    dependencies_of add contains text_eq lookup has_key text_at truth_at
app_links = refl

nodes_known : (m : Text) → has_key m app_and_lib ≡ true → has_key m app_on_lib.nodes ≡ true
unfolding has_key
nodes_known m h = h

link_dependencies_internal_outcomes_example :
    ((e : Error) × (link_dependencies_internal app_and_lib app_on_lib true app ≡ raise e)
      × (e ≢ out_of_fuel))
    ⊎ ((out : List Text) × (link_dependencies_internal app_and_lib app_on_lib true app ≡ ok out)
        × Nodup out
        × All (IsCollected app_and_lib app_on_lib true app) out)
link_dependencies_internal_outcomes_example =
    link_dependencies_internal_outcomes app_and_lib app_on_lib true app nodes_known

-- The file app depends on the file lib.
abbrev app_needs_lib : Text → List Text
app_needs_lib s = if text_eq s app then lib ∷ [] else []

abbrev app_loaded : Loaded
app_loaded = record {
  build_file_path = app;
  file_data = [];
  aux_data = [];
  dependencies = lib ∷ [];
}

abbrev lib_loaded : Loaded
lib_loaded = record { build_file_path = lib; file_data = []; aux_data = []; dependencies = [] }

abbrev state : (loaded : List Text) → ℕ → (scheduled waiting : List Text) → ParallelState
state loaded pending scheduled waiting = record {
  target_build_files = loaded;
  file_data = [];
  aux_data = [];
  pending = pending;
  scheduled = scheduled;
  dependencies = waiting;
  error = false;
  waiting = false;
}

app-Nodup : Nodup (app ∷ [])
unfolding contains
app-Nodup = (refl, tt)

starts_app : loop_turn (initially (app ∷ [])) ≡ starts app (state [] 1 (app ∷ []) [])
unfolding loop_turn pop_last initially
starts_app = refl

app_running : Reached app_needs_lib (app ∷ []) 1 (state [] 1 (app ∷ []) []) (app ∷ [])
unfolding initially
app_running = start begin refl starts_app

app_waits : loop_turn (state [] 1 (app ∷ []) []) ≡ waits
unfolding loop_turn pop_last
app_waits = refl

app_finished :
    Reached app_needs_lib (app ∷ []) 2 (state (app ∷ []) 0 (app ∷ lib ∷ []) (lib ∷ [])) []
unfolding contains text_eq erase load_target_build_file_callback schedule update add
app_finished = finish app (some app_loaded) app_running refl (refl, refl)

starts_lib :
    loop_turn (state (app ∷ []) 0 (app ∷ lib ∷ []) (lib ∷ []))
    ≡ starts lib (state (app ∷ []) 1 (app ∷ lib ∷ []) [])
unfolding loop_turn pop_last
starts_lib = refl

lib_finished : Reached app_needs_lib (app ∷ []) 4 (state (app ∷ lib ∷ []) 0 (app ∷ lib ∷ []) []) []
unfolding contains text_eq erase load_target_build_file_callback schedule update add
lib_finished = finish lib (some lib_loaded) (start app_finished refl starts_lib) refl (refl, refl)

both_ended : loop_turn (state (app ∷ lib ∷ []) 0 (app ∷ lib ∷ []) []) ≡ ended
unfolding loop_turn
both_ended = refl

no_exit : exits (state (app ∷ lib ∷ []) 0 (app ∷ lib ∷ []) []) ≡ false
unfolding exits
no_exit = refl

loop_turn-starts_once_example : (contains lib (app ∷ []) ≡ false) × (contains lib [] ≡ false)
loop_turn-starts_once_example =
    loop_turn-starts_once app_needs_lib (app ∷ []) 2
      (state (app ∷ []) 0 (app ∷ lib ∷ []) (lib ∷ [])) (state (app ∷ []) 1 (app ∷ lib ∷ []) []) []
      lib app-Nodup app_finished starts_lib

-- The loop waits for the first file.
abbrev asleep : ParallelState
asleep = record (state [] 1 (app ∷ []) []) { waiting = true }

Reached-wakes_example :
    ((file : Text) × (contains file (app ∷ []) ≡ true))
    × ((result : Option Loaded) → (load_target_build_file_callback result asleep).waiting ≡ false)
Reached-wakes_example =
    Reached-wakes app_needs_lib (app ∷ []) 1 asleep (app ∷ []) app-Nodup
      (wait app_running refl app_waits) refl

loop_turn-ended_example :
    AllLoaded app_needs_lib (app ∷ []) (state (app ∷ lib ∷ []) 0 (app ∷ lib ∷ []) []) []
loop_turn-ended_example =
    loop_turn-ended app_needs_lib (app ∷ []) 4 (state (app ∷ lib ∷ []) 0 (app ∷ lib ∷ []) []) []
      app-Nodup lib_finished both_ended no_exit

-- Two files that include each other.
abbrev circle : Included
circle = (app, lib ∷ []) ∷ (lib, app ∷ []) ∷ []

get_included_build_files_outcomes_example :
    ((out : List Text) × (get_included_build_files circle app ≡ ok out)
      × Nodup out
      × ((file : Text) → (contains file out ≡ true) ↔ IsIncluded circle app file))
    ⊎ ((file : Text) × (get_included_build_files circle app ≡ raise (key_error file))
        × (has_key file circle ≡ false)
        × IsIncluded circle app file)
get_included_build_files_outcomes_example = get_included_build_files_outcomes circle app

-- A string or an int.
data Constant : Type 0 where
  string : Text → Constant
  number : ℕ → Constant

unfoldable same_constant : (a b : Constant) → Bool
same_constant (string s) (string t) = text_eq s t
same_constant (number m) (number n) = m == n
same_constant _ _ = false

same_constant_iff : (a b : Constant) → (same_constant a b ≡ true) ↔ (a ≡ b)
unfolding same_constant
same_constant_iff (string s) (string t) = ground (arith, text_eq_iff s t)
same_constant_iff (number m) (number n) = ground arith
same_constant_iff (string s) (number n) = ground arith
same_constant_iff (number m) (string t) = ground arith

instance abbrev constant_eq : Eq Constant
constant_eq = record { equals = same_constant; equals_iff = same_constant_iff }

-- {"app": [1], 1: "app"}
abbrev small_tree : Ast Constant
small_tree = dict_node (
    entry (constant_key (string app)) (list_node (node (constant_node (number 1)) no_nodes))
      (entry (constant_key (number 1)) (constant_node (string app)) no_entries))

check_node_iff_example :
    (is_literal small_tree ≡ true → check_node small_tree [] ≡ ok (literal small_tree))
    × ((v : Tree Constant) → check_node small_tree [] ≡ ok v → is_literal small_tree ≡ true)
check_node_iff_example = check_node_iff small_tree []

small_tree_literal : is_literal small_tree ≡ true
unfolding is_literal names_key same_constant
small_tree_literal = refl

abbrev host_and_target : Value
host_and_target = list (put (str (codes "host")) (put (str (codes "target")) no_items))

abbrev with_targets : List Value → Value
with_targets vs = dict (field targets_key (list (list_items vs)) no_fields)

abbrev two_toolsets : Value
two_toolsets = with_targets (dict (field toolsets_key host_and_target no_fields) ∷ [])

abbrev one_each : Value
one_each = with_targets (
    dict (field toolset_key (str (codes "target")) no_fields)
    ∷ dict (field toolset_key (str (codes "host")) no_fields)
    ∷ [])

toolsets_expanded : process_toolsets_in_dict true two_toolsets ≡ ok one_each
unfolding process_toolsets_in_dict expand_targets expand_list expand_each expand_target toolsets_of
    sequence_of copies iterate expand_value lookup has_key insert remove text_eq
toolsets_expanded = refl

process_toolsets_in_dict-idempotent_example : process_toolsets_in_dict true one_each ≡ ok one_each
process_toolsets_in_dict-idempotent_example =
    process_toolsets_in_dict-idempotent true two_toolsets one_each toolsets_expanded
