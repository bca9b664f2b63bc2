-- ===== src/Gyp/Parallel.antt =====
-- The loading of build files by a pool of processes: class ParallelState and
-- `LoadTargetBuildFilesParallel` of src/tools/pylib_dbg/input.py. The loop and the callbacks take
-- turns under a lock, so that a run is a sequence of steps. The pool itself is outside the model: it
-- runs the calls it was given in any order, and calls back once for each. So is the load of one file
-- in a process: what it depends on is a parameter.
pub mod Needed
pub mod Invariant
pub mod Complete
use dcfpe.Common.{
  ℕ, zero, suc, ◌+◌, ◌-◌, ◌≡◌, Bool, true, false, not, ◌&&◌, ◌||◌, Option, none, some, List, [],
  ◌∷◌, ◌++◌, ◌==◌, if◌then◌else◌, Text, text_Eq, contains, erase, Dict, insert,
}
use dcfpe.Gyp.Value.{Value}
use dcfpe.Gyp.Graph.{add}

-- The fields of `ParallelState`, with `data['target_build_files']` apart from the other keys,
-- `file_data`. Of the condition variable there is whether the loop waits at it: `wait` sets `waiting`
-- and `notify` resets it, and what stands between `acquire` and `release`, or `wait`, is one step. The
-- pool has no field.
pub record ParallelState : Type 0 where
  pub target_build_files : List Text
  pub file_data : Dict Text (Dict Text Value)
  pub aux_data : Dict Text (List Text)
  pub pending : ℕ
  pub scheduled : List Text
  pub dependencies : List Text
  pub error : Bool
  pub waiting : Bool

-- What a process sends back: (build_file_path0, data0, aux_data0, dependencies0)
pub record Loaded : Type 0 where
  pub build_file_path : Text
  pub file_data : Dict Text (Dict Text Value)
  pub aux_data : Dict Text (List Text)
  pub dependencies : List Text

-- `for key in d0: d[key] = d0[key]`
unfoldable pub update {ℓ} : {V : Type ℓ} → Dict Text V → Dict Text V → Dict Text V
update d [] = d
update d ((k, v) ∷ d0) = update (insert k v d) d0

-- the loop over `dependencies0`, on the scheduled files and those that wait
unfoldable pub schedule : List Text → List Text × List Text → List Text × List Text
schedule [] s = s
schedule (d ∷ ds) (scheduled, waiting) =
    let old = schedule ds (scheduled, waiting) in
    let new = schedule ds (add d scheduled, waiting ++ d ∷ []) in
    if contains d scheduled then old else new

unfoldable pub load_target_build_file_callback : Option Loaded → ParallelState → ParallelState
load_target_build_file_callback none s = record s { error = true; waiting = false }
load_target_build_file_callback (some result) s =
    let (scheduled, dependencies) = schedule result.dependencies (s.scheduled, s.dependencies) in
    record {
      target_build_files = add result.build_file_path s.target_build_files;
      file_data = update s.file_data result.file_data;
      aux_data = update s.aux_data result.aux_data;
      pending = s.pending - 1;
      scheduled = scheduled;
      dependencies = dependencies;
      error = s.error;
      waiting = false;
    }

-- `l.pop()`: the last item, and those before it
unfoldable pub pop_last : List Text → Option (Text × List Text)
pop_last [] = none
pop_last (x ∷ xs) = elim (pop_last xs) [
  | none ↦ some (x, [])
  | some (last, before) ↦ some (last, x ∷ before)
]

-- What the loop does when it has the lock: it ends, waits for a callback, or hands the pool a call
-- for a file.
pub data Turn : Type 0 where
  ended : Turn
  waits : Turn
  starts : Text → ParallelState → Turn

abbrev pub is_nonempty : List Text → Bool
is_nonempty [] = false
is_nonempty (d ∷ ds) = true

unfoldable pub loop_turn : ParallelState → Turn
loop_turn s =
    if not (is_nonempty s.dependencies || not (s.pending == 0))
    then ended
    else if s.error
    then ended
    else elim (pop_last s.dependencies) [
      | none ↦ waits
      | some (dependency, before) ↦
          starts dependency (record s { dependencies = before; pending = s.pending + 1 })
    ]

-- The state before the loop, for `build_files` as a list without repetitions.
unfoldable pub initially : List Text → ParallelState
initially build_files = record {
  target_build_files = [];
  file_data = [];
  aux_data = [];
  pending = 0;
  scheduled = build_files;
  dependencies = build_files;
  error = false;
  waiting = false;
}

-- Whether the function exits, with status 1, after the loop and the last callback.
unfoldable pub exits : ParallelState → Bool
exits s = s.error

module _ (depends : Text → List Text) where
  -- A call for a file answers None, or with the file's own path and what it depends on.
  abbrev pub IsResultOf : Text → Option Loaded → Type 0
  IsResultOf job none = Unit
  IsResultOf job (some result) =
      (result.build_file_path ≡ job) × (result.dependencies ≡ depends job)

  -- The state and the calls that are outstanding, after a number of starts and ends of calls. The
  -- loop takes its turns only while it does not wait.
  pub data Reached (build_files : List Text) : ℕ → ParallelState → List Text → Type 0 where
    begin : Reached build_files 0 (initially build_files) []
    start :
        {n : ℕ} {s s' : ParallelState} {running : List Text} {file : Text}
        → Reached build_files n s running
        → s.waiting ≡ false
        → loop_turn s ≡ starts file s'
        → Reached build_files (suc n) s' (file ∷ running)
    wait :
        {n : ℕ} {s : ParallelState} {running : List Text}
        → Reached build_files n s running
        → s.waiting ≡ false
        → loop_turn s ≡ waits
        → Reached build_files n (record s { waiting = true }) running
    finish :
        {n : ℕ} {s : ParallelState} {running : List Text} (file : Text) (result : Option Loaded)
        → Reached build_files n s running
        → contains file running ≡ true
        → IsResultOf file result
        → Reached build_files
            (suc n)
            (load_target_build_file_callback result s)
            (erase file running)

  -- A file that was asked for, or that such a file depends on.
  pub data IsNeeded (build_files : List Text) : Text → Type 0 where
    asked : {file : Text} → contains file build_files ≡ true → IsNeeded build_files file
    depended :
        {file dependency : Text}
        → IsNeeded build_files file
        → contains dependency (depends file) ≡ true
        → IsNeeded build_files dependency
