-- ===== src/Gyp/Parallel/Needed.antt =====
-- Which files the parallel loader of src/tools/pylib_dbg/input.py has to load.
use dcfpe.Common.{
  ℕ, suc, ◌≡◌, sym, ◌∙◌, ap, subst, inl, inr, true, false, none, some, List, [], ◌∷◌, ◌++◌, Text,
  text_Eq, ◌=?◌, =?_eq, contains, contains-snoc, Nodup, erase, count, count-snoc, count-erase,
  contains-count, count-contains, Nodup-count, length-erase, Bool-cases, arith,
}
use dcfpe.Gyp.Graph.{add}
use dcfpe.Gyp.Graph.Sets.{add_fresh}
use dcfpe.Gyp.Parallel.{
  ParallelState, Loaded, load_target_build_file_callback, IsResultOf, Reached, begin, start, wait,
  finish, depended,
}
use dcfpe.Gyp.Parallel.Invariant.{
  Inv, Inv-begin, Inv-start, Inv-failed, loop_turn-Started, schedule-Scheduling,
}

module _ (depends : Text → List Text) (build_files : List Text) where
  -- A running call's file is not loaded yet, and it was scheduled.
  running_fresh :
      {n : ℕ} {s : ParallelState} {running : List Text} (file : Text)
      → Inv depends build_files n s running
      → contains file running ≡ true
      → (contains file s.target_build_files ≡ false) × (contains file s.scheduled ≡ true)
  running_fresh {n} {s} {running} file i there =
      let one = Nodup-count file s.scheduled i.nodup in
      let some_run = contains-count file running there in
      let total = i.placed file in
      (
        ground (arith, contains-count file s.target_build_files),
        count-contains file s.scheduled (omega arith),
      )

  Inv-finished :
      {n : ℕ} {s : ParallelState} {running : List Text} (file : Text) (result : Loaded)
      → Inv depends build_files n s running
      → contains file running ≡ true
      → IsResultOf depends file (some result)
      → Inv depends build_files
          (suc n)
          (load_target_build_file_callback (some result) s)
          (erase file running)
  unfolding load_target_build_file_callback
  Inv-finished {n} {s} {running} file result i there (path, same) =
      let (fresh, scheduled) = running_fresh file i there in
      let r =
        schedule-Scheduling depends build_files result.dependencies s.scheduled s.dependencies in
      let loaded : add result.build_file_path s.target_build_files
          ≡ s.target_build_files ++ file ∷ [] =
        (rw path (add_fresh file s.target_build_files fresh)) in
      record {
        nodup = r.nodup i.nodup;
        placed = λ x. ground (
          arith,
          i.placed x,
          r.same x,
          count-erase x file running there,
          ap (count x) loaded,
          count-snoc x file s.target_build_files,
        );
        all_placed = λ x e. ground (
          arith,
          i.all_placed x e,
          r.same x,
          count-erase x file running there,
          ap (count x) loaded,
          count-snoc x file s.target_build_files,
        );
        outstanding = λ e. omega (arith, i.outstanding e, length-erase file running there);
        enough = omega (arith, i.enough, length-erase file running there);
        roots = λ x h. r.members x ∙ ground (arith, i.roots x h);
        needed = λ x h. elim (Bool-cases (contains x s.scheduled)) [
          | inl old ↦ i.needed x old
          | inr new ↦
              depended (i.needed file scheduled)
                (ap (contains x) (sym same) ∙ ground (arith, r.members x))
        ];
        closed = λ x d h k. r.members d ∙ elim (Bool-cases (contains x s.target_build_files)) [
          | inl before ↦ ground (arith, i.closed x d before k)
          | inr now ↦
              let is_file : (x =? file) ≡ true =
                ground (arith, ap (contains x) loaded, contains-snoc x file s.target_build_files) in
              let of_file : contains d (depends file) ≡ true =
                subst (λ y. contains d (depends y) ≡ true) (=?_eq x file is_file) k in
              ground (arith, ap (contains d) same)
        ];
        steps = omega (arith, i.steps, r.lengths, length-erase file running there);
      }

  Inv-waiting :
      {n : ℕ} {s : ParallelState} {running : List Text}
      → Inv depends build_files n s running
      → Inv depends build_files n (record s { waiting = true }) running
  Inv-waiting i = record {
    nodup = i.nodup;
    placed = i.placed;
    all_placed = i.all_placed;
    outstanding = i.outstanding;
    enough = i.enough;
    roots = i.roots;
    needed = i.needed;
    closed = i.closed;
    steps = i.steps;
  }

  pub Reached-Inv :
      {n : ℕ} {s : ParallelState} {running : List Text}
      → Nodup build_files
      → Reached depends build_files n s running
      → Inv depends build_files n s running
  unfolding load_target_build_file_callback
  Reached-Inv d begin = Inv-begin depends build_files d
  Reached-Inv d (wait r awake e) = Inv-waiting (Reached-Inv d r)
  Reached-Inv d (start r awake e) =
      Inv-start depends build_files (Reached-Inv d r) (loop_turn-Started _ _ _ e)
  Reached-Inv d (finish file none r there is_result) =
      Inv-failed depends build_files file (Reached-Inv d r) there
  Reached-Inv d (finish file (some result) r there is_result) =
      Inv-finished file result (Reached-Inv d r) there is_result
