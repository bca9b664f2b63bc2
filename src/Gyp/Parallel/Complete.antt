-- ===== src/Gyp/Parallel/Complete.antt =====
-- The loading of build files in parallel, of src/tools/pylib_dbg/input.py: no file is loaded twice,
-- the loop does not wait in vain, it ends, and in the end every file that is needed is loaded.
use dcfpe.Common.{
  Option, some, none, ℕ, ◌+◌, ◌<◌, ◌≡◌, refl, sym, ◌∙◌, ap, subst, inl, inr, ◌↔◌, Bool, true, false,
  not, ◌||◌, List, [], ◌∷◌, ◌==◌, if◌then◌else◌, length, Text, text_Eq, =?_refl, contains, Nodup,
  count, count-snoc, contains-count, count-contains, Nodup-count, Nodup-of_count, Bool-cases,
  Option-cases, arith,
}
use dcfpe.Gyp.Parallel.{
  initially, Loaded, load_target_build_file_callback, begin, start, wait, finish, ParallelState,
  pop_last, Turn, ended, waits, starts, is_nonempty, loop_turn, exits, Reached, IsNeeded, asked,
  depended,
}
use dcfpe.Gyp.Parallel.Invariant.{Inv, pop_last-none, loop_turn-Started}
use dcfpe.Gyp.Parallel.Needed.{Reached-Inv}

-- What the loop finds in each of its turns but a start.
data Quiet (s : ParallelState) : Turn → Type 0 where
  all_done : s.dependencies ≡ [] → s.pending ≡ 0 → Quiet s ended
  failed : s.error ≡ true → Quiet s ended
  outstanding : s.error ≡ false → 0 < s.pending → Quiet s waits
  started : {file : Text} {s' : ParallelState} → Quiet s (starts file s')

is_nonempty-nil : (l : List Text) → is_nonempty l ≡ false → l ≡ []
is_nonempty-nil [] h = refl
is_nonempty-nil (x ∷ l) h = absurd (ground arith)

else_turn : (b : Bool) (t : Turn) → b ≡ false → (if b then ended else t) ≡ t
else_turn b t h = rw h refl

loop_turn-Quiet : (s : ParallelState) → Quiet s (loop_turn s)
unfolding loop_turn
loop_turn-Quiet s = elim (Bool-cases (not (is_nonempty s.dependencies || not (s.pending == 0)))) [
  | inl done ↦
      let e : loop_turn s ≡ ended = (rw (loop_turn, done) refl) in
      subst (Quiet s) (sym e)
        (all_done (is_nonempty-nil s.dependencies (ground arith)) (ground arith))
  | inr more ↦ elim (Bool-cases s.error) [
    | inl failing ↦
        let e : loop_turn s ≡ ended = (rw (loop_turn, more, failing) refl) in
        subst (Quiet s) (sym e) (failed failing)
    | inr no_error ↦ elim (Option-cases (pop_last s.dependencies)) [
      | inr ((file, before), popped) ↦
          let going : ParallelState = record s { dependencies = before; pending = s.pending + 1 } in
          let e : loop_turn s ≡ starts file going =
            else_turn _ _ more ∙ (else_turn _ _ no_error ∙ rw popped refl) in
          subst (Quiet s) (sym e) started
      | inl nothing ↦
          let e : loop_turn s ≡ waits =
            else_turn _ _ more ∙ (else_turn _ _ no_error ∙ rw nothing refl) in
          let none_left = ap is_nonempty (pop_last-none s.dependencies nothing) in
          subst (Quiet s) (sym e) (outstanding no_error (ground arith))
    ]
  ]
]

-- Whatever the order of the callbacks: when the loop hands the pool a call for a file, that file is
-- not loaded and no call for it is outstanding.
pub loop_turn-starts_once :
    (depends : Text → List Text) (build_files : List Text) (n : ℕ) (s s' : ParallelState)
    (running : List Text) (file : Text)
    → Nodup build_files
    → Reached depends build_files n s running
    → loop_turn s ≡ starts file s'
    → (contains file s.target_build_files ≡ false) × (contains file running ≡ false)
unfolding count
loop_turn-starts_once depends build_files n s s' running file d r e =
    let i = Reached-Inv depends build_files d r in
    let t = loop_turn-Started s file s' e in
    let one = Nodup-count file s.scheduled i.nodup in
    let total = i.placed file in
    let here = ap (count file) t.last in
    let snoc = count-snoc file file t.before in
    let same = =?_refl file in
    (
      ground (arith, contains-count file s.target_build_files),
      ground (arith, contains-count file running),
    )

-- When the loop turns to waiting, a call is outstanding.
loop_turn-waits :
    (depends : Text → List Text) (build_files : List Text) (n : ℕ) (s : ParallelState)
    (running : List Text)
    → Nodup build_files
    → Reached depends build_files n s running
    → loop_turn s ≡ waits
    → 0 < length running
loop_turn-waits depends build_files n s running d r e =
    let i = Reached-Inv depends build_files d r in by_turn i (loop_turn s) e (loop_turn-Quiet s)
  where
    by_turn :
        Inv depends build_files n s running
        → (t : Turn) → t ≡ waits
        → Quiet s t
        → 0 < length running
    by_turn i t e (all_done _ _) = cc
    by_turn i t e (failed _) = cc
    by_turn i t e (outstanding no_error some_pending) = omega (arith, i.outstanding no_error)
    by_turn i t e started = cc

some_running :
    (running : List Text) → 0 < length running → (file : Text) × (contains file running ≡ true)
unfolding contains
some_running [] h = absurd (omega arith)
some_running (file ∷ running) h = (file, ground (arith, =?_refl file))

callback-awake :
    (result : Option Loaded) (s : ParallelState)
    → (load_target_build_file_callback result s).waiting ≡ false
unfolding load_target_build_file_callback
callback-awake none s = refl
callback-awake (some result) s = refl

awake_still : {b : Bool} → b ≡ false → b ≡ true → ⊥
awake_still f t = ground arith

started_awake :
    (s : ParallelState) (file : Text) (s' : ParallelState)
    → s.waiting ≡ false
    → loop_turn s ≡ starts file s'
    → s'.waiting ≡ true
    → ⊥
started_awake s file s' awake e w =
    let t = loop_turn-Started s file s' e in
    awake_still (sym (ap (λ u. u.waiting) t.next) ∙ awake) w

-- The loop never waits in vain, whatever the order of the callbacks: while it waits, a call is
-- outstanding, and the callback of whichever call comes back, with a result or without, wakes it.
pub Reached-wakes :
    (depends : Text → List Text) (build_files : List Text) (n : ℕ) (s : ParallelState)
    (running : List Text)
    → Nodup build_files
    → Reached depends build_files n s running
    → s.waiting ≡ true
    → ((file : Text) × (contains file running ≡ true))
      × ((result : Option Loaded) → (load_target_build_file_callback result s).waiting ≡ false)
unfolding initially
Reached-wakes depends build_files n s running d r waiting =
    (asleep r waiting, λ result. callback-awake result s)
  where
    asleep :
        {m : ℕ} {t : ParallelState} {calls : List Text}
        → Reached depends build_files m t calls
        → t.waiting ≡ true
        → (file : Text) × (contains file calls ≡ true)
    asleep begin w = absurd (ground arith)
    asleep (start {s = t} {file = f} r awake e) w = absurd (started_awake t f _ awake e w)
    asleep (wait {n = k} {s = t} {running = calls} r awake e) w =
        some_running calls (loop_turn-waits depends build_files k t calls d r e)
    asleep (finish {s = t} file result r there is_result) w =
        absurd (awake_still (callback-awake result t) w)

length_zero : (l : List Text) → length l ≡ 0 → l ≡ []
length_zero [] h = refl
length_zero (x ∷ l) h = absurd (omega arith)

-- No call is outstanding, no file is loaded twice, and the loaded files are those that are needed.
abbrev pub AllLoaded : (Text → List Text) → List Text → ParallelState → List Text → Type 0
AllLoaded depends build_files s running =
    (running ≡ [])
    × Nodup s.target_build_files
    × ((file : Text)
        → (contains file s.target_build_files ≡ true) ↔ IsNeeded depends build_files file)

module _ (depends : Text → List Text) (build_files : List Text) {n : ℕ} {s : ParallelState}
    {running : List Text} (i : Inv depends build_files n s running) (no_error : s.error ≡ false)
    (no_deps : s.dependencies ≡ []) (none_pending : s.pending ≡ 0) where
  none_running : running ≡ []
  none_running = length_zero running (omega (arith, i.outstanding no_error))

  loaded_iff_scheduled : (x : Text) → contains x s.target_build_files ≡ contains x s.scheduled
  unfolding count
  loaded_iff_scheduled x = ground (
    arith,
    i.all_placed x no_error,
    ap (count x) no_deps,
    ap (count x) none_running,
    contains-count x s.scheduled,
    count-contains x s.scheduled,
    contains-count x s.target_build_files,
    count-contains x s.target_build_files,
  )

  needed_loaded :
      {file : Text} → IsNeeded depends build_files file → contains file s.target_build_files ≡ true
  needed_loaded (asked {file} h) = loaded_iff_scheduled file ∙ i.roots file h
  needed_loaded (depended {file} {dependency} k h) =
      loaded_iff_scheduled dependency ∙ i.closed file dependency (needed_loaded k) h

  idle_loaded : AllLoaded depends build_files s running
  idle_loaded = (
    none_running,
    Nodup-of_count s.target_build_files
        (λ x. omega (arith, i.placed x, Nodup-count x s.scheduled i.nodup)),
    λ file. (λ h. i.needed file (sym (loaded_iff_scheduled file) ∙ h), λ k. needed_loaded k),
  )

-- When the loop has ended and no call has failed, the loaded files are those that were asked for and
-- those that they depend on, directly or through others, each loaded once, and no call is outstanding.
pub loop_turn-ended :
    (depends : Text → List Text) (build_files : List Text) (n : ℕ) (s : ParallelState)
    (running : List Text)
    → Nodup build_files
    → Reached depends build_files n s running
    → loop_turn s ≡ ended
    → exits s ≡ false
    → AllLoaded depends build_files s running
unfolding exits
loop_turn-ended depends build_files n s running d r e no_error =
    by_turn (Reached-Inv depends build_files d r) (loop_turn s) e (loop_turn-Quiet s)
  where
    by_turn :
        Inv depends build_files n s running
        → (t : Turn) → t ≡ ended
        → Quiet s t
        → AllLoaded depends build_files s running
    by_turn i t e (failed error) = absurd (ground arith)
    by_turn i t e (outstanding _ _) = cc
    by_turn i t e started = cc
    by_turn i t e (all_done no_deps none_pending) =
        idle_loaded depends build_files i no_error no_deps none_pending
