-- ===== src/Gyp/Parallel/Invariant.antt =====
-- An invariant of the loading of build files in parallel: every scheduled file stands in one place.
use dcfpe.Common.{
  ℕ, suc, ◌+◌, ◌*◌, ◌≤◌, ◌≡◌, refl, ◌∙◌, ap, subst, inl, inr, true, false, not, ◌||◌, none, some,
  List, [], ◌∷◌, ◌++◌, ◌==◌, length, length-append, Text, text_Eq, text_eq_iff, contains, Nodup,
  erase, count, count-snoc, count-erase, length-erase, Bool-cases, Option-cases, arith,
}
use dcfpe.Gyp.Graph.{add}
use dcfpe.Gyp.Graph.Sets.{contains-add, Nodup-add, add_fresh}
use dcfpe.Gyp.Parallel.{
  ParallelState, schedule, pop_last, ended, waits, starts, is_nonempty, loop_turn, initially,
  IsNeeded, asked,
}

pub pop_last-none : (xs : List Text) → pop_last xs ≡ none → xs ≡ []
unfolding pop_last
pop_last-none [] e = refl
pop_last-none (y ∷ ys) e = elim (Option-cases (pop_last ys)) [
  | inl none_left ↦
      let e' : some (y, []) ≡ none = (rw (none_left, pop_last) at e) in absurd (ground arith)
  | inr ((last, rest), popped) ↦
      let e' : some (last, y ∷ rest) ≡ none = (rw (popped, pop_last) at e) in absurd (ground arith)
]

pop_last-some :
    (xs : List Text) (x : Text) (before : List Text)
    → pop_last xs ≡ some (x, before)
    → xs ≡ before ++ x ∷ []
unfolding pop_last
pop_last-some [] x before e = absurd (ground arith)
pop_last-some (y ∷ ys) x before e = elim (Option-cases (pop_last ys)) [
  | inl none_left ↦
      let e' : some (y, []) ≡ some (x, before) = (rw (none_left, pop_last) at e) in
      rw (pop_last-none ys none_left) cc
  | inr ((last, rest), popped) ↦
      let e' : some (last, y ∷ rest) ≡ some (x, before) = (rw (popped, pop_last) at e) in
      ap (λ l. y ∷ l) (pop_last-some ys last rest popped) ∙ cc
]

-- What the loop found when it starts a call, and what it does with the state.
pub record Started (s : ParallelState) (file : Text) (s' : ParallelState) : Type 0 where
  pub before : List Text
  pub no_error : s.error ≡ false
  pub last : s.dependencies ≡ before ++ file ∷ []
  pub next : record s { dependencies = before; pending = s.pending + 1 } ≡ s'

pub loop_turn-Started :
    (s : ParallelState) (file : Text) (s' : ParallelState)
    → loop_turn s ≡ starts file s'
    → Started s file s'
unfolding loop_turn
loop_turn-Started s file s' e =
    elim (Bool-cases (not (is_nonempty s.dependencies || not (s.pending == 0)))) [
      | inl done ↦
          let e' : ended ≡ starts file s' = (rw (done, loop_turn) at e) in absurd (ground arith)
      | inr more ↦ elim (Bool-cases s.error) [
        | inl failed ↦
            let e' : ended ≡ starts file s' = (rw (more, failed, loop_turn) at e) in
            absurd (ground arith)
        | inr no_error ↦ elim (Option-cases (pop_last s.dependencies)) [
          | inl nothing ↦
              let e' : waits ≡ starts file s' = (rw (more, no_error, nothing, loop_turn) at e) in
              absurd (ground arith)
          | inr ((last, before), popped) ↦
              let going : ParallelState = record s {
                dependencies = before;
                pending = s.pending + 1;
              } in
              let e' : starts last going ≡ starts file s' =
                (rw (more, no_error, popped, loop_turn) at e) in
              record {
                before = before;
                no_error = no_error;
                last = pop_last-some s.dependencies last before popped ∙ cc;
                next = cc;
              }
        ]
      ]
    ]

-- How often a file is scheduled, waits, runs or is loaded.
module _ (depends : Text → List Text) (build_files : List Text) where
  pub record Inv (n : ℕ) (s : ParallelState) (running : List Text) : Type 0 where
    pub nodup : Nodup s.scheduled
    pub placed :
        (x : Text)
        → count x s.dependencies + count x running + count x s.target_build_files
          ≤ count x s.scheduled
    pub all_placed :
        (x : Text)
        → s.error ≡ false
        → count x s.dependencies + count x running + count x s.target_build_files
          ≡ count x s.scheduled
    pub outstanding : s.error ≡ false → s.pending ≡ length running
    pub enough : length running ≤ s.pending
    pub roots : (x : Text) → contains x build_files ≡ true → contains x s.scheduled ≡ true
    pub needed : (x : Text) → contains x s.scheduled ≡ true → IsNeeded depends build_files x
    pub closed :
        (x d : Text)
        → contains x s.target_build_files ≡ true
        → contains d (depends x) ≡ true
        → contains d s.scheduled ≡ true
    pub steps : n + 2 * length s.dependencies + length running ≤ 2 * length s.scheduled

  pub Inv-begin : Nodup build_files → Inv 0 (initially build_files) []
  unfolding initially count contains
  Inv-begin n = record {
    nodup = n;
    placed = λ x. omega arith;
    all_placed = λ x e. omega arith;
    outstanding = λ e. refl;
    enough = omega arith;
    roots = λ x h. h;
    needed = λ x h. asked h;
    closed = λ x d h k. absurd (ground arith);
    steps = omega arith;
  }

  pub Inv-start :
      {n : ℕ} {s s' : ParallelState} {running : List Text} {file : Text}
      → Inv n s running
      → Started s file s'
      → Inv (suc n) s' (file ∷ running)
  unfolding count
  Inv-start {n} {s} {s'} {running} {file} i t =
      subst (λ u. Inv (suc n) u (file ∷ running)) t.next
        (record {
          nodup = i.nodup;
          placed = λ x. ground (arith, i.placed x, ap (count x) t.last, count-snoc x file t.before);
          all_placed = λ x e.
              ground (arith, i.all_placed x e, ap (count x) t.last, count-snoc x file t.before);
          outstanding = λ e. omega (arith, i.outstanding e);
          enough = omega (arith, i.enough);
          roots = i.roots;
          needed = i.needed;
          closed = i.closed;
          steps = omega (arith, i.steps, ap length t.last, length-append t.before (file ∷ []));
        })

  pub Inv-failed :
      {n : ℕ} {s : ParallelState} {running : List Text} (file : Text)
      → Inv n s running
      → contains file running ≡ true
      → Inv (suc n) (record s { error = true; waiting = false }) (erase file running)
  Inv-failed {n} {s} {running} file i there = record {
    nodup = i.nodup;
    placed = λ x. ground (arith, i.placed x, count-erase x file running there);
    all_placed = λ x e. absurd (ground arith);
    outstanding = λ e. absurd (ground arith);
    enough = omega (arith, i.enough, length-erase file running there);
    roots = i.roots;
    needed = i.needed;
    closed = i.closed;
    steps = omega (arith, i.steps, length-erase file running there);
  }

  -- What the loop over the new dependencies does with the scheduled files and those that wait.
  pub record Scheduling (ds scheduled waiting scheduled' waiting' : List Text) : Type 0 where
    pub nodup : Nodup scheduled → Nodup scheduled'
    pub same :
        (x : Text) → count x waiting' + count x scheduled ≡ count x waiting + count x scheduled'
    pub members : (x : Text) → contains x scheduled' ≡ (contains x scheduled || contains x ds)
    pub lengths : length waiting' + length scheduled ≡ length waiting + length scheduled'

  pub schedule-Scheduling :
      (ds scheduled waiting : List Text)
      → Scheduling ds scheduled waiting
          (schedule ds (scheduled, waiting)).0
          (schedule ds (scheduled, waiting)).1
  unfolding schedule contains
  schedule-Scheduling [] scheduled waiting = record {
    nodup = λ n. n;
    same = λ x. omega arith;
    members = λ x. ground arith;
    lengths = omega arith;
  }
  schedule-Scheduling (d ∷ ds) scheduled waiting = elim (Bool-cases (contains d scheduled)) [
    | inl old ↦
        let r = schedule-Scheduling ds scheduled waiting in
        rw old (record {
          nodup = r.nodup;
          same = r.same;
          members = λ x. ground (arith, r.members x, text_eq_iff x d);
          lengths = r.lengths;
        })
    | inr new ↦
        let r = schedule-Scheduling ds (add d scheduled) (waiting ++ d ∷ []) in
        let grown = add_fresh d scheduled new in
        rw new (record {
          nodup = λ n. r.nodup (Nodup-add d scheduled n);
          same = λ x. ground (
            arith,
            r.same x,
            ap (count x) grown,
            count-snoc x d scheduled,
            count-snoc x d waiting,
          );
          members = λ x. ground (arith, r.members x, contains-add x d scheduled);
          lengths = omega (
            arith,
            r.lengths,
            ap length grown,
            length-append scheduled (d ∷ []),
            length-append waiting (d ∷ []),
          );
        })
  ]
