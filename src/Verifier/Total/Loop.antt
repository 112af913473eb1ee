-- ===== src/Verifier/Total/Loop.antt =====
-- src/verifier.rs: the measure across one round of `verify_function`.
use minilang_rs.Prelude.{
  ℕ, ◌+◌, ◌-◌, ◌≤◌, ◌≡◌, ◌≢◌, ◌∙◌, refl, Bool, true, false, ◌||◌, List, [], ◌∷◌, ◌++◌, Option, none,
  some, arith, length-append, lookup, insert, lookup-insert, contains, if◌then◌else◌, ◌==◌,
  Bool-cases, inl, inr, ◌⊎◌, max,
}
use minilang_rs.Bytecode.{CompiledProgram, Instruction}
use minilang_rs.Verifier.Report.{
  AbstractState, FunctionRange, Step, Log, push_error, inconsistent_depth, successor_leaves_range,
}
use minilang_rs.Verifier.Step.{pc_in_range}
use minilang_rs.Verifier.Rules.{accepted}
use minilang_rs.Verifier.Function.{
  Work, merge, merge_state, add_state, visit_successor, visit_successors, apply_step, after_step,
  process_at,
}
use minilang_rs.Verifier.Total.Width.{HasWidth, Leaves, step_instruction-Leaves}
use minilang_rs.Verifier.Total.Weight.{
  sum, sum-change, count_true, count_true-le-length, length-merge, count_true-merge, weight,
  weight-insert, measure,
}

-- What the loop keeps: each state has the function's locals, and each waiting place a state.
pub record Fits (locals : ℕ) (work : Work) : Type 0 where
  pub widths :
      (q : ℕ) (state : AbstractState) → lookup q work.states ≡ some state → HasWidth locals state
  pub known : (q : ℕ) → contains q work.worklist ≡ true → lookup q work.states ≢ none

-- A part of a round, which adds no work.
pub record Settles (range : FunctionRange) (before after : Work) : Type 0 where
  pub fits : Fits range.info.local_count after
  pub lighter : measure range after ≤ measure range before

-- Only the results of the loop change.
pub quiet :
    (range : FunctionRange) (work : Work)
    → Fits range.info.local_count work
    → (reachable : List ℕ) (max_stack_depth : ℕ) (call_edges : List (ℕ × ℕ)) (log : Log)
    → Settles range work (record work {
      reachable = reachable;
      max_stack_depth = max_stack_depth;
      call_edges = call_edges;
      log = log;
    })
unfolding measure
quiet range work fits reachable max_stack_depth call_edges log = record {
  fits = record { widths = fits.widths; known = fits.known };
  lighter = omega arith;
}

Settles-trans :
    {range : FunctionRange} {a b c : Work}
    → Settles range a b
    → Settles range b c
    → Settles range a c
Settles-trans f g = record { fits = g.fits; lighter = omega (arith, f.lighter, g.lighter) }

contains-last : (q s : ℕ) (xs : List ℕ) → contains q (xs ++ s ∷ []) ≡ (contains q xs || s == q)
contains-last q s [] = ground arith
contains-last q s (x ∷ xs) = ground (arith, contains-last q s xs)

module _ (range : FunctionRange) (s : ℕ) (inside : pc_in_range range s ≡ true) (work : Work)
    (fits : Fits range.info.local_count work) where
  abbrev locals : ℕ
  locals = range.info.local_count

  -- The states and the worklist with a new state at `s`, and `s` added where `again` is true.
  abbrev changed_work : AbstractState → Bool → Work
  changed_work state again = record work {
    states = insert s state work.states;
    worklist = if again then work.worklist ++ s ∷ [] else work.worklist;
  }

  changed-Fits :
      (state : AbstractState) (again : Bool)
      → HasWidth locals state
      → Fits locals (changed_work state again)
  changed-Fits state again width = record {
    widths = λ q st e. width_of q st e (Bool-cases (s == q));
    known = λ q e. known_of q e (Bool-cases (s == q));
  }
    where
      width_of :
          (q : ℕ) (st : AbstractState)
          → lookup q (insert s state work.states) ≡ some st
          → (s == q ≡ true) ⊎ (s == q ≡ false)
          → HasWidth locals st
      width_of q st e (inl p) = ground (arith, lookup-insert s q state work.states, width)
      width_of q st e (inr p) =
          fits.widths q st (ground (arith, lookup-insert s q state work.states))

      known_of :
          (q : ℕ)
          → contains q (if again then work.worklist ++ s ∷ [] else work.worklist) ≡ true
          → (s == q ≡ true) ⊎ (s == q ≡ false)
          → lookup q (insert s state work.states) ≢ none
      known_of q e (inl p) = λ gone. ground (arith, lookup-insert s q state work.states)
      known_of q e (inr p) = λ gone.
          fits.known q (ground (arith, contains-last q s work.worklist))
            (ground (arith, lookup-insert s q state work.states))

  changed-Settles :
      (state : AbstractState) (again : Bool)
      → HasWidth locals state
      → count_true state.initialized_locals + (if again then 1 else 0) ≤ weight locals work.states s
      → Settles range work (changed_work state again)
  unfolding measure pc_in_range
  changed-Settles state again width less = record {
    fits = changed-Fits state again width;
    lighter = go again less;
  }
    where
      change :
          sum (weight locals (insert s state work.states)) range.start (range.end - range.start)
            + weight locals work.states s
          ≡ sum (weight locals work.states) range.start (range.end - range.start)
            + count_true state.initialized_locals
      change =
          let (others, here) = weight-insert locals s state work.states in
          omega (
            arith,
            here,
            sum-change (weight locals work.states) (weight locals (insert s state work.states)) s
                range.start (range.end - range.start) others (ground arith) (ground arith),
          )

      go :
          (again : Bool)
          → count_true state.initialized_locals + (if again then 1 else 0)
            ≤ weight locals work.states s
          → measure range (changed_work state again) ≤ measure range work
      go true less' = omega (arith, change, length-append work.worklist (s ∷ []))
      go false less' = omega (arith, change)

  add_state-Settles :
      (state : AbstractState)
      → lookup s work.states ≡ none
      → HasWidth locals state
      → Settles range work (add_state s state work)
  unfolding add_state weight
  add_state-Settles state fresh width =
      changed-Settles state true width
        (rw fresh (omega (arith, width, count_true-le-length state.initialized_locals)))

  merge_state-Settles :
      (old state : AbstractState)
      → lookup s work.states ≡ some old
      → Settles range work (merge_state s old state work)
  unfolding merge_state weight
  merge_state-Settles old state found = elim (Bool-cases (old.stack_depth == state.stack_depth)) [
    | inl e ↦
        rw (e, merge_state)
          (changed-Settles
            (record old {
              initialized_locals = (merge old.initialized_locals state.initialized_locals).0;
            })
            (merge old.initialized_locals state.initialized_locals).1
            (length-merge old.initialized_locals state.initialized_locals ∙ fits.widths s old found)
            (rw found (count_true-merge old.initialized_locals state.initialized_locals)))
    | inr e ↦
        rw (e, merge_state)
          (quiet range work fits work.reachable work.max_stack_depth work.call_edges
            (push_error (some s) inconsistent_depth work.log))
  ]

visit_successor-Settles :
    (range : FunctionRange) (pc : ℕ) (state : AbstractState) (s : ℕ) (work : Work)
    → HasWidth range.info.local_count state
    → Fits range.info.local_count work
    → Settles range work (visit_successor range pc state s work)
unfolding visit_successor
visit_successor-Settles range pc state s work width fits =
    go (pc_in_range range s) (lookup s work.states) refl refl
  where
    go :
        (inside : Bool) (found : Option AbstractState)
        → pc_in_range range s ≡ inside
        → lookup s work.states ≡ found
        → Settles range work (visit_successor range pc state s work)
    go false found e₁ e₂ =
        rw (e₁, visit_successor)
          (quiet range work fits work.reachable work.max_stack_depth work.call_edges
            (push_error (some pc) successor_leaves_range work.log))
    go true none e₁ e₂ =
        rw (e₁, e₂, visit_successor) (add_state-Settles range s e₁ work fits state e₂ width)
    go true (some old) e₁ e₂ =
        rw (e₁, e₂, visit_successor) (merge_state-Settles range s e₁ work fits old state e₂)

visit_successors-Settles :
    (range : FunctionRange) (pc : ℕ) (state : AbstractState) (successors : List ℕ) (work : Work)
    → HasWidth range.info.local_count state
    → Fits range.info.local_count work
    → Settles range work (visit_successors range pc state successors work)
unfolding visit_successors
visit_successors-Settles range pc state [] work width fits =
    quiet range work fits work.reachable work.max_stack_depth work.call_edges work.log
visit_successors-Settles range pc state (s ∷ successors) work width fits =
    let first = visit_successor-Settles range pc state s work width fits in
    Settles-trans first (visit_successors-Settles range pc state successors _ width first.fits)

after_step-Settles :
    (range : FunctionRange) (pc : ℕ) (r : Option Step × Log) (work : Work)
    → Leaves range.info.local_count r
    → Fits range.info.local_count work
    → Settles range work (after_step range pc r work)
unfolding after_step apply_step
after_step-Settles range pc (none, log) work leaves fits =
    quiet range work fits work.reachable work.max_stack_depth work.call_edges log
after_step-Settles range pc (some step, log) work (accepted width) fits =
    let first = quiet range work fits work.reachable _ _ _ in
    Settles-trans first
      (visit_successors-Settles range pc step.state step.successors _ width first.fits)

pub process_at-Settles :
    (program : CompiledProgram) (range : FunctionRange) (pc : ℕ) (state : AbstractState)
    (instr : Instruction) (work : Work)
    → HasWidth range.info.local_count state
    → Fits range.info.local_count work
    → Settles range work (process_at program range pc state instr work)
unfolding process_at
process_at-Settles program range pc state instr work width fits =
    let first =
      quiet range work fits
        (if contains pc work.reachable then work.reachable else pc ∷ work.reachable)
        (max work.max_stack_depth state.stack_depth) work.call_edges work.log in
    Settles-trans first (
      after_step-Settles range pc _ _
        (step_instruction-Leaves program range pc instr.opcode instr.arg1 instr.arg2 state work.log
          width)
        first.fits)
