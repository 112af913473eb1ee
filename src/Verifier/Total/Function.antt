-- ===== src/Verifier/Total/Function.antt =====
-- src/verifier.rs: the whole of `verify_function` with its fuel.
use minilang_rs.Prelude.{
  ℕ, zero, suc, ◌+◌, ◌-◌, ◌≤◌, ◌<◌, ◌≡◌, ◌≢◌, ap, refl, true, false, List, [], ◌∷◌, Option, none,
  some, arith, length, ltb, lookup, get_elem?-some, ◌==◌, ==_iff, Bool-cases, inl, inr, ◌⊎◌,
}
use minilang_rs.Limits.{isize_max}
use minilang_rs.Bytecode.{CompiledProgram}
use minilang_rs.Verifier.Report.{AbstractState, FunctionRange, push_error, leaves_range}
use minilang_rs.Verifier.Step.{pc_in_range}
use minilang_rs.Verifier.Function.{
  Work, FunctionCheck, process_at, process, run_worklist, initial_work, start_work, worklist_fuel,
  verify_function, summarize,
}
use minilang_rs.Verifier.Certified.Function.{Certifies, verify_function-Certifies}
use minilang_rs.Verifier.Total.Width.{HasWidth}
use minilang_rs.Verifier.Total.Weight.{
  sum-bound, count_true-le-length, length-mark_params, weight, state_weight, measure,
}
use minilang_rs.Verifier.Total.Loop.{Fits, Settles, quiet, process_at-Settles}

popped-lighter :
    (range : FunctionRange) (work : Work) (pc : ℕ) (rest : List ℕ) (fuel : ℕ)
    → work.worklist ≡ pc ∷ rest
    → measure range work < suc fuel
    → measure range (record work { worklist = rest }) < fuel
unfolding measure
popped-lighter range work pc rest fuel e enough = omega (arith, enough, ap length e)

module _ (program : CompiledProgram) (range : FunctionRange)
    (within : range.end ≤ length program.instructions) where
  -- A round on a place that has a state ends, and adds no work.
  process-Settles :
      (pc : ℕ) (work : Work)
      → Fits range.info.local_count work
      → lookup pc work.states ≢ none
      → (work' : Work) × (process program range pc work ≡ some work') × Settles range work work'
  unfolding process pc_in_range
  process-Settles pc work fits known =
      go (Bool-cases (pc_in_range range pc)) (lookup pc work.states) refl
    where
      go :
          ((pc_in_range range pc ≡ true) ⊎ (pc_in_range range pc ≡ false))
          → (found : Option AbstractState) → lookup pc work.states ≡ found
          → (work' : Work) × (process program range pc work ≡ some work') × Settles range work work'
      go (inr e₁) found e₂ = (
        record work { log = push_error (some pc) leaves_range work.log },
        rw (e₁, process),
        quiet range work fits work.reachable work.max_stack_depth work.call_edges
            (push_error (some pc) leaves_range work.log),
      )
      go (inl e₁) none e₂ = absurd (known e₂)
      go (inl e₁) (some state) e₂ =
          let (instr, at) = get_elem?-some program.instructions pc (ground arith) in
          (
            process_at program range pc state instr work,
            rw (e₁, e₂, at, process),
            process_at-Settles program range pc state instr work (fits.widths pc state e₂) fits,
          )

  run_worklist-ends :
      (fuel : ℕ) (work : Work)
      → measure range work < fuel
      → Fits range.info.local_count work
      → (final : Work) × (run_worklist program range fuel work ≡ some final)
  unfolding run_worklist
  run_worklist-ends zero work enough fits = elim enough [ ]
  run_worklist-ends (suc fuel) work enough fits = go (run_worklist-ends fuel) work.worklist refl
    where
      Later : Type 0
      Later =
          (w : Work)
          → measure range w < fuel
          → Fits range.info.local_count w
          → (final : Work) × (run_worklist program range fuel w ≡ some final)

      go :
          Later
          → (todo : List ℕ) → work.worklist ≡ todo
          → (final : Work) × (run_worklist program range (suc fuel) work ≡ some final)
      go later [] e = (work, simp (e, run_worklist))
      go later (pc ∷ rest) e =
          let (work', round, settles) =
            process-Settles pc (record work { worklist = rest }) popped known in
          let (final, rest_of_run) =
            later work' (omega (arith, settles.lighter, lighter)) settles.fits in
          (final, continue_run work' final round rest_of_run)
        where
          continue_run :
              (work' final : Work)
              → process program range pc (record work { worklist = rest }) ≡ some work'
              → run_worklist program range fuel work' ≡ some final
              → run_worklist program range (suc fuel) work ≡ some final
          continue_run work' final round rest_of_run = rw (e, round, run_worklist) rest_of_run

          popped : Fits range.info.local_count (record work { worklist = rest })
          popped = record { widths = fits.widths; known = λ q h. fits.known q (ground (arith, e)) }

          known : lookup pc work.states ≢ none
          known = fits.known pc (ground (arith, e, ==_iff pc pc))

          lighter : measure range (record work { worklist = rest }) < fuel
          lighter = popped-lighter range work pc rest fuel e enough

initial_work-Fits : (range : FunctionRange) → Fits range.info.local_count (start_work range)
unfolding initial_work
initial_work-Fits range = record {
  widths = λ q state e. width_of q state e (Bool-cases (range.start == q));
  known = λ q e. λ gone. ground (arith);
}
  where
    width_of :
        (q : ℕ) (state : AbstractState)
        → lookup q (start_work range).states ≡ some state
        → (range.start == q ≡ true) ⊎ (range.start == q ≡ false)
        → HasWidth range.info.local_count state
    width_of q state e (inl p) =
        ground (arith, length-mark_params range.info.local_count range.info.param_count)
    width_of q state e (inr p) = absurd (ground arith)

initial_work-measure :
    (range : FunctionRange) → measure range (start_work range) < worklist_fuel range
unfolding measure worklist_fuel initial_work weight
initial_work-measure range = omega (
  arith,
  sum-bound (weight range.info.local_count (start_work range).states) (range.info.local_count + 1)
      range.start (range.end - range.start) at_most,
)
  where
    of_state :
        (q : ℕ) (found : Option AbstractState)
        → lookup q (start_work range).states ≡ found
        → state_weight range.info.local_count found ≤ range.info.local_count + 1
    of_state q none e = omega arith
    of_state q (some state) e = omega (
      arith,
      (initial_work-Fits range).widths q state e,
      count_true-le-length state.initialized_locals,
    )

    at_most :
        (q : ℕ)
        → weight range.info.local_count (start_work range).states q ≤ range.info.local_count + 1
    at_most q = of_state q (lookup q (start_work range).states) refl

-- The check is there where the locals can be allocated, whatever it says.
pub verify_function-ends :
    (program : CompiledProgram) (range : FunctionRange)
    → range.info.local_count ≤ isize_max
    → range.end ≤ length program.instructions
    → (check : FunctionCheck) × (verify_function program range ≡ some check)
unfolding verify_function
verify_function-ends program range fits within =
    let (final, e) =
      run_worklist-ends program range within (worklist_fuel range) (start_work range)
        (initial_work-measure range) (initial_work-Fits range) in
    (summarize range final, rw (allocated, e, verify_function) refl)
  where
    allocated : ltb isize_max range.info.local_count ≡ false
    allocated = ground arith

-- `verify_function` gives a check for every function whose locals fit a vector, that lies within the
-- code and starts in its own range: the worklist comes to its end, and no state or instruction is
-- missing. Where the check has no errors, the state map that this run of the worklist ends with
-- starts with an empty stack at the entry and lies within the function, each of its instructions is
-- accepted, with states at its successors of the depth that it leaves, and a local that is
-- initialized at a successor is initialized after the step.
pub verify_function-total :
    (program : CompiledProgram) (range : FunctionRange)
    → range.info.local_count ≤ isize_max
    → range.end ≤ length program.instructions
    → pc_in_range range range.start ≡ true
    → (check : FunctionCheck) × (verify_function program range ≡ some check)
      × (check.errors ≡ [] → Certifies program range check)
verify_function-total program range fits within inside =
    let (check, e) = verify_function-ends program range fits within in
    (check, e, λ clean. verify_function-Certifies program range check inside e clean)
