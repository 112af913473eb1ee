-- ===== src/Verifier/Certified/Flow.antt =====
-- src/verifier.rs: the initialized locals over a run of the worklist of `verify_function`.
use minilang_rs.Prelude.{
  some-injective, ℕ, zero, suc, ◌≡◌, ◌∙◌, sym, refl, Bool, true, false, ◌⊎◌, inl, inr, List, [],
  ◌∷◌, ◌==◌, Option, none, some, arith, lookup, contains, get_elem?, if◌then◌else◌, max, Bool-cases,
  ==_iff,
}
use mathlib.Core.Path.{subst}
use minilang_rs.Bytecode.{Instruction, CompiledProgram}
use minilang_rs.Verifier.Report.{AbstractState, FunctionRange, Step, Log, push_error, leaves_range}
use minilang_rs.Verifier.Step.{pc_in_range, step_instruction}
use minilang_rs.Verifier.Function.{
  Work, apply_step, after_step, process_at, process, run_worklist, start_work, initial_work,
}
use minilang_rs.Verifier.Reports.{Reports, complains, append-ne-nil, step_instruction-Reports}
use minilang_rs.Verifier.Certified.Locals.{Loses, Flows, flows, AllFlow, visit_successors-Visits}
use minilang_rs.Verifier.Certified.Clean.{run_worklist-clean}

module _ (program : CompiledProgram) (range : FunctionRange) where
  -- Every state flows to its successors, or is on the list `todo`.
  abbrev Flowing : List ℕ → Work → Type 0
  Flowing todo work =
      (q : ℕ) (state : AbstractState)
      → lookup q work.states ≡ some state
      → (contains q todo ≡ true) ⊎ Flows program range work.states q state

  Flows-keeps :
      {work work' : Work} {q : ℕ} {state : AbstractState}
      → Loses work work'
      → Flows program range work.states q state
      → Flows program range work'.states q state
  Flows-keeps loses (flows instr log log' step at accepts nexts) =
      flows instr log log' step at accepts (λ s e. loses.keeps s _ (nexts s e))

  apply_step-Flows :
      (pc : ℕ) (instr : Instruction) (state : AbstractState) (log log' : Log) (step : Step)
      (work : Work)
      → get_elem? program.instructions pc ≡ some instr
      → step_instruction program range pc instr.opcode instr.arg1 instr.arg2 state log
        ≡ (some step, log')
      → (apply_step range pc step work).log.errors ≡ []
      → Loses work (apply_step range pc step work)
        × Flows program range (apply_step range pc step work).states pc state
  unfolding apply_step
  apply_step-Flows pc instr state log log' step work found e clean =
      let (loses, nexts) = visit_successors-Visits range pc step.state step.successors _ clean in
      (
        record { keeps = loses.keeps; news = loses.news; waits = loses.waits },
        flows instr log log' step found e nexts,
      )

  process_at-Flows :
      (pc : ℕ) (instr : Instruction) (state : AbstractState) (work : Work)
      → get_elem? program.instructions pc ≡ some instr
      → (process_at program range pc state instr work).log.errors ≡ []
      → Loses work (process_at program range pc state instr work)
        × Flows program range (process_at program range pc state instr work).states pc state
  unfolding process_at
  process_at-Flows pc instr state work found clean =
      go (step_instruction program range pc instr.opcode instr.arg1 instr.arg2 state work.log) refl
        (step_instruction-Reports program range pc instr.opcode instr.arg1 instr.arg2 state
          work.log)
        clean
    where
      seen : Work
      seen = record work {
        reachable = if contains pc work.reachable then work.reachable else pc ∷ work.reachable;
        max_stack_depth = max work.max_stack_depth state.stack_depth;
      }

      go :
          (r : Option Step × Log)
          → step_instruction program range pc instr.opcode instr.arg1 instr.arg2 state work.log ≡ r
          → Reports {A = Step} work.log r
          → (after_step range pc r seen).log.errors ≡ []
          → Loses work (after_step range pc r seen)
            × Flows program range (after_step range pc r seen).states pc state
      go (none, log) e (complains ne) clean' = absurd (ne clean')
      go (some step, log) e reported clean' =
          let (loses, now) =
            apply_step-Flows pc instr state work.log log step (record seen { log = log }) found e
              clean' in
          (record { keeps = loses.keeps; news = loses.news; waits = loses.waits }, now)

  process-Flowing :
      (pc : ℕ) (work work' : Work)
      → process program range pc work ≡ some work'
      → work'.log.errors ≡ []
      → Flowing (pc ∷ work.worklist) work
      → Flowing work'.worklist work'
  unfolding process
  process-Flowing pc work work' result clean before =
      go (pc_in_range range pc) (lookup pc work.states) (get_elem? program.instructions pc) refl
        refl refl
    where
      after :
          (state : AbstractState) (w : Work)
          → lookup pc work.states ≡ some state
          → Loses work w
          → Flows program range w.states pc state
          → Flowing w.worklist w
      after state w known loses now q st e = elim (loses.news q st e) [
        | inr waiting ↦ inl waiting
        | inl old ↦ elim (before q st old) [
          | inr earlier ↦ inr (Flows-keeps loses earlier)
          | inl listed ↦ popped old listed (Bool-cases (pc == q))
        ]
      ]
        where
          popped :
              lookup q work.states ≡ some st
              → contains q (pc ∷ work.worklist) ≡ true
              → (pc == q ≡ true) ⊎ (pc == q ≡ false)
              → (contains q w.worklist ≡ true) ⊎ Flows program range w.states q st
          popped old listed (inr p) = inl (loses.waits q (ground arith))
          popped old listed (inl p) =
              let same : state ≡ st =
                some-injective state st (sym known ∙ (rw (← (==_iff pc q).0 p) at old)) in
              inr (rw (← (==_iff pc q).0 p, ← same) now)

      go :
          (inside : Bool) (found : Option AbstractState) (at : Option Instruction)
          → pc_in_range range pc ≡ inside
          → lookup pc work.states ≡ found
          → get_elem? program.instructions pc ≡ at
          → Flowing work'.worklist work'
      go false found at e₁ e₂ e₃ = absurd (left (some-injective _ _ (rw (e₁, process) at result)))
        where
          left : record work { log = push_error (some pc) leaves_range work.log } ≡ work' → ⊥
          left e = append-ne-nil work.log.errors _ (rw (← e) at clean)
      go true none at e₁ e₂ e₃ = absurd (cc (rw (e₁, e₂, process) at result))
      go true (some state) none e₁ e₂ e₃ = absurd (cc (rw (e₁, e₂, e₃, process) at result))
      go true (some state) (some instr) e₁ e₂ e₃ =
          from (some-injective _ _ (rw (e₁, e₂, e₃, process) at result))
        where
          from : process_at program range pc state instr work ≡ work' → Flowing work'.worklist work'
          from e =
              let (loses, now) = process_at-Flows pc instr state work e₃ (rw e clean) in
              rw (← e) (after state (process_at program range pc state instr work) e₂ loses now)

  pub run_worklist-AllFlow :
      (fuel : ℕ) (work final : Work)
      → Flowing work.worklist work
      → run_worklist program range fuel work ≡ some final
      → final.log.errors ≡ []
      → AllFlow program range final.states
  unfolding run_worklist
  run_worklist-AllFlow zero work final flowing result clean = absurd (cc result)
  run_worklist-AllFlow (suc fuel) work final flowing result clean =
      go (λ w f r. run_worklist-AllFlow fuel w final f r clean) work.worklist refl
    where
      Later : Type 0
      Later =
          (w : Work)
          → Flowing w.worklist w
          → run_worklist program range fuel w ≡ some final
          → AllFlow program range final.states

      go : Later → (todo : List ℕ) → work.worklist ≡ todo → AllFlow program range final.states
      go later [] e = rw (← some-injective _ _ (rw (e, run_worklist) at result)) (λ q st found.
          elim (flowing q st found) [ inl listed ↦ absurd (ground (arith, e)) | inr f ↦ f ])
      go later (pc ∷ rest) e =
          next (process program range pc (record work { worklist = rest })) refl
        where
          listed : Flowing (pc ∷ rest) (record work { worklist = rest })
          listed q st found =
              subst (λ l. (contains q l ≡ true) ⊎ Flows program range work.states q st) e
                (flowing q st found)

          next :
              (r : Option Work)
              → process program range pc (record work { worklist = rest }) ≡ r
              → AllFlow program range final.states
          next none e₂ = absurd (cc (rw (e, e₂, run_worklist) at result))
          next (some work') e₂ =
              let left = rw (e, e₂, run_worklist) at result in
              later work'
                (process-Flowing pc (record work { worklist = rest }) work' e₂
                  (run_worklist-clean program range fuel work' final left clean) listed)
                left

  pub start_work-Flows : Flowing (start_work range).worklist (start_work range)
  unfolding initial_work
  start_work-Flows q state found = inl (ground (arith, found))
