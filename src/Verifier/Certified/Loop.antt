-- ===== src/Verifier/Certified/Loop.antt =====
-- src/verifier.rs: what the worklist loop of `verify_function` keeps of its states.
use minilang_rs.Prelude.{
  some-injective, ℕ, ◌≤◌, ◌≡◌, ◌∙◌, sym, refl, Bool, true, false, ◌⊎◌, inl, inr, List, [], ◌∷◌,
  ◌==◌, Option, none, some, arith, lookup, contains, get_elem?, if◌then◌else◌, ltb, max, Bool-cases,
  ==_iff,
}
use minilang_rs.Limits.{max_operand_stack}
use minilang_rs.Bytecode.{Instruction, CompiledProgram}
use minilang_rs.Verifier.Rules.{Recorded}
use minilang_rs.Verifier.Report.{AbstractState, FunctionRange, Step, Log, push_error, leaves_range}
use minilang_rs.Verifier.Step.{pc_in_range, step_instruction}
use minilang_rs.Verifier.Function.{Work, apply_step, check_depth, after_step, process_at, process}
use minilang_rs.Verifier.Reports.{
  Reports, passes, complains, append-ne-nil, step_instruction-Reports,
}
use minilang_rs.Verifier.Certified.States.{
  HasState, has, Checked, checked, Checked-Extends, IsCertified,
}
use minilang_rs.Verifier.Certified.Visit.{Grows, visit_successors-Visited}

module _ (program : CompiledProgram) (range : FunctionRange) where
  -- Every state is in range, and is checked or on the list `todo`.
  pub record Covers (todo : List ℕ) (work : Work) : Type 0 where
    pub entry : HasState work.states range.start 0
    pub inside : (q d : ℕ) → HasState work.states q d → pc_in_range range q ≡ true
    pub covered :
        (q d : ℕ)
        → HasState work.states q d
        → (contains q todo ≡ true) ⊎ Checked program range work.states work.log.possible_traps q d

  check_depth_clean :
      (pc depth : ℕ) (log : Log)
      → (check_depth pc depth log).errors ≡ []
      → (depth ≤ max_operand_stack) × (log.errors ≡ [])
  unfolding check_depth
  check_depth_clean pc depth log clean = elim (Bool-cases (ltb max_operand_stack depth)) [
    | inl e ↦ absurd (append-ne-nil log.errors _ (rw (e, check_depth) at clean))
    | inr e ↦ (ground arith, rw (e, check_depth) at clean)
  ]

  check_depth_traps :
      (pc depth : ℕ) (log : Log) → (check_depth pc depth log).possible_traps ≡ log.possible_traps
  unfolding check_depth
  check_depth_traps pc depth log = ground arith

  apply_step-Checked :
      (pc : ℕ) (instr : Instruction) (state : AbstractState) (log : Log) (step : Step) (work : Work)
      → get_elem? program.instructions pc ≡ some instr
      → step_instruction program range pc instr.opcode instr.arg1 instr.arg2 state log
        ≡ (some step, work.log)
      → (apply_step range pc step work).log.errors ≡ []
      → Grows range work (apply_step range pc step work)
        × Checked program range
            (apply_step range pc step work).states
            (apply_step range pc step work).log.possible_traps
            pc
            state.stack_depth
  unfolding apply_step
  apply_step-Checked pc instr state log step work found accepts clean =
      let (grows, nexts) = visit_successors-Visited range pc step.state step.successors _ clean in
      let (fits, none_yet) = check_depth_clean pc step.state.stack_depth work.log grows.no_errors in
      (
        record {
          no_errors = none_yet;
          keeps = grows.keeps;
          traps_kept = λ t e. grows.traps_kept t (depth_traps t e);
          waits = grows.waits;
          news = grows.news;
        },
        checked instr state log work.log step found refl accepts fits nexts
            (λ t e. grows.traps_kept t (depth_traps t e)),
      )
    where
      depth_traps :
          Recorded work.log.possible_traps
            (check_depth pc step.state.stack_depth work.log).possible_traps
      depth_traps t e = rw check_depth_traps e

  -- The successor map of an instruction that is processed without an error.
  process_at-Checked :
      (pc : ℕ) (instr : Instruction) (state : AbstractState) (work : Work)
      → get_elem? program.instructions pc ≡ some instr
      → (process_at program range pc state instr work).log.errors ≡ []
      → Grows range work (process_at program range pc state instr work)
        × Checked program range
            (process_at program range pc state instr work).states
            (process_at program range pc state instr work).log.possible_traps
            pc
            state.stack_depth
  unfolding process_at
  process_at-Checked pc instr state work found clean =
      go (step_instruction program range pc instr.opcode instr.arg1 instr.arg2 state work.log) refl
        (step_instruction-Reports program range pc instr.opcode instr.arg1 instr.arg2 state
          work.log)
        clean
    where
      seen : Work
      seen = record work {
        reachable = if contains pc work.reachable then work.reachable else pc ∷ work.reachable;
        max_stack_depth = max work.max_stack_depth state.stack_depth;
      }

      go :
          (r : Option Step × Log)
          → step_instruction program range pc instr.opcode instr.arg1 instr.arg2 state work.log ≡ r
          → Reports {A = Step} work.log r
          → (after_step range pc r seen).log.errors ≡ []
          → Grows range work (after_step range pc r seen)
            × Checked program range
                (after_step range pc r seen).states
                (after_step range pc r seen).log.possible_traps
                pc
                state.stack_depth
      go (none, log) e (complains ne) clean' = absurd (ne clean')
      go (some step, log) e (passes same more) clean' =
          let (grows, done) =
            apply_step-Checked pc instr state work.log step (record seen { log = log }) found e
              clean' in
          (
            record {
              no_errors = sym same ∙ grows.no_errors;
              keeps = grows.keeps;
              traps_kept = λ t e. grows.traps_kept t (more t e);
              waits = grows.waits;
              news = grows.news;
            },
            done,
          )

  -- A state of the old map: the processed one is checked, the others are as before.
  covered_old :
      (pc q d : ℕ) (work work' : Work) (state : AbstractState)
      → lookup pc work.states ≡ some state
      → Grows range work work'
      → Checked program range work'.states work'.log.possible_traps pc state.stack_depth
      → HasState work.states q d
      → (contains q (pc ∷ work.worklist) ≡ true)
        ⊎ Checked program range work.states work.log.possible_traps q d
      → (contains q work'.worklist ≡ true)
        ⊎ Checked program range work'.states work'.log.possible_traps q d
  covered_old pc q d work work' state known grows done h (inr c) =
      inr (Checked-Extends grows.keeps grows.traps_kept c)
  covered_old pc q d work work' state known grows done (has st found same) (inl e) =
      elim (Bool-cases (pc == q)) [
        | inl p ↦ inr (rw (← (==_iff pc q).0 p, ← same, ← depth p) done)
        | inr p ↦ inl (grows.waits q (ground arith))
      ]
    where
      depth : pc == q ≡ true → state.stack_depth ≡ st.stack_depth
      depth p = ground (arith, known, found, ==_iff pc q)

  processed-Covers :
      (pc : ℕ) (work work' : Work) (state : AbstractState)
      → Covers (pc ∷ work.worklist) work
      → lookup pc work.states ≡ some state
      → Grows range work work'
      → Checked program range work'.states work'.log.possible_traps pc state.stack_depth
      → Covers work'.worklist work'
  processed-Covers pc work work' state covers known grows done = record {
    entry = grows.keeps range.start 0 covers.entry;
    inside = λ q d h. inside_of q d (grows.news q d h);
    covered = λ q d h. covered_of q d (grows.news q d h);
  }
    where
      inside_of :
          (q d : ℕ)
          → HasState work.states q d
            ⊎ ((contains q work'.worklist ≡ true) × (pc_in_range range q ≡ true))
          → pc_in_range range q ≡ true
      inside_of q d (inl h) = covers.inside q d h
      inside_of q d (inr w) = w.1

      covered_of :
          (q d : ℕ)
          → HasState work.states q d
            ⊎ ((contains q work'.worklist ≡ true) × (pc_in_range range q ≡ true))
          → (contains q work'.worklist ≡ true)
            ⊎ Checked program range work'.states work'.log.possible_traps q d
      covered_of q d (inl h) =
          covered_old pc q d work work' state known grows done h (covers.covered q d h)
      covered_of q d (inr w) = inl w.0

  -- A round without an error has stepped the instruction at its state.
  pub data Processed (pc : ℕ) (work work' : Work) : Type 0 where
    processed :
        (state : AbstractState)
        → lookup pc work.states ≡ some state
        → Grows range work work'
        → Checked program range work'.states work'.log.possible_traps pc state.stack_depth
        → Processed pc work work'

  pub process-Processed :
      (pc : ℕ) (work work' : Work)
      → process program range pc work ≡ some work'
      → work'.log.errors ≡ []
      → Processed pc work work'
  unfolding process
  process-Processed pc work work' result clean =
      go (pc_in_range range pc) (lookup pc work.states) (get_elem? program.instructions pc) refl
        refl refl
    where
      go :
          (inside : Bool) (found : Option AbstractState) (at : Option Instruction)
          → pc_in_range range pc ≡ inside
          → lookup pc work.states ≡ found
          → get_elem? program.instructions pc ≡ at
          → Processed pc work work'
      go false found at e₁ e₂ e₃ = absurd (left (some-injective _ _ (rw (e₁, process) at result)))
        where
          left : record work { log = push_error (some pc) leaves_range work.log } ≡ work' → ⊥
          left e = append-ne-nil work.log.errors _ (rw (← e) at clean)
      go true none at e₁ e₂ e₃ = absurd (cc (rw (e₁, e₂, process) at result))
      go true (some state) none e₁ e₂ e₃ = absurd (cc (rw (e₁, e₂, e₃, process) at result))
      go true (some state) (some instr) e₁ e₂ e₃ =
          from (some-injective _ _ (rw (e₁, e₂, e₃, process) at result))
        where
          from : process_at program range pc state instr work ≡ work' → Processed pc work work'
          from e =
              let (grows, done) = process_at-Checked pc instr state work e₃ (rw (e) clean) in
              processed state e₂ (rw (← e) grows) (rw (← e) done)

  pub Processed-clean :
      {pc : ℕ} {work work' : Work} → Processed pc work work' → work.log.errors ≡ []
  Processed-clean (processed state known grows done) = grows.no_errors

  pub Processed-Covers :
      {pc : ℕ} {work work' : Work}
      → Processed pc work work'
      → Covers (pc ∷ work.worklist) work
      → Covers work'.worklist work'
  Processed-Covers {pc} {work} {work'} (processed state known grows done) covers =
      processed-Covers pc work work' state covers known grows done

  -- When the list is empty, every state is checked.
  pub Covers-IsCertified :
      (work : Work) → Covers [] work → IsCertified program range work.states work.log.possible_traps
  Covers-IsCertified work covers = record {
    entry = covers.entry;
    inside = covers.inside;
    all_checked = λ q d h. elim (covers.covered q d h) [ inl e ↦ absurd (cc e) | inr c ↦ c ];
  }
