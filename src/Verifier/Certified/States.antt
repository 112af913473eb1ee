-- ===== src/Verifier/Certified/States.antt =====
-- src/verifier.rs: the state map of `verify_function`, and the certificate that it amounts to.
use minilang_rs.Prelude.{
  ℕ, ◌≤◌, ◌≡◌, refl, true, false, ◌⊎◌, inl, inr, List, ◌==◌, some, arith, lookup, insert,
  lookup-insert, contains, get_elem?, Bool-cases, ==_iff,
}
use minilang_rs.Limits.{max_operand_stack}
use minilang_rs.Bytecode.{Instruction, CompiledProgram}
use minilang_rs.Vm.State.{TrapCode}
use minilang_rs.Verifier.Rules.{Recorded}
use minilang_rs.Verifier.Report.{AbstractState, FunctionRange, Step, Log}
use minilang_rs.Verifier.Step.{pc_in_range, step_instruction}

abbrev pub States : Type 0
States = List (ℕ × AbstractState)

-- The instruction at `pc` has a state, with `depth` operands.
pub data HasState (states : States) (pc depth : ℕ) : Type 0 where
  has :
      (state : AbstractState)
      → lookup pc states ≡ some state
      → state.stack_depth ≡ depth
      → HasState states pc depth

-- A later map has all states of an earlier one, at the same depths.
abbrev pub Extends : States → States → Type 0
Extends states states' = (pc depth : ℕ) → HasState states pc depth → HasState states' pc depth

-- The instruction has been stepped at this depth, and its successors have states at the depth
-- that the step leaves. The traps that the step has recorded are among `traps`.
pub data Checked (program : CompiledProgram) (range : FunctionRange) (states : States)
    (traps : List TrapCode) (pc depth : ℕ) : Type 0 where
  checked :
      (instr : Instruction) (state : AbstractState) (log log' : Log) (step : Step)
      → get_elem? program.instructions pc ≡ some instr
      → state.stack_depth ≡ depth
      → step_instruction program range pc instr.opcode instr.arg1 instr.arg2 state log
        ≡ (some step, log')
      → step.state.stack_depth ≤ max_operand_stack
      → ((s : ℕ)
          → contains s step.successors ≡ true
          → (pc_in_range range s ≡ true) × HasState states s step.state.stack_depth)
      → Recorded log'.possible_traps traps
      → Checked program range states traps pc depth

-- The verdict on a function: its entry has an empty stack, and every state lies in the function
-- and is checked.
pub record IsCertified (program : CompiledProgram) (range : FunctionRange) (states : States)
    (traps : List TrapCode) : Type 0 where
  pub entry : HasState states range.start 0
  pub inside : (pc depth : ℕ) → HasState states pc depth → pc_in_range range pc ≡ true
  pub all_checked :
      (pc depth : ℕ) → HasState states pc depth → Checked program range states traps pc depth

pub Checked-Extends :
    {program : CompiledProgram} {range : FunctionRange} {states states' : States}
    {traps traps' : List TrapCode} {pc depth : ℕ}
    → Extends states states'
    → Recorded traps traps'
    → Checked program range states traps pc depth
    → Checked program range states' traps' pc depth
Checked-Extends more also (checked instr state log log' step at same accepts fits nexts noted) =
    checked instr state log log' step at same accepts fits
      (λ s there. ((nexts s there).0, more s step.state.stack_depth (nexts s there).1))
      λ t e. also t (noted t e)

-- A new entry, at the depth of the old one if there was one.
pub Extends-insert :
    (states : States) (s : ℕ) (state : AbstractState)
    → ((old : AbstractState) → lookup s states ≡ some old → old.stack_depth ≡ state.stack_depth)
    → Extends states (insert s state states)
Extends-insert states s state agrees pc depth (has st found same) = go (Bool-cases (s == pc))
  where
    go : ((s == pc ≡ true) ⊎ (s == pc ≡ false)) → HasState (insert s state states) pc depth
    go (inl e) = has state (rw (lookup-insert, e)) (ground (arith, agrees st, ==_iff s pc))
    go (inr e) = has st (rw (lookup-insert, e) found) same

pub HasState-insert :
    (states : States) (s : ℕ) (state : AbstractState)
    → HasState (insert s state states) s state.stack_depth
HasState-insert states s state = has state (ground (arith, lookup-insert s s state states)) refl

pub HasState-of_insert :
    (states : States) (s pc depth : ℕ) (state : AbstractState)
    → HasState (insert s state states) pc depth
    → (s ≡ pc) ⊎ HasState states pc depth
HasState-of_insert states s pc depth state (has st found same) = go (Bool-cases (s == pc))
  where
    go : ((s == pc ≡ true) ⊎ (s == pc ≡ false)) → (s ≡ pc) ⊎ HasState states pc depth
    go (inl e) = inl ((==_iff s pc).0 e)
    go (inr e) = inr (has st (ground (arith, lookup-insert s pc state states)) same)
