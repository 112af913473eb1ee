-- ===== src/Vm/Bounds/Loop.antt =====
-- src/vm.rs: the bounds across one round of `run`.
use minilang_rs.Prelude.{
  ℕ, ◌+◌, ◌≤◌, ◌<◌, ◌≡◌, ◌≢◌, ◌∙◌, Bool-cases, inl, inr, refl, ap, Bool, true, false, List, [], ◌∷◌,
  length, arith, some, none, Option, get_elem?, ltb, leb, ◌&&◌,
}
use minilang_rs.Limits.{max_frames, max_operand_stack}
use minilang_rs.Bytecode.{Instruction, CompiledProgram}
use minilang_rs.Vm.State.{Vm, Outcome, ok, trap, panic, CallFrame}
use minilang_rs.Vm.Run.{
  VmResult, make_trap_result, make_result, Round, again, done, crash, after_instruction, settle,
  execute_at, round, validate_functions,
}
use minilang_rs.Vm.Post.{returns, traps, panics}
use minilang_rs.Vm.Bounds.Helpers.{IsBounded}
use minilang_rs.Vm.Bounds.Calls.{Steps}
use minilang_rs.Vm.Bounds.Arms.{Overflows}
use minilang_rs.Vm.Bounds.Step.{execute_instruction-Steps}

-- The result of a run is within the limits, the cycle limit `limit` among them.
pub record IsWithin (limit : ℕ) (r : VmResult) : Type 0 where
  pub stack_within : r.stack_depth ≤ max_operand_stack
  pub frames_within : r.frame_depth ≤ max_frames
  pub cycles_within : r.cycles ≤ limit

-- What the loop keeps: bounds, a frame, and cycles up to the limit.
pub record IsRunning (limit : ℕ) (vm : Vm) : Type 0 where
  pub bounded : IsBounded vm
  pub has_frame : vm.call_stack ≢ []
  pub limited : vm.max_cycles ≡ limit
  pub cycles_fit : vm.cycles ≤ limit

-- The machine is about to execute an instruction that overflows.
pub data IsOverflowing (program : CompiledProgram) (vm : Vm) : Type 0 where
  overflowing :
      (instr : Instruction)
      → get_elem? program.instructions vm.pc ≡ some instr
      → Overflows instr.opcode vm.stack
      → IsOverflowing program vm

abbrev pub RoundKeeps : CompiledProgram → ℕ → Vm → Round → Type 0
RoundKeeps program limit vm (again vm') = IsRunning limit vm' × (vm'.cycles ≡ vm.cycles + 1)
RoundKeeps program limit vm (done r) = IsWithin limit r
RoundKeeps program limit vm crash = IsOverflowing program vm

module _ (program : CompiledProgram) (limit : ℕ) (vm : Vm) (fits : vm.cycles < limit) where
  after_instruction-Keeps :
      (frames : List CallFrame) (vm' : Vm)
      → vm'.call_stack ≡ frames
      → IsBounded vm'
      → vm'.cycles ≡ vm.cycles + 1
      → vm'.max_cycles ≡ limit
      → RoundKeeps program limit vm (after_instruction frames vm')
  unfolding after_instruction make_result
  after_instruction-Keeps [] vm' e b c m = ground (arith, ap length e)
  after_instruction-Keeps (f ∷ fs) vm' e b c m = (
    record { bounded = b; has_frame = λ none_left. cc; limited = m; cycles_fit = omega arith },
    c,
  )

  settle-Keeps :
      (vm₁ : Vm) (C : Type 0) (o : Outcome Bool)
      → vm₁.cycles ≡ vm.cycles + 1
      → vm₁.max_cycles ≡ limit
      → (C → IsOverflowing program vm)
      → Steps vm₁ C o
      → RoundKeeps program limit vm (settle o)
  unfolding settle make_trap_result
  settle-Keeps vm₁ C (ok true vm') c m overflow (returns h) =
      after_instruction-Keeps _ (record vm' { pc = vm'.pc + 1 }) refl (ground (arith, h))
        (h.same_cycles ∙ c) (h.same_limit ∙ m)
  settle-Keeps vm₁ C (ok false vm') c m overflow (returns h) =
      after_instruction-Keeps _ vm' refl h.bounded (h.same_cycles ∙ c) (h.same_limit ∙ m)
  settle-Keeps vm₁ C (trap code vm') c m overflow (traps h) = ground (arith, h)
  settle-Keeps vm₁ C panic c m overflow (panics h) = overflow h

module _ (program : CompiledProgram) (valid : validate_functions program.functions ≡ none)
    (limit : ℕ) where
  execute_at-Keeps :
      (vm : Vm) (instr : Option Instruction)
      → get_elem? program.instructions vm.pc ≡ instr
      → IsRunning limit vm
      → vm.cycles < limit
      → RoundKeeps program limit vm (execute_at program instr vm)
  unfolding execute_at make_trap_result
  execute_at-Keeps vm none e h fits = ground (arith, h)
  execute_at-Keeps vm (some instr) e h fits =
      settle-Keeps program limit vm fits (record vm { cycles = vm.cycles + 1 }) _ _ refl h.limited
        (overflowing instr e)
        (execute_instruction-Steps program instr.opcode instr.arg1 instr.arg2
          (record vm { cycles = vm.cycles + 1 }) valid (ground (arith, h)) h.has_frame)

  pub round-Keeps :
      (vm : Vm) → 0 < limit → IsRunning limit vm → RoundKeeps program limit vm (round program vm)
  unfolding round make_trap_result
  round-Keeps vm some_cycles h =
      elim (Bool-cases (ltb 0 vm.max_cycles && leb vm.max_cycles vm.cycles)) [
        | inl stop ↦ rw (stop, round) (ground (arith, h))
        | inr go ↦ rw (go, round) (execute_at-Keeps vm _ refl h (ground (arith, h)))
      ]
