-- ===== src/Verifier/Run/Callers.antt =====
-- src/verifier.rs with src/vm.rs: the call stack of a run, against the verifier's states.
use minilang_rs.Prelude.{
  ℕ, suc, ◌+◌, ◌≤◌, ◌≡◌, List, [], ◌∷◌, length, some, lookup, get_elem?, true,
}
use minilang_rs.Limits.{max_local_slots}
use minilang_rs.Bytecode.{Instruction, FunctionInfo, CompiledProgram}
use minilang_rs.Vm.State.{
  TrapCode, none_trap, stack_overflow, cycle_limit, divide_by_zero, array_out_of_bounds,
  undefined_local, invalid_instruction, CallFrame, Vm,
}
use minilang_rs.Verifier.Report.{FunctionRange, contains_trap}
use minilang_rs.Verifier.Rules.{Recorded}
use minilang_rs.Verifier.Certified.States.{States, HasState, IsCertified}
use minilang_rs.Verifier.Sound.Machine.{Site, Runs}
use minilang_rs.Verifier.Sound.Follows.{IsLocalArray}

abbrev pub site_of : CompiledProgram → FunctionInfo → CallFrame → List CallFrame → ℕ → Site
site_of program info frame frames pc = record {
  program = program;
  info = info;
  frame = frame;
  frames = frames;
  pc = pc;
}

module _ (program : CompiledProgram) (traps : List TrapCode) where
  -- The verifier has reached `pc` in the function `info`, with `depth` operands.
  pub data StandsAt (info : FunctionInfo) (pc depth : ℕ) : Type 0 where
    stands :
        (range : FunctionRange) (states : States) (own : List TrapCode)
        → IsCertified program range states own
        → Recorded own traps
        → range.info ≡ info
        → range.end ≤ length program.instructions
        → HasState states pc depth
        → StandsAt info pc depth

  -- Every caller waits at an instruction that the verifier has reached with the caller's
  -- operands and the value that the call returns; `below` counts the operands of all callers.
  pub data Callers : CallFrame → List CallFrame → ℕ → Type 0 where
    bottom : {frame : CallFrame} → Callers frame [] 0
    caller :
        {frame g : CallFrame} {frames : List CallFrame} (info : FunctionInfo) (depth below : ℕ)
        → lookup g.func_id program.functions ≡ some info
        → g.base_ptr + info.local_count ≤ max_local_slots
        → StandsAt info frame.return_pc (suc depth)
        → Callers g frames below
        → Callers frame (g ∷ frames) (depth + below)

  -- The machine is where the verifier has been, with the operands of the function above those of
  -- its callers.
  pub data IsSafe (vm : Vm) : Type 0 where
    safe :
        (info : FunctionInfo) (frame : CallFrame) (frames : List CallFrame) (depth below : ℕ)
        → Runs (site_of program info frame frames vm.pc) (depth + below) vm
        → StandsAt info vm.pc depth
        → Callers frame frames below
        → IsSafe vm

  -- The ends of a run of a verified program: a value, the cycle limit, a full stack, a division
  -- or an index that the report lists, a local without a value, or a local that holds no array
  -- at an instruction for arrays in locals.
  pub data Admitted : TrapCode → Type 0 where
    value : Admitted none_trap
    exhausted : Admitted cycle_limit
    full_stack : Admitted stack_overflow
    listed_division : contains_trap divide_by_zero traps ≡ true → Admitted divide_by_zero
    listed_index : contains_trap array_out_of_bounds traps ≡ true → Admitted array_out_of_bounds
    no_value : Admitted undefined_local
    no_array :
        (pc : ℕ) (instr : Instruction)
        → get_elem? program.instructions pc ≡ some instr
        → IsLocalArray instr.opcode
        → Admitted invalid_instruction
