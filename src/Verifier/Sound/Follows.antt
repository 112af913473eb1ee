-- ===== src/Verifier/Sound/Follows.antt =====
-- src/verifier.rs against src/vm.rs: what may follow an accepted instruction.
use minilang_rs.Prelude.{
  ℕ, suc, ◌+◌, ◌≤◌, ◌≡◌, Bool, true, false, [], ◌∷◌, length, some, lookup, ◌==◌, if◌then◌else◌,
  contains,
}
use minilang_rs.Limits.{usize_max}
use minilang_rs.Bytecode.{Opcode, FunctionInfo}
use minilang_rs.Vm.State.{
  TrapCode, stack_overflow, array_out_of_bounds, divide_by_zero, undefined_local,
  invalid_instruction, Vm, CallFrame,
}
use minilang_rs.Verifier.Report.{Step, Log, contains_trap}
use minilang_rs.Verifier.Sound.Machine.{Site, Runs}

abbrev pub IsLocalArray : Opcode → Type 0
IsLocalArray Opcode.local_array_load = Unit
IsLocalArray Opcode.local_array_store = Unit
IsLocalArray _ = ⊥

-- The traps of an accepted instruction: the operand or the call stack is full, the verifier has
-- recorded the trap, a local has no value, or a local holds no array.
pub data MayTrap (opcode : Opcode) (log : Log) : TrapCode → Type 0 where
  full : MayTrap opcode log stack_overflow
  division :
      contains_trap divide_by_zero log.possible_traps ≡ true → MayTrap opcode log divide_by_zero
  outside :
      contains_trap array_out_of_bounds log.possible_traps ≡ true
      → MayTrap opcode log array_out_of_bounds
  unset : opcode ≡ Opcode.load_local → MayTrap opcode log undefined_local
  no_reference : IsLocalArray opcode → MayTrap opcode log undefined_local
  stray_reference : IsLocalArray opcode → MayTrap opcode log invalid_instruction

-- How the machine follows the step that the verifier has computed.
pub data Follows (site : Site) (step : Step) : Bool → Vm → Type 0 where
  falls :
      {vm : Vm}
      → contains (site.pc + 1) step.successors ≡ true
      → Runs site step.state.stack_depth vm
      → Follows site step true vm
  jumps :
      {vm : Vm} (target : ℕ)
      → contains target step.successors ≡ true
      → Runs (record site { pc = target }) step.state.stack_depth vm
      → Follows site step false vm
  enters :
      {vm : Vm} (callee : FunctionInfo) (frame : CallFrame) (depth : ℕ)
      → lookup frame.func_id site.program.functions ≡ some callee
      → frame.return_pc ≡ site.pc + 1
      → contains (site.pc + 1) step.successors ≡ true
      → suc depth ≡ step.state.stack_depth
      → Runs
          (record {
            program = site.program;
            info = callee;
            frame = frame;
            frames = site.frame ∷ site.frames;
            pc = callee.entry_pc;
          })
          depth
          vm
      → Follows site step false vm
  leaves :
      {vm : Vm}
      → vm.call_stack ≡ site.frames
      → vm.pc ≡ (if site.frame.return_pc == usize_max then site.pc else site.frame.return_pc)
      → suc step.state.stack_depth ≤ length vm.stack
      → Follows site step false vm
  halts : {vm : Vm} → vm.call_stack ≡ [] → Follows site step false vm
