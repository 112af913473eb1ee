-- ===== src/Vm/Run.antt =====
-- src/vm.rs: `validate_program`, `run`, and the results that they report.
-- The loop of `run` is a recursion on fuel over `round`, its body; a run starts with one unit more
-- than the cycle limit, and `none` would be a run that this does not end.
use minilang_rs.Prelude.{
  ℕ, zero, suc, ◌+◌, Bool, true, false, ◌&&◌, List, [], ◌∷◌, Option, none, some, length, lookup,
  get_elem?, ltb, leb, ◌==◌, if◌then◌else◌, max, ◌⊎◌, inl, inr,
}
use minilang_rs.Prelude.Int.{ℤ, pos}
use minilang_rs.Limits.{max_local_slots, max_global_slots, max_instructions, usize_max}
use minilang_rs.Bytecode.{Instruction, FunctionInfo, GlobalInfo, CompiledProgram}
use minilang_rs.Vm.State.{
  TrapCode, none_trap, stack_overflow, cycle_limit, undefined_function, invalid_instruction, Vm,
  CallFrame, Outcome, ok, trap, panic,
}
use minilang_rs.Vm.Execute.{execute_instruction}

pub record VmResult : Type 0 where
  pub success : Bool
  pub return_value : ℤ
  pub trap_code : TrapCode
  pub cycles : ℕ
  pub output : List ℤ
  pub pc : ℕ
  pub stack_depth : ℕ
  pub frame_depth : ℕ

unfoldable pub make_trap_result : TrapCode → Vm → VmResult
make_trap_result code vm = record {
  success = false;
  return_value = pos 0;
  trap_code = code;
  cycles = vm.cycles;
  output = vm.output;
  pc = vm.pc;
  stack_depth = length vm.stack;
  frame_depth = length vm.call_stack;
}

-- `self.stack.pop().unwrap_or(0)`, and the depth that it leaves.
unfoldable pub make_result : List ℤ → Vm → VmResult
make_result stack vm = record {
  success = true;
  return_value = elim stack [ [] ↦ pos 0 | v ∷ s ↦ v ];
  trap_code = none_trap;
  cycles = vm.cycles;
  output = vm.output;
  pc = vm.pc;
  stack_depth = elim stack [ [] ↦ 0 | v ∷ s ↦ length s ];
  frame_depth = length vm.call_stack;
}

-- The slots that the globals need, or the trap of the first global that is refused.
unfoldable pub required_global_slots : ℕ → List GlobalInfo → TrapCode ⊎ ℕ
required_global_slots max_slot [] = inr max_slot
required_global_slots max_slot (info ∷ globals) =
    let width = if info.is_array then info.array_size else 1 in
    let rest = required_global_slots (max max_slot (info.slot + width)) globals in
    if info.is_array && info.array_size == 0
    then inl invalid_instruction
    else if ltb usize_max (info.slot + width)
    then inl invalid_instruction
    else rest

-- The loop of `validate_program` over the functions.
unfoldable pub validate_functions : List (ℕ × FunctionInfo) → Option TrapCode
validate_functions [] = none
validate_functions ((id, func) ∷ functions) =
    let rest = validate_functions functions in
    if ltb func.local_count func.param_count
    then some invalid_instruction
    else if ltb max_local_slots func.local_count
    then some stack_overflow
    else rest

unfoldable pub validate_globals : TrapCode ⊎ ℕ → Option TrapCode
validate_globals (inl code) = some code
validate_globals (inr slots) = if ltb max_global_slots slots then some invalid_instruction else none

-- `none` is `Ok(())`.
unfoldable pub validate_program : CompiledProgram → Option TrapCode
unfolding required_global_slots validate_functions validate_globals
validate_program program =
    if ltb max_instructions (length program.instructions)
    then some invalid_instruction
    else elim (validate_functions program.functions) [
      | some code ↦ some code
      | none ↦ validate_globals (required_global_slots 0 program.globals)
    ]

-- One pass through the body of the loop: another round, a result, or a panic.
pub data Round : Type 0 where
  again : Vm → Round
  done : VmResult → Round
  crash : Round

-- The check for exit, after an instruction that succeeded.
unfoldable pub after_instruction : List CallFrame → Vm → Round
unfolding make_result
after_instruction [] vm = done (make_result vm.stack vm)
after_instruction (_ ∷ _) vm = again vm

unfoldable pub settle : Outcome Bool → Round
unfolding after_instruction make_trap_result
settle (ok advance vm) =
    let vm' = if advance then record vm { pc = vm.pc + 1 } else vm in
    after_instruction vm'.call_stack vm'
settle (trap code vm) = done (make_trap_result code vm)
settle panic = crash

unfoldable pub execute_at : CompiledProgram → Option Instruction → Vm → Round
unfolding settle make_trap_result
execute_at program none vm = done (make_trap_result invalid_instruction vm)
execute_at program (some instr) vm = settle (
    execute_instruction program instr.opcode instr.arg1 instr.arg2
      (record vm { cycles = vm.cycles + 1 }))

unfoldable pub round : CompiledProgram → Vm → Round
unfolding execute_at make_trap_result
round program vm =
    if ltb 0 vm.max_cycles && leb vm.max_cycles vm.cycles
    then done (make_trap_result cycle_limit vm)
    else execute_at program (get_elem? program.instructions vm.pc) vm

-- How a run ends.
pub data Ending : Type 0 where
  finished : VmResult → Ending
  panicked : Ending

unfoldable pub run_loop : CompiledProgram → ℕ → Vm → Option Ending
run_loop program zero vm = none
run_loop program (suc fuel) vm = elim (round program vm) [
  | again vm' ↦ run_loop program fuel vm'
  | done result ↦ some (finished result)
  | crash ↦ some panicked
]

unfoldable pub initial_frame : FunctionInfo → Vm → Vm
initial_frame main_func vm = record vm {
  pc = main_func.entry_pc;
  call_stack =
      record { return_pc = usize_max; base_ptr = 0; func_id = main_func.id } ∷ vm.call_stack;
}

unfoldable pub start_main : CompiledProgram → Option FunctionInfo → Vm → Option Ending
unfolding run_loop make_trap_result initial_frame
start_main program none vm = some (finished (make_trap_result undefined_function vm))
start_main program (some main_func) vm =
    if ltb max_local_slots main_func.local_count
    then some (finished (make_trap_result stack_overflow vm))
    else run_loop program (vm.max_cycles + 1) (initial_frame main_func vm)

-- `Vm::with_max_cycles`
unfoldable pub with_max_cycles : ℕ → Vm → Vm
with_max_cycles max vm = record vm { max_cycles = max }

unfoldable pub run : CompiledProgram → Vm → Option Ending
unfolding validate_program start_main make_trap_result
run program vm = elim (validate_program program) [
  | some code ↦ some (finished (make_trap_result code vm))
  | none ↦ start_main program (lookup program.main_func_id program.functions) vm
]
