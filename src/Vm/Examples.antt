-- ===== src/Vm/Examples.antt =====
-- The machine's theorems at concrete programs.
use minilang_rs.Prelude.{◌≡◌, refl, [], ◌∷◌, some, none, arith, length-replicate}
use minilang_rs.Prelude.Int.{pos}
use minilang_rs.Limits.{max_global_slots}
use minilang_rs.Bytecode.{Opcode, instruction, simple, CompiledProgram}
use minilang_rs.Vm.State.{new, Vm}
use minilang_rs.Vm.Execute.{execute_instruction}
use minilang_rs.Vm.Run.{run, with_max_cycles, validate_functions, Ending}
use minilang_rs.Vm.Bounds.Helpers.{IsBounded}
use minilang_rs.Vm.Bounds.Calls.{Steps}
use minilang_rs.Vm.Bounds.Arms.{Overflows}
use minilang_rs.Vm.Bounds.Step.{execute_instruction-Steps}
use minilang_rs.Vm.Bounds.Total.{RunEnds, run_total}
use minilang_rs.Vm.Tests.{one_function}

-- 7 is negated for ever.
abbrev negating : CompiledProgram
negating =
    one_function
      (instruction Opcode.load_const (pos 7) (pos 0)
        ∷ simple Opcode.neg
        ∷ instruction Opcode.jump (pos 1) (pos 0)
        ∷ [])
      2

abbrev started : Vm
started = record {
  stack = pos 7 ∷ [];
  locals = new.locals;
  globals = new.globals;
  call_stack = record { return_pc = 0; base_ptr = 0; func_id = 0 } ∷ [];
  pc = 1;
  cycles = 1;
  max_cycles = 5;
  output = [];
}

started-IsBounded : IsBounded started
unfolding new
started-IsBounded = record {
  stack_fits = omega arith;
  locals_fit = rw length-replicate (omega arith);
  globals_fit = length-replicate max_global_slots (pos 0);
  frames_fit = omega arith;
}

negating_valid : validate_functions negating.functions ≡ none
unfolding validate_functions
negating_valid = refl

execute_instruction-Steps_example :
    Steps started
      (Overflows Opcode.neg started.stack)
      (execute_instruction negating Opcode.neg (pos 0) (pos 0) started)
execute_instruction-Steps_example =
    execute_instruction-Steps negating Opcode.neg (pos 0) (pos 0) started negating_valid
      started-IsBounded (λ e. cc)

run_total_example :
    (e : Ending) × (run negating (with_max_cycles 5 new) ≡ some e) × RunEnds negating 5 e
run_total_example = run_total negating 5 (omega arith)
