-- ===== src/Verifier/Run/Examples.antt =====
-- A verified program's run, at a program with a call.
use minilang_rs.Prelude.{◌≡◌, refl, true, [], ◌∷◌, some, arith}
use minilang_rs.Prelude.Int.{pos}
use minilang_rs.Bytecode.{Opcode, FunctionInfo, CompiledProgram, instruction, simple}
use minilang_rs.Vm.State.{new, divide_by_zero}
use minilang_rs.Vm.Run.{Ending, run, with_max_cycles}
use minilang_rs.Vm.Bounds.Total.{RunEnds}
use minilang_rs.Verifier.Step.{
  checking, pop_stack, push_stack, fall_through, terminal, step_call, pc_in_range, step_instruction,
}
use minilang_rs.Verifier.Function.{
  visit_successor, visit_successors, apply_step, check_depth, process_at, process, run_worklist,
  worklist_fuel, verify_function,
}
use minilang_rs.Verifier.Metadata.{function_ranges, collect_entry, verify_global_metadata}
use minilang_rs.Verifier.Frames.{max_frame_depth, add_edges}
use minilang_rs.Verifier.Program.{
  VerificationReport, yes, no, trap_free_only, verify, verify_ranges, program_errors, finish,
  report_of, add_check, push_traps, backend_eligibility,
}
use minilang_rs.Verifier.Run.Verified.{EndsAdmitted, verified_run}

abbrev half : FunctionInfo
half = record { name = "half"; id = 0; entry_pc = 0; param_count = 0; local_count = 0 }

abbrev calling_main : FunctionInfo
calling_main = record { name = "main"; id = 1; entry_pc = 4; param_count = 0; local_count = 0 }

abbrev calling : CompiledProgram
calling = record {
  instructions =
      instruction Opcode.load_const (pos 8) (pos 0)
      ∷ instruction Opcode.load_const (pos 2) (pos 0)
      ∷ simple Opcode.div
      ∷ simple Opcode.return
      ∷ instruction Opcode.call (pos 0) (pos 0)
      ∷ simple Opcode.return
      ∷ [];
  functions = (0, half) ∷ (1, calling_main) ∷ [];
  globals = [];
  main_func_id = 1;
  constants = [];
}

abbrev calling_report : VerificationReport
calling_report = record {
  valid = true;
  errors = [];
  functions =
      record {
        name = "half";
        id = 0;
        entry_pc = 0;
        end_pc = 4;
        reachable_instructions = 4;
        max_stack_depth = 2;
      }
      ∷ record {
        name = "main";
        id = 1;
        entry_pc = 4;
        end_pc = 6;
        reachable_instructions = 2;
        max_stack_depth = 1;
      }
      ∷ [];
  possible_traps = divide_by_zero ∷ [];
  max_stack_depth = 2;
  frame_depth = some 2;
  backends = record { vm = yes; gc_vm = yes; optimized_vm = yes; jit = no trap_free_only };
}

calling_verified : verify calling ≡ some calling_report
unfolding verify verify_function run_worklist worklist_fuel process process_at apply_step
    check_depth visit_successors visit_successor step_instruction checking pop_stack push_stack
    pc_in_range fall_through terminal step_call function_ranges collect_entry verify_global_metadata
    max_frame_depth add_edges program_errors finish report_of add_check push_traps
    backend_eligibility verify_ranges
calling_verified = refl

verified_run_example :
    (e : Ending) × (run calling (with_max_cycles 100 new) ≡ some e)
    × RunEnds calling 100 e
    × EndsAdmitted calling (divide_by_zero ∷ []) e
verified_run_example =
    verified_run calling calling_report calling_main 100 calling_verified refl refl refl
      (omega arith)
