-- ===== src/Verifier/Examples.antt =====
-- The verifier's theorems at concrete functions.
use minilang_rs.Prelude.{
  ℕ, ◌≤◌, Option, List, false, ◌≡◌, refl, true, [], ◌∷◌, none, some, arith, length-replicate, ◌↔◌,
  ◌⊎◌,
}
use minilang_rs.Prelude.Int.{pos}
use minilang_rs.Limits.{max_global_slots}
use minilang_rs.Verifier.Frames.{CallEdges, max_frame_depth}
use minilang_rs.Verifier.Frames.Bound.{IsCallChain}
use minilang_rs.Verifier.Frames.Ends.{max_frame_depth_total}
use minilang_rs.Verifier.Program.Jit.{IsStraight, verify-jit}
use minilang_rs.Verifier.Program.Certified.{Oversized}
use minilang_rs.Bytecode.{CompiledProgram, instruction, simple}
use minilang_rs.Verifier.Program.{backend_eligibility, yes, VerificationReport, verify}
use minilang_rs.Verifier.Program.Valid.{IsVerified, verify_total}
use minilang_rs.Bytecode.{Opcode}
use minilang_rs.Vm.State.{Vm, new}
use minilang_rs.Vm.Execute.{execute_instruction}
use minilang_rs.Vm.Run.{validate_functions}
use minilang_rs.Vm.Post.{After}
use minilang_rs.Vm.Bounds.Arms.{Overflows}
use minilang_rs.Verifier.Report.{AbstractState, Step, Log}
use minilang_rs.Verifier.Step.{
  step_instruction, pc_in_range, checking, pop_stack, terminal, jump_target,
}
use minilang_rs.Verifier.Reports.{Reports, step_instruction-Reports}
use minilang_rs.Verifier.Function.{FunctionCheck, verify_function}
use minilang_rs.Verifier.Certified.Function.{Certifies}
use minilang_rs.Bytecode.{GlobalInfo}
use minilang_rs.Verifier.Metadata.{
  verify_global, verify_global_metadata, function_ranges, collect_entry,
}
use minilang_rs.Verifier.Metadata.Layout.{IsLaidOut, verify_global_metadata-IsLaidOut}
use minilang_rs.Verifier.Metadata.Ranges.{AllWithin}
use minilang_rs.Verifier.Metadata.Functions.{function_ranges-AllWithin}
use minilang_rs.Verifier.Total.Function.{verify_function-total}
use minilang_rs.Verifier.Sound.Machine.{Site, Runs}
use minilang_rs.Verifier.Sound.Follows.{Follows, MayTrap}
use minilang_rs.Verifier.Sound.Step.{step_instruction-Sound}
use minilang_rs.Verifier.Tests.{looping, looping_range, main_info}
use minilang_rs.Verifier.Step.{
  ◌>>=◌, ◌>>◌, fall_through, accept, push_stack, reject_if, require, note_if, initialize,
  is_initialized,
}
use minilang_rs.Verifier.Frames.{add_edge, add_edges, record_depth, visit, visit_all}
use minilang_rs.Verifier.Function.{
  run_worklist, worklist_fuel, process, process_at, apply_step, visit_successors, visit_successor,
  add_state, after_step, check_depth, entry_locals, initial_work, mark_params, merge, merge_state,
  summarize,
}
use minilang_rs.Verifier.Metadata.{
  check_info, claim, collect_entries, insert_entry, ranges_of, sort_entries, verify_globals,
}
use minilang_rs.Verifier.Program.{
  add_check, finish, frame_traps, jit_status, jit_supports_opcode, largest_stack, program_errors,
  push_traps, report_of, scan_main, verify_ranges,
}
use minilang_rs.Verifier.Report.{contains_trap, push_trap}

abbrev one_operand : AbstractState
one_operand = record { stack_depth = 1; initialized_locals = true ∷ [] }

abbrev empty_log : Log
empty_log = record { errors = []; possible_traps = [] }

abbrev at_test : Site
at_test = record {
  program = looping;
  info = main_info 1;
  frame = record { return_pc = 0; base_ptr = 0; func_id = 0 };
  frames = [];
  pc = 3;
}

abbrev testing : Vm
testing = record {
  stack = pos 1 ∷ [];
  locals = new.locals;
  globals = new.globals;
  call_stack = record { return_pc = 0; base_ptr = 0; func_id = 0 } ∷ [];
  pc = 3;
  cycles = 3;
  max_cycles = 9;
  output = [];
}

testing-Runs : Runs at_test 1 testing
unfolding new
testing-Runs = record {
  at_pc = refl;
  calls = refl;
  known = refl;
  frame_fits = omega arith;
  locals_fit = rw length-replicate (omega arith);
  globals_fit = length-replicate max_global_slots (pos 0);
  depth_fits = omega arith;
}

abbrev tested : Step
tested = record {
  state = record { stack_depth = 0; initialized_locals = true ∷ [] };
  successors = 5 ∷ 4 ∷ [];
  call_edges = [];
}

test_accepted :
    step_instruction looping looping_range 3 Opcode.jump_if_false
      (pos 5)
      (pos 0)
      one_operand
      empty_log
    ≡ (some tested, empty_log)
unfolding step_instruction checking pop_stack jump_target pc_in_range terminal
test_accepted = refl

looping_valid : validate_functions looping.functions ≡ none
unfolding validate_functions
looping_valid = refl

step_instruction-Sound_example :
    After
      (Follows at_test tested)
      (λ code _. MayTrap Opcode.jump_if_false empty_log code)
      (Overflows Opcode.jump_if_false testing.stack)
      (execute_instruction looping Opcode.jump_if_false (pos 5) (pos 0) testing)
step_instruction-Sound_example =
    step_instruction-Sound at_test looping_range Opcode.jump_if_false (pos 5) (pos 0) one_operand
      empty_log empty_log tested testing refl looping_valid test_accepted testing-Runs

step_instruction-Reports_example : Reports empty_log (
    step_instruction looping looping_range 3 Opcode.jump_if_false
      (pos 9)
      (pos 0)
      one_operand
      empty_log)
step_instruction-Reports_example =
    step_instruction-Reports looping looping_range 3 Opcode.jump_if_false (pos 9) (pos 0)
      one_operand empty_log

looping_starts : pc_in_range looping_range looping_range.start ≡ true
unfolding pc_in_range
looping_starts = refl

verify_function-total_example :
    (check : FunctionCheck) × (verify_function looping looping_range ≡ some check)
    × (check.errors ≡ [] → Certifies looping looping_range check)
verify_function-total_example =
    verify_function-total looping looping_range (omega arith) (omega arith) looping_starts

abbrev two_globals : List GlobalInfo
two_globals =
    record { name = "table"; slot = 0; is_array = true; array_size = 3 }
    ∷ record { name = "count"; slot = 3; is_array = false; array_size = 0 }
    ∷ []

two_globals_accepted : verify_global_metadata two_globals [] ≡ []
unfolding verify_global_metadata verify_global
two_globals_accepted = refl

verify_global_metadata-IsLaidOut_example : IsLaidOut two_globals
verify_global_metadata-IsLaidOut_example =
    verify_global_metadata-IsLaidOut two_globals [] two_globals_accepted

looping_ranges_accepted : (function_ranges looping []).1 ≡ []
unfolding function_ranges collect_entry
looping_ranges_accepted = refl

function_ranges-AllWithin_example : AllWithin 7 (function_ranges looping []).0
function_ranges-AllWithin_example = function_ranges-AllWithin looping [] looping_ranges_accepted

abbrev three_functions : CallEdges
three_functions = (0, 1 ∷ 2 ∷ []) ∷ (1, 2 ∷ []) ∷ []

max_frame_depth_total_example :
    (depth : Option ℕ) × (max_frame_depth 0 three_functions ≡ some depth)
    × ((d n : ℕ) → depth ≡ some d → IsCallChain three_functions 0 n → n ≤ d)
max_frame_depth_total_example = max_frame_depth_total 0 three_functions

three_functions_depth : max_frame_depth 0 three_functions ≡ some (some 3)
unfolding max_frame_depth
three_functions_depth = refl

verify_total_example :
    (Oversized (function_ranges looping (program_errors looping)).0 × (verify looping ≡ none))
    ⊎ ((report : VerificationReport) × (verify looping ≡ some report)
        × (report.valid ≡ true → IsVerified looping report.possible_traps))
verify_total_example = verify_total looping

abbrev returning : CompiledProgram
returning = record {
  instructions = instruction Opcode.load_const (pos 4) (pos 0) ∷ simple Opcode.return ∷ [];
  functions = (0, main_info 0) ∷ [];
  globals = [];
  main_func_id = 0;
  constants = [];
}

abbrev returning_report : VerificationReport
returning_report = record {
  valid = true;
  errors = [];
  functions =
      record {
        id = 0;
        name = "main";
        entry_pc = 0;
        end_pc = 2;
        reachable_instructions = 2;
        max_stack_depth = 1;
      }
      ∷ [];
  possible_traps = [];
  max_stack_depth = 1;
  frame_depth = some 1;
  backends = record { vm = yes; gc_vm = yes; optimized_vm = yes; jit = yes };
}

returning_verified : verify returning ≡ some returning_report
unfolding verify function_ranges collect_entry verify_function pc_in_range verify_global_metadata
    verify_global backend_eligibility ◌>>=◌ ◌>>◌ fall_through accept pop_stack push_stack reject_if
    require note_if initialize is_initialized terminal step_instruction add_edge add_edges
    max_frame_depth record_depth visit visit_all run_worklist worklist_fuel process process_at
    apply_step visit_successors visit_successor add_state after_step check_depth entry_locals
    initial_work mark_params merge merge_state summarize check_info claim collect_entries
    insert_entry ranges_of sort_entries verify_globals add_check finish frame_traps jit_status
    jit_supports_opcode largest_stack program_errors push_traps report_of scan_main verify_ranges
    contains_trap push_trap
returning_verified = refl

verify-jit_example : (returning_report.backends.jit ≡ yes) ↔ (
    (returning_report.valid ≡ true) × (returning_report.possible_traps ≡ []) × IsStraight returning)
verify-jit_example = verify-jit returning returning_report returning_verified
