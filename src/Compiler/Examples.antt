-- ===== src/Compiler/Examples.antt =====
-- The compiler at a small program.
use minilang_rs.Prelude.{◌≡◌, refl, true, [], ◌∷◌, none, some, arith}
use minilang_rs.Prelude.Int.{pos}
use minilang_rs.Bytecode.{Opcode, instruction, simple, CompiledProgram}
use minilang_rs.Word.{normalize_i32}
use minilang_rs.Ast.{
  BinaryOp, int_type, int_literal, bool_literal, identifier, binary, call, arg, no_args, var_decl,
  while_stmt, assign, return_stmt, end, stmt, Program,
}
use minilang_rs.Compiler.{emit, emit_simple, patch, current_pc, bind, new}
use minilang_rs.Compiler.Expression.{
  compile_expr, compile_name, close_short, count_args, binary_opcode,
}
use minilang_rs.Compiler.Statement.{
  declare_local, initialize_local, compile_assign, compile_store, collect_stmt, compile_stmt,
}
use minilang_rs.Compiler.Program.{
  compile, enter_function, compile_body, compile_function, compile_functions, collect_globals,
  register_functions, program_of, compile_initializers,
}
use minilang_rs.Vm.State.{new as new_vm}
use minilang_rs.Vm.Run.{Ending, run, with_max_cycles}
use minilang_rs.Vm.Bounds.Total.{RunEnds}
use minilang_rs.Verifier.Step.{
  checking, pop_stack, push_stack, fall_through, terminal, pc_in_range, step_instruction,
}
use minilang_rs.Verifier.Function.{
  visit_successor, visit_successors, apply_step, check_depth, process_at, process, run_worklist,
  worklist_fuel, verify_function,
}
use minilang_rs.Verifier.Metadata.{function_ranges, collect_entry, verify_global_metadata}
use minilang_rs.Verifier.Frames.{max_frame_depth, add_edges}
use minilang_rs.Verifier.Program.{
  VerificationReport, yes, verify, verify_ranges, program_errors, finish, report_of, add_check,
  push_traps, backend_eligibility,
}
use minilang_rs.Verifier.Run.Verified.{EndsAdmitted}
use minilang_rs.Compiler.Runs.{compiled_run}
use minilang_rs.Compiler.Jumps.Programs.{AllPlaced, compile-AllPlaced}

-- `int twice(int n) { return n + n; }` and
-- `int main() { int i = 0; while (i < 3 && true) { i = twice(1); } return i; }`
abbrev source : Program
source = record {
  globals = [];
  functions =
      record {
        name = "twice";
        params = record { param_type = int_type; name = "n" } ∷ [];
        body = stmt (return_stmt (binary BinaryOp.add (identifier "n") (identifier "n"))) end;
      }
      ∷ record {
        name = "main";
        params = [];
        body = stmt (var_decl int_type "i" (some (int_literal (pos 0))) none) (
            stmt
              (while_stmt
                (binary BinaryOp.and (binary BinaryOp.lt (identifier "i") (int_literal (pos 3)))
                  (bool_literal true))
                (stmt (assign "i" none (call "twice" (arg (int_literal (pos 1)) no_args))) end))
              (stmt (return_stmt (identifier "i")) end));
      }
      ∷ [];
}

abbrev target : CompiledProgram
target = record {
  instructions =
      instruction Opcode.load_local (pos 0) (pos 0)
      ∷ instruction Opcode.load_local (pos 0) (pos 0)
      ∷ simple Opcode.add
      ∷ simple Opcode.return
      ∷ simple Opcode.load_const
      ∷ simple Opcode.return
      -- main
      ∷ simple Opcode.load_const
      ∷ instruction Opcode.store_local (pos 0) (pos 0)
      ∷ instruction Opcode.load_local (pos 0) (pos 0)
      ∷ instruction Opcode.load_const (pos 3) (pos 0)
      ∷ simple Opcode.lt
      ∷ instruction Opcode.jump_if_false (pos 16) (pos 0)
      ∷ instruction Opcode.load_const (pos 1) (pos 0)
      ∷ simple Opcode.load_const
      ∷ simple Opcode.ne
      ∷ instruction Opcode.jump (pos 17) (pos 0)
      ∷ simple Opcode.load_const
      ∷ instruction Opcode.jump_if_false (pos 22) (pos 0)
      ∷ instruction Opcode.load_const (pos 1) (pos 0)
      ∷ instruction Opcode.call (pos 0) (pos 1)
      ∷ instruction Opcode.store_local (pos 0) (pos 0)
      ∷ instruction Opcode.jump (pos 8) (pos 0)
      ∷ instruction Opcode.load_local (pos 0) (pos 0)
      ∷ simple Opcode.return
      ∷ simple Opcode.load_const
      ∷ simple Opcode.return
      ∷ [];
  functions =
      (0, record { name = "twice"; id = 0; entry_pc = 0; param_count = 1; local_count = 1 })
      ∷ (1, record { name = "main"; id = 1; entry_pc = 6; param_count = 0; local_count = 1 })
      ∷ [];
  globals = [];
  main_func_id = 1;
  constants = [];
}

source_compiled : compile source ≡ some target
unfolding compile enter_function compile_body compile_function compile_functions collect_globals
    register_functions program_of compile_initializers compile_stmt declare_local initialize_local
    compile_assign compile_store collect_stmt compile_expr compile_name close_short count_args
    binary_opcode emit emit_simple patch current_pc bind new normalize_i32
source_compiled = refl

compile-AllPlaced_example : AllPlaced target.instructions target.functions
compile-AllPlaced_example = compile-AllPlaced source target source_compiled

-- `int main() { return 7; }`
abbrev seven : Program
seven = record {
  globals = [];
  functions =
      record { name = "main"; params = []; body = stmt (return_stmt (int_literal (pos 7))) end }
      ∷ [];
}

abbrev seven_target : CompiledProgram
seven_target = record {
  instructions =
      instruction Opcode.load_const (pos 7) (pos 0)
      ∷ simple Opcode.return
      ∷ simple Opcode.load_const
      ∷ simple Opcode.return
      ∷ [];
  functions =
      (0, record { name = "main"; id = 0; entry_pc = 0; param_count = 0; local_count = 0 }) ∷ [];
  globals = [];
  main_func_id = 0;
  constants = [];
}

abbrev seven_report : VerificationReport
seven_report = record {
  valid = true;
  errors = [];
  functions =
      record {
        name = "main";
        id = 0;
        entry_pc = 0;
        end_pc = 4;
        reachable_instructions = 2;
        max_stack_depth = 1;
      }
      ∷ [];
  possible_traps = [];
  max_stack_depth = 1;
  frame_depth = some 1;
  backends = record { vm = yes; gc_vm = yes; optimized_vm = yes; jit = yes };
}

seven_compiled : compile seven ≡ some seven_target
unfolding compile enter_function compile_body compile_function compile_functions collect_globals
    register_functions program_of compile_initializers compile_stmt collect_stmt compile_expr emit
    emit_simple current_pc bind new
seven_compiled = refl

seven_verified : verify seven_target ≡ some seven_report
unfolding verify verify_function run_worklist worklist_fuel process process_at apply_step
    check_depth visit_successors visit_successor step_instruction checking pop_stack push_stack
    pc_in_range fall_through terminal function_ranges collect_entry verify_global_metadata
    max_frame_depth add_edges program_errors finish report_of add_check push_traps
    backend_eligibility verify_ranges
seven_verified = refl

compiled_run_example :
    (e : Ending) × (run seven_target (with_max_cycles 100 new_vm) ≡ some e)
    × RunEnds seven_target 100 e
    × EndsAdmitted seven_target [] e
compiled_run_example =
    compiled_run seven seven_target seven_report 100 seven_compiled seven_verified refl
      (omega arith)
