-- ===== src/Verifier/Tests.antt =====
-- The verifier on small programs.
use minilang_rs.Prelude.{ℕ, ◌≡◌, refl, List, [], ◌∷◌, Option, none, some}
use minilang_rs.Prelude.Int.{pos}
use minilang_rs.Bytecode.{Opcode, instruction, simple, FunctionInfo, CompiledProgram}
use minilang_rs.Verifier.Report.{FunctionRange, VerificationError}
use minilang_rs.Verifier.Step.{
  checking, pop_stack, push_stack, local_slot, jump_target, pc_in_range, fall_through, terminal,
  initialize, is_initialized, step_instruction,
}
use minilang_rs.Verifier.Function.{
  FunctionCheck, visit_successor, visit_successors, apply_step, check_depth, process_at, process,
  run_worklist, worklist_fuel, verify_function, merge,
}

abbrev pub main_info : ℕ → FunctionInfo
main_info locals = record {
  name = "main";
  id = 0;
  entry_pc = 0;
  param_count = 0;
  local_count = locals;
}

abbrev pub looping : CompiledProgram
looping = record {
  instructions =
      instruction Opcode.load_const (pos 1) (pos 0)
      ∷ instruction Opcode.store_local (pos 0) (pos 0)
      ∷ instruction Opcode.load_local (pos 0) (pos 0)
      ∷ instruction Opcode.jump_if_false (pos 5) (pos 0)
      ∷ instruction Opcode.jump (pos 0) (pos 0)
      ∷ simple Opcode.load_const
      ∷ simple Opcode.return
      ∷ [];
  functions = (0, main_info 1) ∷ [];
  globals = [];
  main_func_id = 0;
  constants = [];
}

abbrev pub looping_range : FunctionRange
looping_range = record { id = 0; info = main_info 1; start = 0; end = 7 }

abbrev found_errors : Option FunctionCheck → Option (List VerificationError)
found_errors none = none
found_errors (some c) = some c.errors

accepts_loop : found_errors (verify_function looping looping_range) ≡ some []
unfolding verify_function run_worklist worklist_fuel process process_at apply_step check_depth
    visit_successors visit_successor step_instruction checking pop_stack push_stack local_slot
    jump_target pc_in_range fall_through terminal merge initialize is_initialized
accepts_loop = refl
