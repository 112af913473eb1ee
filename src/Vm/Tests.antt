-- ===== src/Vm/Tests.antt =====
-- Runs of small programs, as src/vm.rs's own tests have them.
use minilang_rs.Prelude.{ℕ, ◌≡◌, refl, List, [], ◌∷◌, some, Option, none}
use minilang_rs.Prelude.Int.{pos}
use minilang_rs.Bytecode.{Opcode, Instruction, instruction, simple, CompiledProgram}
use minilang_rs.Vm.State.{new, TrapCode, undefined_local, divide_by_zero}
use minilang_rs.Vm.Execute.{execution, execute_instruction}
use minilang_rs.Vm.Run.{run, round, Ending, finished, panicked}

-- `run_bytecode` of the source's tests: one function, `main`.
abbrev pub one_function : List Instruction → ℕ → CompiledProgram
one_function code locals = record {
  instructions = code;
  functions =
      (0, record { name = "main"; id = 0; entry_pc = 0; param_count = 0; local_count = locals })
      ∷ [];
  globals = [];
  main_func_id = 0;
  constants = [];
}

abbrev trap_code : Option Ending → Option TrapCode
trap_code (some (finished r)) = some r.trap_code
trap_code (some panicked) = none
trap_code none = none

division :
    trap_code (
      run
        (one_function
          (instruction Opcode.load_const (pos 7) (pos 0)
            ∷ instruction Opcode.load_const (pos 0) (pos 0)
            ∷ simple Opcode.div
            ∷ simple Opcode.return
            ∷ [])
          0)
        new)
    ≡ some divide_by_zero
unfolding run round new execute_instruction execution
division = refl

undefined :
    trap_code (run (one_function (simple Opcode.load_local ∷ simple Opcode.return ∷ []) 1) new)
    ≡ some undefined_local
unfolding run round new execute_instruction execution
undefined = refl
