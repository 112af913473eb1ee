-- ===== src/Optimizer/Examples.antt =====
-- The optimizer's theorems at concrete code.
use minilang_rs.Prelude.{ℕ, ◌≡◌, ◌↔◌, refl, true, false, List, [], ◌∷◌, some, arith, contains}
use minilang_rs.Prelude.Int.{ℤ, pos}
use minilang_rs.Vm.State.{Vm, ok}
use minilang_rs.Vm.Execute.{execution, execute_instruction}
use minilang_rs.Optimizer.Passes.{strength_reduction}
use minilang_rs.Optimizer.Block.{then_run}
use minilang_rs.Optimizer.Block.Reductions.{StaysNarrow}
use minilang_rs.Optimizer.Block.Strength.{StaysNarrow-step, strength_reduction-keeps}
use minilang_rs.Bytecode.{Opcode, Instruction, instruction, simple, FunctionInfo, CompiledProgram}
use minilang_rs.Vm.State.{new}
use minilang_rs.Optimizer.Passes.{constant_folding, peephole_optimization, has_jump}
use minilang_rs.Optimizer.Dead.{reach, reach_fuel, entry_points, dead_code_elimination, Swept}
use minilang_rs.Optimizer.Dead.Walk.{IsReachable, reach-IsReachable}
use minilang_rs.Optimizer.Dead.Moves.{Moves, dead_code_elimination-Moves}
use minilang_rs.Optimizer.Block.{run_block, Improves}
use minilang_rs.Optimizer.Block.Folds.{constant_folding-Improves}
use minilang_rs.Optimizer.Block.Peeps.{peephole_optimization-Improves}

abbrev summing : List Instruction
summing =
    instruction Opcode.load_const (pos 7) (pos 0)
    ∷ instruction Opcode.load_const (pos 5) (pos 0)
    ∷ simple Opcode.add
    ∷ simple Opcode.print
    ∷ instruction Opcode.load_const (pos 0) (pos 0)
    ∷ simple Opcode.pop
    ∷ []

abbrev skipping : List Instruction
skipping =
    instruction Opcode.jump (pos 2) (pos 0)
    ∷ simple Opcode.dup
    ∷ instruction Opcode.load_const (pos 5) (pos 0)
    ∷ simple Opcode.return
    ∷ []

abbrev main_only : List (ℕ × FunctionInfo)
main_only =
    (0, record { name = "main"; id = 0; entry_pc = 0; param_count = 0; local_count = 0 }) ∷ []

abbrev summing_program : CompiledProgram
summing_program = record {
  instructions = summing;
  functions = main_only;
  globals = [];
  main_func_id = 0;
  constants = [];
}

constant_folding-Improves_example :
    Improves
      (run_block summing_program summing new)
      (run_block summing_program (constant_folding summing).0 new)
constant_folding-Improves_example =
    constant_folding-Improves summing_program summing
      (
        (omega arith, omega arith),
        (
          (omega arith, omega arith),
          (
            (omega arith, omega arith),
            (
              (omega arith, omega arith),
              ((omega arith, omega arith), ((omega arith, omega arith), tt)),
            ),
          ),
        ),
      )
      new

summing_has_no_jump : has_jump summing ≡ false
unfolding has_jump
summing_has_no_jump = refl

peephole_optimization-Improves_example :
    Improves
      (run_block summing_program summing new)
      (run_block summing_program (peephole_optimization summing).0 new)
peephole_optimization-Improves_example =
    peephole_optimization-Improves summing_program summing summing_has_no_jump new

reach-IsReachable_example :
    (r : List ℕ) × (reach skipping (reach_fuel skipping main_only) (entry_points main_only) []
      ≡ some r)
    × ((q : ℕ) → (contains q r ≡ true) ↔ IsReachable skipping (entry_points main_only) q)
reach-IsReachable_example = reach-IsReachable skipping main_only

dead_code_elimination-Moves_example :
    (swept : Swept) × (dead_code_elimination skipping main_only ≡ some swept)
    × Moves skipping main_only swept
dead_code_elimination-Moves_example = dead_code_elimination-Moves skipping main_only

abbrev scaling : List Instruction
scaling = instruction Opcode.load_const (pos 1) (pos 0) ∷ simple Opcode.mul ∷ []

abbrev holding : List ℤ → Vm
holding stack = record {
  stack = stack;
  locals = [];
  globals = [];
  call_stack = [];
  pc = 0;
  cycles = 0;
  max_cycles = 9;
  output = [];
}

one_loaded :
    execute_instruction summing_program Opcode.load_const (pos 1) (pos 0) (holding (pos 7 ∷ []))
    ≡ ok true (holding (pos 1 ∷ pos 7 ∷ []))
unfolding execute_instruction execution
one_loaded = refl

multiplied :
    execute_instruction summing_program Opcode.mul (pos 0) (pos 0) (holding (pos 1 ∷ pos 7 ∷ []))
    ≡ ok true (holding (pos 7 ∷ []))
unfolding execute_instruction execution
multiplied = refl

scaling-StaysNarrow : StaysNarrow summing_program scaling (holding (pos 7 ∷ []))
unfolding StaysNarrow
scaling-StaysNarrow =
    StaysNarrow-step summing_program (instruction Opcode.load_const (pos 1) (pos 0))
      (simple Opcode.mul ∷ []) (holding (pos 7 ∷ [])) (holding (pos 1 ∷ pos 7 ∷ []))
      ((omega arith, omega arith), tt) one_loaded
      (StaysNarrow-step summing_program (simple Opcode.mul) [] (holding (pos 1 ∷ pos 7 ∷ []))
        (holding (pos 7 ∷ [])) ((omega arith, omega arith), ((omega arith, omega arith), tt))
        multiplied tt)

scaling_runs :
    run_block summing_program scaling (holding (pos 7 ∷ [])) ≡ ok true (holding (pos 7 ∷ []))
unfolding run_block then_run execute_instruction execution
scaling_runs = refl

strength_reduction-keeps_example :
    run_block summing_program (strength_reduction scaling).0 (holding (pos 7 ∷ []))
    ≡ ok true (holding (pos 7 ∷ []))
strength_reduction-keeps_example =
    strength_reduction-keeps summing_program scaling (holding (pos 7 ∷ [])) (holding (pos 7 ∷ []))
      true scaling-StaysNarrow scaling_runs
