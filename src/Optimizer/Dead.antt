-- ===== src/Optimizer/Dead.antt =====
-- src/optimizer.rs: dead code elimination, and `optimize`.
-- The walk over the code is a recursion on fuel, and the hash set a list without repetition.
pub mod Control
pub mod Walk
pub mod Places
pub mod Moves
use minilang_rs.Prelude.{
  ℕ, zero, suc, ◌+◌, ◌-◌, ◌*◌, ◌==◌, Bool, true, false, not, ◌&&◌, ◌||◌, List, [], ◌∷◌, ◌++◌,
  Option, none, some, length, if◌then◌else◌, contains, leb, get_elem?, lookup,
}
use minilang_rs.Prelude.Int.{ℤ, pos}
use minilang_rs.Word.{as_usize}
use minilang_rs.Bytecode.{Opcode, Instruction, instruction, FunctionInfo, CompiledProgram}
use minilang_rs.Optimizer.Passes.{
  is_jump, as_i32, has_jump, constant_folding, strength_reduction, peephole_optimization,
}

-- What the walk pushes for an instruction, the last first.
unfoldable pub successors : ℕ → Opcode → ℤ → List ℕ
unfolding as_usize
successors pc Opcode.jump arg1 = as_usize arg1 ∷ []
successors pc Opcode.jump_if_false arg1 = as_usize arg1 ∷ (pc + 1) ∷ []
successors pc Opcode.jump_if_true arg1 = as_usize arg1 ∷ (pc + 1) ∷ []
successors pc Opcode.return arg1 = []
successors pc Opcode.halt arg1 = []
successors pc _ arg1 = (pc + 1) ∷ []

-- The walk: the worklist with its top first, and the set of what it has met.
unfoldable pub reach : List Instruction → ℕ → List ℕ → List ℕ → Option (List ℕ)
reach code zero worklist reachable = none
reach code (suc fuel) [] reachable = some reachable
reach code (suc fuel) (pc ∷ worklist) reachable =
    if leb (length code) pc || contains pc reachable
    then reach code fuel worklist reachable
    else elim (get_elem? code pc) [
      | none ↦ none
      | some instr ↦
          reach code fuel (successors pc instr.opcode instr.arg1 ++ worklist) (pc ∷ reachable)
    ]

unfoldable pub entry_points : List (ℕ × FunctionInfo) → List ℕ
entry_points [] = []
entry_points ((id, func) ∷ functions) = func.entry_pc ∷ entry_points functions

-- Each instruction is met once and pushes two others at most.
unfoldable pub reach_fuel : List Instruction → List (ℕ × FunctionInfo) → ℕ
reach_fuel code functions = length functions + 3 * length code + 1

-- `old_to_new`: the reachable indices from `old_pc` on, numbered from `new_pc` on.
unfoldable pub number : List ℕ → ℕ → ℕ → List Instruction → List (ℕ × ℕ)
number reachable old_pc new_pc [] = []
number reachable old_pc new_pc (instr ∷ rest) =
    if contains old_pc reachable
    then (old_pc, new_pc) ∷ number reachable (old_pc + 1) (new_pc + 1) rest
    else number reachable (old_pc + 1) new_pc rest

abbrev pub or_else : ℕ → Option ℕ → ℕ
or_else default none = default
or_else default (some n) = n

-- A jump goes to the new place of its target.
unfoldable pub remap : List (ℕ × ℕ) → Instruction → Instruction
unfolding as_usize
remap old_to_new instr =
    if is_jump instr.opcode
    then instruction instr.opcode
        (as_i32 (pos (or_else (as_usize instr.arg1) (lookup (as_usize instr.arg1) old_to_new))))
        instr.arg2
    else instr

-- The new instructions, and the count of those that are left out.
unfoldable pub keep : List ℕ → List (ℕ × ℕ) → ℕ → List Instruction → List Instruction × ℕ
unfolding remap
keep reachable old_to_new old_pc [] = ([], 0)
keep reachable old_to_new old_pc (instr ∷ rest) =
    let (kept, removed) = keep reachable old_to_new (old_pc + 1) rest in
    if contains old_pc reachable
    then (remap old_to_new instr ∷ kept, removed)
    else (kept, removed + 1)

unfoldable pub move_functions : List (ℕ × ℕ) → List (ℕ × FunctionInfo) → List (ℕ × FunctionInfo)
move_functions old_to_new [] = []
move_functions old_to_new ((id, func) ∷ functions) =
    let moved = move_functions old_to_new functions in
    elim (lookup func.entry_pc old_to_new) [
      | some new_entry ↦ (id, record func { entry_pc = new_entry }) ∷ moved
      | none ↦ moved
    ]

-- What a pass gives: instructions, functions, and the number of removed instructions.
abbrev pub Swept : Type 0
Swept = List Instruction × List (ℕ × FunctionInfo) × ℕ

unfoldable pub sweep : List Instruction → List (ℕ × FunctionInfo) → List ℕ → Swept
unfolding keep number move_functions
sweep code functions reachable =
    if length reachable == length code
    then (code, functions, 0)
    else (let old_to_new = number reachable 0 0 code in
        let (kept, removed) = keep reachable old_to_new 0 code in
        (kept, move_functions old_to_new functions, removed))

unfoldable pub dead_code_elimination : List Instruction → List (ℕ × FunctionInfo) → Option Swept
unfolding reach entry_points reach_fuel sweep
dead_code_elimination [] functions = some ([], functions, 0)
dead_code_elimination (instr ∷ rest) functions =
    elim (reach (instr ∷ rest) (reach_fuel (instr ∷ rest) functions) (entry_points functions) []) [
      | none ↦ none
      | some reachable ↦ some (sweep (instr ∷ rest) functions reachable)
    ]

pub record OptimizationStats : Type 0 where
  pub constants_folded : ℕ
  pub dead_instructions_removed : ℕ
  pub strength_reductions : ℕ
  pub peephole_optimizations : ℕ
  pub instructions_before : ℕ
  pub instructions_after : ℕ

unfoldable pub can_run_size_changing_passes : List Instruction → List (ℕ × FunctionInfo) → Bool
unfolding has_jump
can_run_size_changing_passes instructions functions =
    length functions == 1 && not (has_jump instructions)

-- The passes that change the size, with their three counts.
unfoldable pub shrink : List Instruction → List Instruction × ℕ × ℕ × ℕ
unfolding constant_folding strength_reduction peephole_optimization
shrink instructions =
    let (folded, constants) = constant_folding instructions in
    let (reduced, strengths) = strength_reduction folded in
    let (simple, peepholes) = peephole_optimization reduced in
    (simple, constants, strengths, peepholes)

unfoldable pub optimize : CompiledProgram → Option (CompiledProgram × OptimizationStats)
unfolding can_run_size_changing_passes shrink dead_code_elimination
optimize program =
    let (instructions, constants, strengths, peepholes) =
      if can_run_size_changing_passes program.instructions program.functions
      then shrink program.instructions
      else (program.instructions, 0, 0, 0) in
    elim (dead_code_elimination instructions program.functions) [
      | none ↦ none
      | some (kept, functions, removed) ↦ some (
        record program { instructions = kept; functions = functions },
        record {
          constants_folded = constants;
          dead_instructions_removed = removed;
          strength_reductions = strengths;
          peephole_optimizations = peepholes;
          instructions_before = length program.instructions;
          instructions_after = length kept;
        },
      )
    ]
