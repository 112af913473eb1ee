-- ===== src/Compiler.antt =====
-- src/compiler.rs: `Compiler`, from the syntax tree to bytecode. The interning of names in an arena,
-- which only its statistics show, and the empty pool of constants are left out. `none` is the panic
-- of a map that has no entry for a name, or of a slot or counter that overflows a word.
pub mod Expression
pub mod Statement
pub mod Program
pub mod Closed
pub mod Jumps
pub mod Runs
mod Examples
use minilang_rs.Prelude.{
  ℕ, ◌+◌, Bool, true, false, List, [], ◌∷◌, ◌++◌, Option, none, some, String, length, get_elem?,
  set, ltb, not, insert, if◌then◌else◌,
}
use minilang_rs.Prelude.Int.{ℤ, pos}
use minilang_rs.Prelude.Names.{find, put, has_key, values, same_name}
use minilang_rs.Limits.{usize_max}
use minilang_rs.Word.{normalize_i32, as_usize}
use minilang_rs.Bytecode.{
  Opcode, Instruction, instruction, FunctionInfo, GlobalInfo, CompiledProgram,
}

pub record LocalVar : Type 0 where
  pub slot : ℕ
  pub is_array : Bool
  pub array_size : ℕ

pub record Compiler : Type 0 where
  pub instructions : List Instruction
  pub functions : List (ℕ × FunctionInfo)
  pub globals : List (String × GlobalInfo)
  pub func_name_to_id : List (String × ℕ)
  pub current_locals : List (String × LocalVar)
  pub next_local_slot : ℕ
  pub next_global_slot : ℕ
  pub next_func_id : ℕ
  pub main_func_id : Option ℕ

-- `Compiler::new`
unfoldable pub new : Compiler
new = record {
  instructions = [];
  functions = [];
  globals = [];
  func_name_to_id = [];
  current_locals = [];
  next_local_slot = 0;
  next_global_slot = 0;
  next_func_id = 0;
  main_func_id = none;
}

-- `n as i32` of a `usize`: the low 32 bits.
abbrev pub as_i32 : ℕ → ℤ
as_i32 n = normalize_i32 (pos n)

unfoldable pub current_pc : Compiler → ℕ
current_pc c = length c.instructions

-- `emit`; the place of the instruction is the `current_pc` before it.
unfoldable pub emit : Opcode → ℤ → ℤ → Compiler → Compiler
emit opcode arg1 arg2 c = record c {
  instructions = c.instructions ++ instruction opcode arg1 arg2 ∷ [];
}

unfoldable pub emit_simple : Opcode → Compiler → Compiler
unfolding emit
emit_simple opcode = emit opcode (pos 0) (pos 0)

-- `self.instructions[pc].arg1 = arg1`, at a place where an instruction has been emitted.
unfoldable pub patch_at : ℕ → ℤ → List Instruction → List Instruction
patch_at pc arg1 code = elim (get_elem? code pc) [
  | some i ↦ set code pc (record i { arg1 = arg1 })
  | none ↦ code
]

unfoldable pub patch : ℕ → ℤ → Compiler → Compiler
unfolding patch_at
patch pc arg1 c = record c { instructions = patch_at pc arg1 c.instructions }

unfoldable pub bind : Option Compiler → (Compiler → Option Compiler) → Option Compiler
bind none f = none
bind (some c) f = f c
