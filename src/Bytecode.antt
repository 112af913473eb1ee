-- ===== src/Bytecode.antt =====
-- src/compiler.rs, its data: opcodes, instructions, metadata, compiled programs.
-- A `HashMap` with numeric keys is an association list in which the first entry of a key counts;
-- one with text keys is the list of its values, which carry their names.
use minilang_rs.Prelude.{ℕ, List, Bool, String}
use minilang_rs.Prelude.Int.{ℤ, pos}

pub data Opcode : Type 0 where
  load_const load_local store_local load_global store_global : Opcode
  add sub mul div neg : Opcode
  eq ne lt gt le ge : Opcode
  and or not : Opcode
  jump jump_if_false jump_if_true : Opcode
  call return : Opcode
  array_load array_store array_new local_array_load local_array_store alloc_array : Opcode
  print pop dup halt : Opcode

pub record Instruction : Type 0 where
  pub opcode : Opcode
  pub arg1 : ℤ
  pub arg2 : ℤ

-- `Instruction::new` and `Instruction::simple`
abbrev pub instruction : Opcode → ℤ → ℤ → Instruction
instruction o a b = record { opcode = o; arg1 = a; arg2 = b }

abbrev pub simple : Opcode → Instruction
simple o = instruction o (pos 0) (pos 0)

pub record FunctionInfo : Type 0 where
  pub name : String
  pub id : ℕ
  pub entry_pc : ℕ
  pub param_count : ℕ
  pub local_count : ℕ

pub record GlobalInfo : Type 0 where
  pub name : String
  pub slot : ℕ
  pub is_array : Bool
  pub array_size : ℕ

pub record CompiledProgram : Type 0 where
  pub instructions : List Instruction
  pub functions : List (ℕ × FunctionInfo)
  pub globals : List GlobalInfo
  pub main_func_id : ℕ
  pub constants : List ℤ
