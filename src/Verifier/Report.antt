-- ===== src/Verifier/Report.antt =====
-- src/verifier.rs: errors, reports and the verifier's working data.
-- A message is its format, without the numbers and names that are written into it.
use minilang_rs.Prelude.{
  ℕ, Bool, false, List, [], ◌∷◌, ◌++◌, Option, ◌==◌, ◌||◌, if◌then◌else◌, String,
}
use minilang_rs.Bytecode.{FunctionInfo}
use minilang_rs.Vm.State.{
  TrapCode, none_trap, divide_by_zero, undefined_local, array_out_of_bounds, stack_overflow,
  cycle_limit, undefined_function, stack_underflow, invalid_instruction,
}

pub data Message : Type 0 where
  no_functions missing_main too_many_instructions : Message
  zero_size_global global_range_overflow global_exceeds_limit global_overlap : Message
  too_many_params too_many_locals entry_out_of_bounds duplicate_entry : Message
  leaves_range stack_depth_exceeds_limit successor_leaves_range inconsistent_depth : Message
  negative_function_id negative_argument_count undefined_callee wrong_argument_count : Message
  stack_underflow_message stack_underflow_on_dup : Message
  negative_local_slot local_slot_out_of_range negative_global_slot global_slot_out_of_range :
      Message
  array_size_not_positive array_range_exceeds_limit : Message
  negative_jump_target jump_target_out_of_range : Message

pub record VerificationError : Type 0 where
  pub pc : Option ℕ
  pub message : Message

pub record FunctionVerification : Type 0 where
  pub id : ℕ
  pub name : String
  pub entry_pc : ℕ
  pub end_pc : ℕ
  pub reachable_instructions : ℕ
  pub max_stack_depth : ℕ

pub record AbstractState : Type 0 where
  pub stack_depth : ℕ
  pub initialized_locals : List Bool

pub record FunctionRange : Type 0 where
  pub id : ℕ
  pub info : FunctionInfo
  pub start : ℕ
  pub end : ℕ

pub record Step : Type 0 where
  pub state : AbstractState
  pub successors : List ℕ
  pub call_edges : List (ℕ × ℕ)

-- The two vectors that the verifier's functions push to.
pub record Log : Type 0 where
  pub errors : List VerificationError
  pub possible_traps : List TrapCode

-- The discriminants of `TrapCode`.
abbrev pub discriminant : TrapCode → ℕ
discriminant none_trap = 0
discriminant divide_by_zero = 1
discriminant undefined_local = 2
discriminant array_out_of_bounds = 3
discriminant stack_overflow = 4
discriminant cycle_limit = 5
discriminant undefined_function = 6
discriminant stack_underflow = 7
discriminant invalid_instruction = 8

unfoldable pub contains_trap : TrapCode → List TrapCode → Bool
contains_trap trap [] = false
contains_trap trap (t ∷ traps) = discriminant t == discriminant trap || contains_trap trap traps

unfoldable pub push_trap : TrapCode → List TrapCode → List TrapCode
unfolding contains_trap
push_trap trap traps = if contains_trap trap traps then traps else traps ++ trap ∷ []

abbrev pub push_error : Option ℕ → Message → Log → Log
push_error pc message log = record log {
  errors = log.errors ++ record { pc = pc; message = message } ∷ [];
}
