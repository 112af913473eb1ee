-- ===== src/Verifier/Step.antt =====
-- src/verifier.rs: `step_instruction` and the checks that it makes.
-- A check that fails pushes an error and gives `none`; Rust's `?` passes that on.
use minilang_rs.Prelude.{
  ℕ, ◌+◌, ◌-◌, Bool, true, false, ◌&&◌, List, [], ◌∷◌, Option, none, some, get_elem?, set, lookup,
  ltb, leb, ◌==◌, if◌then◌else◌, not,
}
use minilang_rs.Prelude.Int.{ℤ, pos, ltb_ℤ, leb_ℤ}
use minilang_rs.Word.{as_usize}
use minilang_rs.Limits.{max_global_slots}
use minilang_rs.Bytecode.{Opcode, CompiledProgram}
use minilang_rs.Vm.State.{
  TrapCode, divide_by_zero, undefined_local, array_out_of_bounds, cycle_limit,
}
use minilang_rs.Verifier.Report.{
  Message, AbstractState, FunctionRange, Step, Log, push_trap, push_error, negative_function_id,
  negative_argument_count, undefined_callee, wrong_argument_count, stack_underflow_message,
  stack_underflow_on_dup, negative_local_slot, local_slot_out_of_range, negative_global_slot,
  global_slot_out_of_range, array_size_not_positive, array_range_exceeds_limit,
  negative_jump_target, jump_target_out_of_range,
}

abbrev pub V : Type 0 → Type 0
V A = Log → Option A × Log

unfoldable pub accept : {A : Type 0} → A → V A
accept a log = (some a, log)

infixl 5 ◌>>=◌ ◌>>◌
unfoldable pub ◌>>=◌ : {A B : Type 0} → V A → (A → V B) → V B
◌>>=◌ m f log = let (r, log') = m log in elim r [ some a ↦ f a log' | none ↦ (none, log') ]

unfoldable pub ◌>>◌ : {B : Type 0} → V (Unit {0}) → V B → V B
unfolding ◌>>=◌
m >> k = m >>= λ _. k

-- `if test { errors.push(…); return None; }`
unfoldable pub reject_if : Bool → ℕ → Message → V (Unit {0})
reject_if bad pc message log =
    if bad then (none, push_error (some pc) message log) else (some tt, log)

-- `let Some(x) = … else { errors.push(…); return None; }`
unfoldable pub require : {A : Type 0} → Option A → ℕ → Message → V A
require o pc message log = elim o [
  | some a ↦ (some a, log)
  | none ↦ (none, push_error (some pc) message log)
]

-- `if test { push_trap(…); }`
unfoldable pub note_if : Bool → TrapCode → V (Unit {0})
unfolding push_trap
note_if test trap log = (
  some tt,
  if test then record log { possible_traps = push_trap trap log.possible_traps } else log,
)

-- This name opens the combinators, which stay shut in proofs by rules.
unfoldable pub checking : Unit {0}
unfolding accept ◌>>=◌ ◌>>◌ reject_if require note_if
checking = tt

unfoldable pub pc_in_range : FunctionRange → ℕ → Bool
pc_in_range range pc = leb range.start pc && ltb pc range.end

unfoldable pub pop_stack : ℕ → AbstractState → ℕ → V AbstractState
pop_stack pc state count = do
  reject_if (ltb state.stack_depth count) pc stack_underflow_message
  accept (record state { stack_depth = state.stack_depth - count })

unfoldable pub push_stack : AbstractState → AbstractState
push_stack state = record state { stack_depth = state.stack_depth + 1 }

unfoldable pub local_slot : FunctionRange → ℕ → ℤ → V ℕ
unfolding as_usize
local_slot range pc raw_slot = do
  reject_if (ltb_ℤ raw_slot (pos 0)) pc negative_local_slot
  reject_if (leb range.info.local_count (as_usize raw_slot)) pc local_slot_out_of_range
  accept (as_usize raw_slot)

unfoldable pub global_slot : ℕ → ℤ → V ℕ
unfolding as_usize
global_slot pc raw_slot = do
  reject_if (ltb_ℤ raw_slot (pos 0)) pc negative_global_slot
  reject_if (leb max_global_slots (as_usize raw_slot)) pc global_slot_out_of_range
  accept (as_usize raw_slot)

unfoldable pub array_size : ℕ → ℤ → V ℕ
unfolding as_usize
array_size pc raw_size = do
  reject_if (leb_ℤ raw_size (pos 0)) pc array_size_not_positive
  accept (as_usize raw_size)

-- `saturating_add` caps the end at `usize::MAX`, which is above the limit as the true end is.
unfoldable pub global_array_range : ℕ → ℤ → ℤ → V (ℕ × ℕ)
global_array_range pc raw_slot raw_size = do
  slot ← global_slot pc raw_slot
  size ← array_size pc raw_size
  reject_if (ltb max_global_slots (slot + size)) pc array_range_exceeds_limit
  accept (slot, size)

unfoldable pub jump_target : FunctionRange → ℕ → ℤ → V ℕ
unfolding as_usize pc_in_range
jump_target range pc raw_target = do
  reject_if (ltb_ℤ raw_target (pos 0)) pc negative_jump_target
  reject_if (not (pc_in_range range (as_usize raw_target))) pc jump_target_out_of_range
  accept (as_usize raw_target)

-- `state.initialized_locals[slot]`, for a slot that `local_slot` has let through.
unfoldable pub is_initialized : AbstractState → ℕ → Bool
is_initialized state slot = elim (get_elem? state.initialized_locals slot) [
  | some b ↦ b
  | none ↦ false
]

unfoldable pub initialize : AbstractState → ℕ → AbstractState
initialize state slot = record state { initialized_locals = set state.initialized_locals slot true }

-- The end of the function where the arm is not terminal.
unfoldable pub fall_through : ℕ → AbstractState → V Step
fall_through pc state =
    accept (record { state = state; successors = (pc + 1) ∷ []; call_edges = [] })

unfoldable pub terminal : AbstractState → List ℕ → V Step
terminal state successors =
    accept (record { state = state; successors = successors; call_edges = [] })

-- The arms that pop `count` operands and push a result.
operands : ℕ → AbstractState → ℕ → V Step
operands pc state count = do state ← pop_stack pc state count; fall_through pc (push_stack state)

conditional_jump : FunctionRange → ℕ → ℤ → AbstractState → V Step
conditional_jump range pc arg1 state = do
  state ← pop_stack pc state 1
  target ← jump_target range pc arg1
  note_if (leb target pc) cycle_limit
  terminal state (target ∷ (pc + 1) ∷ [])

unfoldable pub step_call : CompiledProgram → FunctionRange → ℕ → ℤ → ℤ → AbstractState → V Step
unfolding as_usize
step_call program range pc arg1 arg2 state = do
  reject_if (ltb_ℤ arg1 (pos 0)) pc negative_function_id
  reject_if (ltb_ℤ arg2 (pos 0)) pc negative_argument_count
  callee ← require (lookup (as_usize arg1) program.functions) pc undefined_callee
  reject_if (not (as_usize arg2 == callee.param_count)) pc wrong_argument_count
  state ← pop_stack pc state (as_usize arg2)
  accept (record {
    state = push_stack state;
    successors = (pc + 1) ∷ [];
    call_edges = (range.id, as_usize arg1) ∷ [];
  })

new_array : ℕ → ℤ → AbstractState → V Step
new_array pc arg1 state = do _ ← array_size pc arg1; fall_through pc (push_stack state)

unfoldable pub step_instruction :
    CompiledProgram → FunctionRange → ℕ → Opcode → ℤ → ℤ → AbstractState → V Step
unfolding operands conditional_jump new_array
step_instruction program range pc Opcode.load_const arg1 arg2 state =
    fall_through pc (push_stack state)
step_instruction program range pc Opcode.load_local arg1 arg2 state = do
  slot ← local_slot range pc arg1
  note_if (not (is_initialized state slot)) undefined_local
  fall_through pc (push_stack state)
step_instruction program range pc Opcode.store_local arg1 arg2 state = do
  state ← pop_stack pc state 1
  slot ← local_slot range pc arg1
  fall_through pc (initialize state slot)
step_instruction program range pc Opcode.load_global arg1 arg2 state = do
  _ ← global_slot pc arg1
  fall_through pc (push_stack state)
step_instruction program range pc Opcode.store_global arg1 arg2 state = do
  state ← pop_stack pc state 1
  _ ← global_slot pc arg1
  fall_through pc state
step_instruction program range pc Opcode.div arg1 arg2 state = do
  state ← pop_stack pc state 2
  note_if true divide_by_zero
  fall_through pc (push_stack state)
step_instruction program range pc Opcode.neg arg1 arg2 state = operands pc state 1
step_instruction program range pc Opcode.not arg1 arg2 state = operands pc state 1
step_instruction program range pc Opcode.jump arg1 arg2 state = do
  target ← jump_target range pc arg1
  note_if (leb (as_usize arg1) pc) cycle_limit
  terminal state (target ∷ [])
step_instruction program range pc Opcode.jump_if_false arg1 arg2 state =
    conditional_jump range pc arg1 state
step_instruction program range pc Opcode.jump_if_true arg1 arg2 state =
    conditional_jump range pc arg1 state
step_instruction program range pc Opcode.call arg1 arg2 state =
    step_call program range pc arg1 arg2 state
step_instruction program range pc Opcode.return arg1 arg2 state = do
  state ← pop_stack pc state 1
  terminal state []
step_instruction program range pc Opcode.array_load arg1 arg2 state = do
  _ ← global_array_range pc arg1 arg2
  state ← pop_stack pc state 1
  note_if true array_out_of_bounds
  fall_through pc (push_stack state)
step_instruction program range pc Opcode.array_store arg1 arg2 state = do
  _ ← global_array_range pc arg1 arg2
  state ← pop_stack pc state 2
  note_if true array_out_of_bounds
  fall_through pc state
step_instruction program range pc Opcode.local_array_load arg1 arg2 state = do
  _ ← array_size pc arg2
  slot ← local_slot range pc arg1
  note_if (not (is_initialized state slot)) undefined_local
  state' ← pop_stack pc state 1
  note_if true array_out_of_bounds
  fall_through pc (push_stack state')
step_instruction program range pc Opcode.local_array_store arg1 arg2 state = do
  _ ← array_size pc arg2
  slot ← local_slot range pc arg1
  note_if (not (is_initialized state slot)) undefined_local
  state' ← pop_stack pc state 2
  note_if true array_out_of_bounds
  fall_through pc state'
step_instruction program range pc Opcode.array_new arg1 arg2 state = new_array pc arg1 state
step_instruction program range pc Opcode.alloc_array arg1 arg2 state = new_array pc arg1 state
step_instruction program range pc Opcode.print arg1 arg2 state = do
  state ← pop_stack pc state 1
  fall_through pc state
step_instruction program range pc Opcode.pop arg1 arg2 state = do
  state ← pop_stack pc state 1
  fall_through pc state
step_instruction program range pc Opcode.dup arg1 arg2 state = do
  reject_if (state.stack_depth == 0) pc stack_underflow_on_dup
  fall_through pc (push_stack state)
step_instruction program range pc Opcode.halt arg1 arg2 state = terminal state []
step_instruction program range pc operation arg1 arg2 state = operands pc state 2
