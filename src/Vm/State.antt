-- ===== src/Vm/State.antt =====
-- src/vm.rs: trap codes, call frames, the machine, and the helpers of `execute_instruction`.
-- The operand stack and the call stack are lists with the top first. Trap messages, the debug
-- print, the trace, and the allocator and collector (fields that nothing reads) are left out.
use minilang_rs.Prelude.{
  ℕ, ◌+◌, Bool, List, [], ◌∷◌, Option, none, some, length, get_elem?, set, lookup, replicate, ltb,
  leb, if◌then◌else◌,
}
use minilang_rs.Prelude.Int.{ℤ, pos, ltb_ℤ, ◌==ℤ◌}
use minilang_rs.Word.{undefined, as_usize}
use minilang_rs.Limits.{max_global_slots, max_local_slots, max_operand_stack, max_cycles, usize_max}
use minilang_rs.Bytecode.{CompiledProgram}

pub data TrapCode : Type 0 where
  none_trap divide_by_zero undefined_local array_out_of_bounds : TrapCode
  stack_overflow cycle_limit undefined_function stack_underflow invalid_instruction : TrapCode

pub record CallFrame : Type 0 where
  pub return_pc : ℕ
  pub base_ptr : ℕ
  pub func_id : ℕ

pub record Vm : Type 0 where
  pub stack : List ℤ
  pub locals : List ℤ
  pub globals : List ℤ
  pub call_stack : List CallFrame
  pub pc : ℕ
  pub cycles : ℕ
  pub max_cycles : ℕ
  -- the printed values; the source keeps the texts "OUTPUT: {value}"
  pub output : List ℤ

-- `Vm::new`
unfoldable pub new : Vm
new = record {
  stack = [];
  locals = replicate max_local_slots undefined;
  globals = replicate max_global_slots (pos 0);
  call_stack = [];
  pc = 0;
  cycles = 0;
  max_cycles = max_cycles;
  output = [];
}

-- What a fallible step gives: a value, a trap, or a Rust panic. A trap keeps the machine as the
-- step left it, since the result of a run reports its depth and its output.
pub data Outcome {ℓ} (A : Type ℓ) : Type ℓ where
  ok : A → Vm → Outcome A
  trap : TrapCode → Vm → Outcome A
  panic : Outcome A

abbrev pub M : Type 0 → Type 0
M A = Vm → Outcome A

unfoldable pub pure : {A : Type 0} → A → M A
pure a vm = ok a vm

infixl 5 ◌>>=◌ ◌>>◌
unfoldable pub ◌>>=◌ : {A B : Type 0} → M A → (A → M B) → M B
◌>>=◌ m f vm = elim (m vm) [ ok a vm' ↦ f a vm' | trap c vm' ↦ trap c vm' | panic ↦ panic ]

unfoldable pub ◌>>◌ : {B : Type 0} → M (Unit {0}) → M B → M B
unfolding ◌>>=◌
m >> k = m >>= λ _. k

-- An early return with an error.
unfoldable pub fail_if : Bool → TrapCode → M (Unit {0})
fail_if b code vm = if b then trap code vm else ok tt vm

-- A lookup with `ok_or`.
unfoldable pub ok_or : {A : Type 0} → Option A → TrapCode → M A
ok_or o code vm = elim o [ some a ↦ ok a vm | none ↦ trap code vm ]

-- Arithmetic that panics on overflow.
unfoldable pub or_panic : {A : Type 0} → Option A → M A
or_panic o vm = elim o [ some a ↦ ok a vm | none ↦ panic ]

-- The combinators stay shut in proofs by the rules of `Post`; this name opens them all.
unfoldable pub combinators : Unit {0}
unfolding pure ◌>>=◌ ◌>>◌ fail_if ok_or or_panic
combinators = tt

pop_from : List ℤ → M ℤ
pop_from [] vm = trap stack_underflow vm
pop_from (v ∷ s) vm = ok v (record vm { stack = s })

unfoldable pub pop : M ℤ
unfolding pop_from
pop vm = pop_from vm.stack vm

unfoldable pub push : ℤ → M (Unit {0})
push value vm =
    if leb max_operand_stack (length vm.stack)
    then trap stack_overflow vm
    else ok tt (record vm { stack = value ∷ vm.stack })

-- `self.locals[i]` and `self.globals[i]`: an index out of range panics.
unfoldable pub read_local : ℕ → M ℤ
read_local i vm = elim (get_elem? vm.locals i) [ some v ↦ ok v vm | none ↦ panic ]

unfoldable pub write_local : ℕ → ℤ → M (Unit {0})
write_local i value vm =
    if ltb i (length vm.locals) then ok tt (record vm { locals = set vm.locals i value }) else panic

unfoldable pub read_global : ℕ → M ℤ
read_global i vm = elim (get_elem? vm.globals i) [ some v ↦ ok v vm | none ↦ panic ]

unfoldable pub write_global : ℕ → ℤ → M (Unit {0})
write_global i value vm =
    if ltb i (length vm.globals)
    then ok tt (record vm { globals = set vm.globals i value })
    else panic

abbrev pub last : List CallFrame → Option CallFrame
last [] = none
last (frame ∷ _) = some frame

unfoldable pub current_local_slot : CompiledProgram → ℤ → M ℕ
unfolding as_usize
current_local_slot program raw_slot vm =
    (do
      fail_if (ltb_ℤ raw_slot (pos 0)) invalid_instruction
      frame ← ok_or (last vm.call_stack) invalid_instruction
      let relative_slot = as_usize raw_slot
      func ← ok_or (lookup frame.func_id program.functions) undefined_function
      fail_if (leb func.local_count relative_slot) invalid_instruction
      fail_if (ltb usize_max (frame.base_ptr + relative_slot)) stack_overflow
      fail_if (leb max_local_slots (frame.base_ptr + relative_slot)) stack_overflow
      pure (frame.base_ptr + relative_slot))
      vm

unfoldable pub global_slot : ℤ → M ℕ
unfolding as_usize
global_slot raw_slot vm =
    (do
      fail_if (ltb_ℤ raw_slot (pos 0)) invalid_instruction
      fail_if (leb (length vm.globals) (as_usize raw_slot)) invalid_instruction
      pure (as_usize raw_slot))
      vm

unfoldable pub array_size : ℤ → M ℕ
unfolding as_usize
array_size raw_size = do
  fail_if (ltb_ℤ raw_size (pos 0)) invalid_instruction
  pure (as_usize raw_size)

unfoldable pub array_index : ℤ → ℕ → M ℕ
unfolding as_usize
array_index raw_index size = do
  fail_if (ltb_ℤ raw_index (pos 0)) array_out_of_bounds
  fail_if (leb size (as_usize raw_index)) array_out_of_bounds
  pure (as_usize raw_index)

unfoldable pub global_array_range : ℤ → ℤ → M (ℕ × ℕ)
global_array_range raw_base_slot raw_array_size vm =
    (do
      base_slot ← global_slot raw_base_slot
      size ← array_size raw_array_size
      fail_if (ltb usize_max (base_slot + size)) invalid_instruction
      fail_if (ltb (length vm.globals) (base_slot + size)) invalid_instruction
      pure (base_slot, size))
      vm

unfoldable pub local_array_base : ℕ → ℕ → M ℕ
unfolding as_usize
local_array_base ref_slot size vm =
    (do
      raw_base ← read_local ref_slot
      fail_if (raw_base ==ℤ undefined) undefined_local
      fail_if (ltb_ℤ raw_base (pos 0)) invalid_instruction
      fail_if (ltb usize_max (as_usize raw_base + size)) invalid_instruction
      fail_if (ltb (length vm.locals) (as_usize raw_base + size)) invalid_instruction
      pure (as_usize raw_base))
      vm
