-- ===== src/Vm/Execute.antt =====
-- src/vm.rs: `execute_instruction`. The Boolean that it gives tells the loop to advance the
-- program counter; `false` means that the instruction has set it.
use minilang_rs.Prelude.{
  ℕ, zero, suc, ◌+◌, ◌-◌, Bool, true, false, not, ◌&&◌, ◌||◌, List, [], ◌∷◌, ◌++◌, Option, none,
  some, length, lookup, replicate, ltb, leb, ◌==◌, if◌then◌else◌,
}
use minilang_rs.Prelude.Int.{ℤ, pos, ltb_ℤ, leb_ℤ, ◌==ℤ◌}
use minilang_rs.Word.{
  undefined, wrapping_add, wrapping_sub, wrapping_mul, checked_neg, checked_div, normalize_i32,
  as_usize,
}
use minilang_rs.Limits.{max_local_slots, max_frames, usize_max}
use minilang_rs.Bytecode.{Opcode, CompiledProgram}
use minilang_rs.Vm.State.{
  CallFrame, ok, trap, panic, M, pure, fail_if, ok_or, or_panic, combinators, ◌>>=◌, ◌>>◌, pop,
  push, divide_by_zero, undefined_local, stack_overflow, undefined_function, stack_underflow,
  invalid_instruction, read_local, write_local, read_global, write_global, last, current_local_slot,
  global_slot, array_size, array_index, global_array_range, local_array_base,
}

-- `if test { 1 } else { 0 }`
abbrev pub truth : Bool → ℤ
truth b = if b then pos 1 else pos 0

-- The arms of the operators that cannot fail once both operands are there.
abbrev pub operator : Opcode → ℤ → ℤ → Option ℤ
operator Opcode.add a b = some (normalize_i32 (wrapping_add a b))
operator Opcode.sub a b = some (normalize_i32 (wrapping_sub a b))
operator Opcode.mul a b = some (normalize_i32 (wrapping_mul a b))
operator Opcode.eq a b = some (truth (a ==ℤ b))
operator Opcode.ne a b = some (truth (not (a ==ℤ b)))
operator Opcode.lt a b = some (truth (ltb_ℤ a b))
operator Opcode.gt a b = some (truth (ltb_ℤ b a))
operator Opcode.le a b = some (truth (leb_ℤ a b))
operator Opcode.ge a b = some (truth (leb_ℤ b a))
operator Opcode.and a b = some (truth (not (a ==ℤ pos 0) && not (b ==ℤ pos 0)))
operator Opcode.or a b = some (truth (not (a ==ℤ pos 0) || not (b ==ℤ pos 0)))
operator _ a b = none

-- `for i in (0..count).rev()`: the arguments go from the stack to the new frame's locals.
unfoldable pub copy_arguments : ℕ → ℕ → M (Unit {0})
copy_arguments new_base zero = pure tt
copy_arguments new_base (suc i) = do
  arg ← pop
  write_local (new_base + i) arg
  copy_arguments new_base i

-- `for i in first..first + count`: the other locals of the frame become undefined.
unfoldable pub clear_locals : ℕ → ℕ → ℕ → M (Unit {0})
clear_locals new_base first zero = pure tt
clear_locals new_base first (suc count) = do
  write_local (new_base + first) undefined
  clear_locals new_base (first + 1) count

-- The base of the frame that a call opens: behind the locals of the current one.
unfoldable pub next_base : CompiledProgram → List CallFrame → ℕ
next_base program frames = elim (last frames) [
  | some frame ↦
      frame.base_ptr
      + elim (lookup frame.func_id program.functions) [ some f ↦ f.local_count | none ↦ 0 ]
  | none ↦ elim (lookup 0 program.functions) [ some f ↦ f.local_count | none ↦ 0 ]
]

unfoldable pub enter : ℕ → ℕ → ℕ → M (Unit {0})
enter new_base func_id entry_pc vm = ok tt (record vm {
  call_stack =
      record { return_pc = vm.pc + 1; base_ptr = new_base; func_id = func_id } ∷ vm.call_stack;
  pc = entry_pc;
})

unfoldable pub execute_call : CompiledProgram → ℤ → ℤ → M Bool
unfolding as_usize
execute_call program arg1 arg2 vm =
    (do
      fail_if (ltb_ℤ arg1 (pos 0)) invalid_instruction
      fail_if (ltb_ℤ arg2 (pos 0)) invalid_instruction
      let func_id = as_usize arg1
      let arg_count = as_usize arg2
      func ← ok_or (lookup func_id program.functions) undefined_function
      fail_if (not (arg_count == func.param_count)) invalid_instruction
      fail_if (leb max_frames (length vm.call_stack)) stack_overflow
      let new_base = next_base program vm.call_stack
      fail_if (ltb usize_max (new_base + func.local_count)) stack_overflow
      fail_if (ltb max_local_slots (new_base + func.local_count)) stack_overflow
      copy_arguments new_base arg_count
      clear_locals new_base arg_count (func.local_count - arg_count)
      enter new_base func_id func.entry_pc
      pure false)
      vm

-- `self.call_stack.pop().unwrap()`
unfoldable pub pop_frame : List CallFrame → M CallFrame
pop_frame [] vm = panic
pop_frame (frame ∷ frames) vm = ok frame (record vm { call_stack = frames })

-- The sentinel `usize::MAX` marks the return from main, which leaves the program counter alone.
unfoldable pub return_to : ℕ → M (Unit {0})
return_to return_pc vm =
    if return_pc == usize_max then ok tt vm else ok tt (record vm { pc = return_pc })

unfoldable pub execute_return : M Bool
execute_return = do
  return_value ← pop
  frame ← λ vm. pop_frame vm.call_stack vm
  push return_value
  return_to frame.return_pc
  pure false

-- A jump whose test has been decided.
unfoldable pub jump_when : Bool → ℤ → M Bool
unfolding as_usize
jump_when taken target vm =
    if taken then ok false (record vm { pc = as_usize target }) else ok true vm

unfoldable pub append_zeros : ℕ → M ℕ
append_zeros size vm =
    ok (length vm.locals) (record vm { locals = vm.locals ++ replicate size (pos 0) })

unfoldable pub print_value : ℤ → M (Unit {0})
print_value value vm = ok tt (record vm { output = vm.output ++ value ∷ [] })

unfoldable pub peek : List ℤ → M ℤ
peek [] vm = trap stack_underflow vm
peek (v ∷ s) vm = ok v vm

-- `self.stack.pop().unwrap_or(0)`, with the call stack cleared.
unfoldable pub halt_with : List ℤ → M ℤ
halt_with [] vm = ok (pos 0) (record vm { call_stack = [] })
halt_with (v ∷ s) vm = ok v (record vm { stack = s; call_stack = [] })

unfoldable pub binary : Opcode → M Bool
binary o = do b ← pop; a ← pop; v ← or_panic (operator o a b); push v; pure true

-- This name opens all that the instructions call.
unfoldable pub execution : Unit {0}
unfolding combinators pop push read_local write_local read_global write_global current_local_slot
    global_slot array_size array_index global_array_range local_array_base copy_arguments
    clear_locals next_base enter pop_frame return_to execute_call execute_return jump_when
    append_zeros print_value peek halt_with binary checked_neg checked_div normalize_i32
    wrapping_add wrapping_sub wrapping_mul
execution = tt

unfoldable pub execute_instruction : CompiledProgram → Opcode → ℤ → ℤ → M Bool
unfolding pop push binary execute_call execute_return jump_when append_zeros print_value peek
    halt_with read_local write_local read_global write_global current_local_slot global_slot
    array_size array_index global_array_range local_array_base checked_neg checked_div normalize_i32
execute_instruction program Opcode.load_const arg1 arg2 = do push arg1; pure true
execute_instruction program Opcode.load_local arg1 arg2 = do
  slot ← current_local_slot program arg1
  value ← read_local slot
  fail_if (value ==ℤ undefined) undefined_local
  push value
  pure true
execute_instruction program Opcode.store_local arg1 arg2 = do
  value ← pop
  slot ← current_local_slot program arg1
  write_local slot value
  pure true
execute_instruction program Opcode.load_global arg1 arg2 = do
  slot ← global_slot arg1
  value ← read_global slot
  push value
  pure true
execute_instruction program Opcode.store_global arg1 arg2 = do
  slot ← global_slot arg1
  value ← pop
  write_global slot value
  pure true
execute_instruction program Opcode.div arg1 arg2 = do
  b ← pop
  a ← pop
  fail_if (b ==ℤ pos 0) divide_by_zero
  q ← or_panic (checked_div a b)
  push (normalize_i32 q)
  pure true
execute_instruction program Opcode.neg arg1 arg2 = do
  a ← pop
  n ← or_panic (checked_neg a)
  push (normalize_i32 n)
  pure true
execute_instruction program Opcode.not arg1 arg2 = do a ← pop; push (truth (a ==ℤ pos 0)); pure true
execute_instruction program Opcode.jump arg1 arg2 = jump_when true arg1
execute_instruction program Opcode.jump_if_false arg1 arg2 = do
  condition ← pop
  jump_when (condition ==ℤ pos 0) arg1
execute_instruction program Opcode.jump_if_true arg1 arg2 = do
  condition ← pop
  jump_when (not (condition ==ℤ pos 0)) arg1
execute_instruction program Opcode.call arg1 arg2 = execute_call program arg1 arg2
execute_instruction program Opcode.return arg1 arg2 = execute_return
execute_instruction program Opcode.array_load arg1 arg2 = do
  range ← global_array_range arg1 arg2
  raw_index ← pop
  index ← array_index raw_index range.1
  value ← read_global (range.0 + index)
  push value
  pure true
execute_instruction program Opcode.array_store arg1 arg2 = do
  range ← global_array_range arg1 arg2
  value ← pop
  raw_index ← pop
  index ← array_index raw_index range.1
  write_global (range.0 + index) value
  pure true
execute_instruction program Opcode.local_array_load arg1 arg2 = do
  size ← array_size arg2
  raw_index ← pop
  index ← array_index raw_index size
  ref_slot ← current_local_slot program arg1
  array_base ← local_array_base ref_slot size
  value ← read_local (array_base + index)
  push value
  pure true
execute_instruction program Opcode.local_array_store arg1 arg2 = do
  size ← array_size arg2
  value ← pop
  raw_index ← pop
  index ← array_index raw_index size
  ref_slot ← current_local_slot program arg1
  array_base ← local_array_base ref_slot size
  write_local (array_base + index) value
  pure true
execute_instruction program Opcode.alloc_array arg1 arg2 = do
  size ← array_size arg1
  base ← append_zeros size
  push (pos base)
  pure true
execute_instruction program Opcode.array_new arg1 arg2 = do
  size ← array_size arg1
  base ← append_zeros size
  push (pos base)
  pure true
execute_instruction program Opcode.print arg1 arg2 = do value ← pop; print_value value; pure true
execute_instruction program Opcode.pop arg1 arg2 = do _ ← pop; pure true
execute_instruction program Opcode.dup arg1 arg2 = do
  value ← λ vm. peek vm.stack vm
  push value
  pure true
execute_instruction program Opcode.halt arg1 arg2 = do
  ret ← λ vm. halt_with vm.stack vm
  push ret
  pure false
execute_instruction program operation arg1 arg2 = binary operation
