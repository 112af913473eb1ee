-- ===== src/Vm/Bounds/Step.antt =====
-- src/vm.rs: what `execute_instruction` keeps, for every opcode, and when it can panic.
use minilang_rs.Prelude.{
  ℕ, ◌≡◌, ◌≢◌, ◌∙◌, sym, refl, ap, true, not, List, [], ◌∷◌, length, arith, none,
}
use minilang_rs.Prelude.Int.{ℤ, pos, ◌==ℤ◌}
use minilang_rs.Bytecode.{Opcode, CompiledProgram}
use minilang_rs.Vm.State.{Vm, Outcome, push, CallFrame}
use minilang_rs.Vm.Execute.{
  execute_instruction, execute_return, binary, halt_with, pop_frame, return_to,
}
use minilang_rs.Vm.Run.{validate_functions}
use minilang_rs.Vm.Post.{returns, After-weaken, After-bind, After-then, After-of, After-pure}
use minilang_rs.Vm.Bounds.Helpers.{IsBounded, Kept, Keeps, pop-Keeps}
use minilang_rs.Vm.Bounds.Calls.{Stepped, Steps, Kept-Stepped, execute_call-Steps}
use minilang_rs.Vm.Bounds.Arms.{
  Overflows, IsOperator, binary-Keeps, jump_when-Keeps, pop_jump-Keeps, new_array-Keeps,
  load_const-Keeps, load_local-Keeps, store_local-Keeps, load_global-Keeps, store_global-Keeps,
  div-Keeps, neg-Keeps, not-Keeps, array_load-Keeps, array_store-Keeps, local_array_load-Keeps,
  local_array_store-Keeps, print-Keeps, discard-Keeps, dup-Keeps,
}

-- The arms that change the call stack, with what they call.
module _ {start vm : Vm} {C : Type 0} (k : Stepped start vm) where
  push-Steps : (v : ℤ) → Steps start C (push v vm)
  unfolding push
  push-Steps v = After-of (push v vm) (ground (arith, k))

  return_to-Steps : (return_pc : ℕ) → Steps start C (return_to return_pc vm)
  unfolding return_to
  return_to-Steps return_pc = After-of (return_to return_pc vm) (ground (arith, k))

  pop_frame-Steps :
      (frames : List CallFrame)
      → vm.call_stack ≡ frames
      → frames ≢ []
      → Steps start C (pop_frame frames vm)
  unfolding pop_frame
  pop_frame-Steps [] e some_frame = absurd (some_frame refl)
  pop_frame-Steps (frame ∷ frames) e some_frame = returns (ground (arith, k, ap length e))

  halt_with-Steps : (stack : List ℤ) → vm.stack ≡ stack → Steps start C (halt_with stack vm)
  unfolding halt_with
  halt_with-Steps [] e = returns (ground (arith, k))
  halt_with-Steps (v ∷ stack) e = returns (ground (arith, k, ap length e))

module _ {start : Vm} {C : Type 0} (h : Kept start start) where
  -- A return gives its value to the caller, and drops the frame.
  execute_return-Steps : start.call_stack ≢ [] → Steps start C (execute_return start)
  unfolding execute_return
  execute_return-Steps running =
      After-bind _ _ _ (After-weaken (pop-Keeps h) (λ _ _ q. q) (λ _ _. Kept-Stepped) (λ c. c))
        λ v vm₁ (h₁, _).
          After-bind _ _ _
            (pop_frame-Steps (Kept-Stepped h₁) vm₁.call_stack refl
              (λ e. running (sym h₁.same_frames ∙ e)))
            λ frame vm₂ h₂. After-then _ _ _ (push-Steps h₂ v) λ vm₃ h₃.
              After-then _ _ _ (return_to-Steps h₃ frame.return_pc) λ _ h₄. After-pure _ _ h₄

  halt-Steps :
      (program : CompiledProgram) (arg1 arg2 : ℤ)
      → Steps start C (execute_instruction program Opcode.halt arg1 arg2 start)
  unfolding execute_instruction
  halt-Steps program arg1 arg2 =
      After-bind _ _ _ (halt_with-Steps (Kept-Stepped h) start.stack refl)
        λ ret _ h₁. After-then _ _ _ (push-Steps h₁ ret) λ _ h₂. After-pure _ _ h₂

-- In a validated program every instruction keeps the bounds of the stores, whether it succeeds
-- or traps, leaves the counters alone, and panics on the two overflows alone.
pub execute_instruction-Steps :
    (program : CompiledProgram) (opcode : Opcode) (arg1 arg2 : ℤ) (vm : Vm)
    → validate_functions program.functions ≡ none
    → IsBounded vm
    → vm.call_stack ≢ []
    → Steps vm (Overflows opcode vm.stack) (execute_instruction program opcode arg1 arg2 vm)
unfolding execute_instruction
execute_instruction-Steps program opcode arg1 arg2 vm valid bounded running = go opcode
  where
    h : Kept vm vm
    h = record { bounded = bounded; same_frames = refl; same_cycles = refl; same_limit = refl }

    widen : {A : Type 0} {C : Type 0} {o : Outcome A} → Keeps vm C o → Steps vm C o
    widen k = After-weaken k (λ _ _. Kept-Stepped) (λ _ _. Kept-Stepped) (λ c. c)

    operation : (o : Opcode) → IsOperator o → Steps vm ⊥ (binary o vm)
    operation o total = widen (binary-Keeps program arg1 arg2 h o total)

    go : (o : Opcode) → Steps vm (Overflows o vm.stack) (execute_instruction program o arg1 arg2 vm)
    go Opcode.load_const = widen (load_const-Keeps program arg1 arg2 h)
    go Opcode.load_local = widen (load_local-Keeps program arg1 arg2 h)
    go Opcode.store_local = widen (store_local-Keeps program arg1 arg2 h)
    go Opcode.load_global = widen (load_global-Keeps program arg1 arg2 h)
    go Opcode.store_global = widen (store_global-Keeps program arg1 arg2 h)
    go Opcode.add = operation Opcode.add (λ a b. (_, refl))
    go Opcode.sub = operation Opcode.sub (λ a b. (_, refl))
    go Opcode.mul = operation Opcode.mul (λ a b. (_, refl))
    go Opcode.div = widen (div-Keeps program arg1 arg2 h)
    go Opcode.neg = widen (neg-Keeps program arg1 arg2 h)
    go Opcode.eq = operation Opcode.eq (λ a b. (_, refl))
    go Opcode.ne = operation Opcode.ne (λ a b. (_, refl))
    go Opcode.lt = operation Opcode.lt (λ a b. (_, refl))
    go Opcode.gt = operation Opcode.gt (λ a b. (_, refl))
    go Opcode.le = operation Opcode.le (λ a b. (_, refl))
    go Opcode.ge = operation Opcode.ge (λ a b. (_, refl))
    go Opcode.and = operation Opcode.and (λ a b. (_, refl))
    go Opcode.or = operation Opcode.or (λ a b. (_, refl))
    go Opcode.not = widen (not-Keeps program arg1 arg2 h)
    go Opcode.jump = widen (jump_when-Keeps program arg1 arg2 h true arg1 h)
    go Opcode.jump_if_false = widen (pop_jump-Keeps program arg1 arg2 h (λ v. v ==ℤ pos 0))
    go Opcode.jump_if_true = widen (pop_jump-Keeps program arg1 arg2 h (λ v. not (v ==ℤ pos 0)))
    go Opcode.call = execute_call-Steps program arg1 arg2 valid bounded
    go Opcode.return = execute_return-Steps h running
    go Opcode.array_load = widen (array_load-Keeps program arg1 arg2 h)
    go Opcode.array_store = widen (array_store-Keeps program arg1 arg2 h)
    go Opcode.array_new = widen (new_array-Keeps program arg1 arg2 h)
    go Opcode.local_array_load = widen (local_array_load-Keeps program arg1 arg2 h)
    go Opcode.local_array_store = widen (local_array_store-Keeps program arg1 arg2 h)
    go Opcode.alloc_array = widen (new_array-Keeps program arg1 arg2 h)
    go Opcode.print = widen (print-Keeps program arg1 arg2 h)
    go Opcode.pop = widen (discard-Keeps program arg1 arg2 h)
    go Opcode.dup = widen (dup-Keeps program arg1 arg2 h)
    go Opcode.halt = halt-Steps h program arg1 arg2
