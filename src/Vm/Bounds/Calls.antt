-- ===== src/Vm/Bounds/Calls.antt =====
-- src/vm.rs: the bounds across `Opcode::Call`.
use minilang_rs.Prelude.{
  ℕ, zero, suc, ◌+◌, ◌-◌, ◌≤◌, ◌<◌, ◌≡◌, refl, ap, false, not, List, [], ◌∷◌, length, arith, some,
  none, lookup, ltb, ◌==◌,
}
use minilang_rs.Prelude.Int.{ℤ}
use minilang_rs.Word.{as_usize}
use minilang_rs.Limits.{max_local_slots, max_frames}
use minilang_rs.Bytecode.{FunctionInfo, CompiledProgram}
use minilang_rs.Vm.State.{Vm, Outcome}
use minilang_rs.Vm.Execute.{execute_call, copy_arguments, clear_locals, enter, next_base}
use minilang_rs.Vm.Run.{validate_functions}
use minilang_rs.Vm.Post.{
  After, After-weaken, After-bind, After-then, After-fail_if, After-ok_or, After-of, After-pure,
}
use minilang_rs.Vm.Bounds.Helpers.{IsBounded, Kept, Keeps, pop-Keeps, write_local-Keeps}

-- Validation leaves no function with more parameters than local slots.
pub validate_functions-lookup :
    (id : ℕ) (functions : List (ℕ × FunctionInfo)) (f : FunctionInfo)
    → validate_functions functions ≡ none
    → lookup id functions ≡ some f
    → (f.param_count ≤ f.local_count) × (f.local_count ≤ max_local_slots)
unfolding validate_functions
validate_functions-lookup id [] f valid found = absurd (ground arith)
validate_functions-lookup id ((key, g) ∷ functions) f valid found =
    ground (arith, validate_functions-lookup id functions f)

module _ {start : Vm} {C : Type 0} where
  copy_arguments-Keeps :
      (count new_base : ℕ) {vm : Vm}
      → Kept start vm
      → new_base + count ≤ max_local_slots
      → Keeps start C (copy_arguments new_base count vm)
  unfolding copy_arguments
  copy_arguments-Keeps zero new_base h fits = After-pure _ _ h
  copy_arguments-Keeps (suc i) new_base h fits = After-bind _ _ _ (pop-Keeps h) λ arg _ (h₁, _).
      After-then _ _ _
        (write_local-Keeps h₁ (new_base + i) arg (omega (arith, h₁.bounded.locals_fit)))
        λ _ h₂. copy_arguments-Keeps i new_base h₂ (omega arith)

  clear_locals-Keeps :
      (count new_base first : ℕ) {vm : Vm}
      → Kept start vm
      → new_base + first + count ≤ max_local_slots
      → Keeps start C (clear_locals new_base first count vm)
  unfolding clear_locals
  clear_locals-Keeps zero new_base first h fits = After-pure _ _ h
  clear_locals-Keeps (suc count) new_base first h fits =
      After-then _ _ _
        (write_local-Keeps h (new_base + first) _ (omega (arith, h.bounded.locals_fit)))
        λ _ h₁. clear_locals-Keeps count new_base (first + 1) h₁ (omega arith)

-- Bounded, with the counters of `start`, whatever the frames.
pub record Stepped (start vm : Vm) : Type 0 where
  pub bounded : IsBounded vm
  pub same_cycles : vm.cycles ≡ start.cycles
  pub same_limit : vm.max_cycles ≡ start.max_cycles

pub Kept-Stepped : {start vm : Vm} → Kept start vm → Stepped start vm
Kept-Stepped h = record {
  bounded = h.bounded;
  same_cycles = h.same_cycles;
  same_limit = h.same_limit;
}

abbrev pub Steps : {A : Type 0} → Vm → Type 0 → Outcome A → Type 0
Steps start C o = After (λ _. Stepped start) (λ _. Stepped start) C o

enter-Steps :
    (new_base func_id entry_pc : ℕ) {start vm : Vm} {C : Type 0}
    → Kept start vm
    → length start.call_stack < max_frames
    → Steps start C (enter new_base func_id entry_pc vm)
unfolding enter
enter-Steps new_base func_id entry_pc {start} {vm} h room =
    After-of (enter new_base func_id entry_pc vm) (ground (arith, frames_eq))
  where
    frames_eq : length vm.call_stack ≡ length start.call_stack
    frames_eq = ap length h.same_frames

pub execute_call-Steps :
    (program : CompiledProgram) (arg1 arg2 : ℤ) {start : Vm} {C : Type 0}
    → validate_functions program.functions ≡ none
    → IsBounded start
    → Steps start C (execute_call program arg1 arg2 start)
unfolding execute_call
execute_call-Steps program arg1 arg2 {start} {C} valid bounded =
    After-fail_if _ _ _ _ (λ _. here)
      λ _.
        After-fail_if _ _ _ _ (λ _. here)
          λ _.
            After-ok_or _ _ _ _ (λ _. here)
              λ func found.
                After-fail_if _ _ _ _ (λ _. here)
                  λ arity.
                    After-fail_if _ _ _ _ (λ _. here)
                      λ room.
                        After-fail_if _ _ _ _ (λ _. here)
                          λ _.
                            After-fail_if _ _ _ _ (λ _. here)
                              λ fits.
                                After-then _ _ _
                                  (widen (
                                    copy_arguments-Keeps _ _ same (args_fit func found arity fits)))
                                  λ _ h.
                                    After-then _ _ _
                                      (widen (
                                        clear_locals-Keeps _ _ _ h
                                          (rest_fits func found arity fits)))
                                      λ _ h₁.
                                        After-then _ _ _ (enter-Steps _ _ _ h₁ (ground arith))
                                          λ _ h₂. After-pure _ _ h₂
  where
    here : Stepped start start
    here = record { bounded = bounded; same_cycles = refl; same_limit = refl }

    same : Kept start start
    same = record { bounded = bounded; same_frames = refl; same_cycles = refl; same_limit = refl }

    widen :
        {A : Type 0} {o : Outcome A}
        → Keeps start C o
        → After (λ _. Kept start) (λ _. Stepped start) C o
    widen k = After-weaken k (λ _ _ q. q) (λ _ _. Kept-Stepped) (λ c. c)

    args_fit :
        (func : FunctionInfo)
        → lookup (as_usize arg1) program.functions ≡ some func
        → not (as_usize arg2 == func.param_count) ≡ false
        → ltb max_local_slots (next_base program start.call_stack + func.local_count) ≡ false
        → next_base program start.call_stack + as_usize arg2 ≤ max_local_slots
    args_fit func found arity fits =
        ground (arith, validate_functions-lookup (as_usize arg1) program.functions func valid found)

    rest_fits :
        (func : FunctionInfo)
        → lookup (as_usize arg1) program.functions ≡ some func
        → not (as_usize arg2 == func.param_count) ≡ false
        → ltb max_local_slots (next_base program start.call_stack + func.local_count) ≡ false
        → next_base program start.call_stack + as_usize arg2 + (func.local_count - as_usize arg2)
          ≤ max_local_slots
    rest_fits func found arity fits =
        ground (arith, validate_functions-lookup (as_usize arg1) program.functions func valid found)
