-- ===== src/Verifier/Sound/Calls.antt =====
-- src/verifier.rs against src/vm.rs: the call of an accepted instruction.
use minilang_rs.Prelude.{
  ℕ, zero, suc, ◌+◌, ◌-◌, ◌≤◌, ◌≡◌, refl, ap, false, ◌∷◌, arith, some, none, lookup, ltb,
}
use minilang_rs.Prelude.Int.{ℤ, pos, ltb_ℤ}
use minilang_rs.Word.{as_usize}
use minilang_rs.Limits.{max_local_slots}
use minilang_rs.Bytecode.{FunctionInfo}
use minilang_rs.Vm.State.{TrapCode, stack_overflow, Vm, CallFrame}
use minilang_rs.Vm.Execute.{execute_call, copy_arguments, clear_locals, enter, next_base}
use minilang_rs.Vm.Run.{validate_functions}
use minilang_rs.Vm.Post.{
  After, returns, After-bind, After-then, After-fail_if, After-ok_or, After-pure,
}
use minilang_rs.Vm.Bounds.Calls.{validate_functions-lookup}
use minilang_rs.Verifier.Sound.Machine.{Site, Runs, Runs-weaken, pop-Runs, write_local-Runs}

-- The call of an accepted instruction.
module _ {site : Site} {E : TrapCode → Vm → Type 0} {C : Type 0} where
  copy_arguments-Runs :
      (count new_base : ℕ) {depth : ℕ} {vm : Vm}
      → Runs site (count + depth) vm
      → new_base + count ≤ max_local_slots
      → After (λ _. Runs site depth) E C (copy_arguments new_base count vm)
  unfolding copy_arguments
  copy_arguments-Runs zero new_base {depth} h fits =
      After-pure _ _ (Runs-weaken (0 + depth) depth h (omega arith))
  copy_arguments-Runs (suc i) new_base {depth} h fits =
      After-bind _ _ _ (pop-Runs (Runs-weaken (suc i + depth) (suc (i + depth)) h (omega arith)))
        λ arg _ (h₁, _).
          After-then _ _ _ (write_local-Runs (new_base + i) arg (omega (arith, h₁.locals_fit)) h₁)
            λ _ h₂. copy_arguments-Runs i new_base h₂ (omega arith)

  clear_locals-Runs :
      (count new_base first : ℕ) {depth : ℕ} {vm : Vm}
      → Runs site depth vm
      → new_base + first + count ≤ max_local_slots
      → After (λ _. Runs site depth) E C (clear_locals new_base first count vm)
  unfolding clear_locals
  clear_locals-Runs zero new_base first h fits = After-pure _ _ h
  clear_locals-Runs (suc count) new_base first h fits =
      After-then _ _ _ (write_local-Runs (new_base + first) _ (omega (arith, h.locals_fit)) h)
        λ _ h₁. clear_locals-Runs count new_base (first + 1) h₁ (omega arith)

-- The frame that the call opens at the site.
abbrev pub opened : Site → ℕ → CallFrame
opened site func_id = record {
  return_pc = site.pc + 1;
  base_ptr = next_base site.program (site.frame ∷ site.frames);
  func_id = func_id;
}

abbrev pub callee_site : Site → ℕ → FunctionInfo → Site
callee_site site func_id callee = record {
  program = site.program;
  info = callee;
  frame = opened site func_id;
  frames = site.frame ∷ site.frames;
  pc = callee.entry_pc;
}

module _ {site : Site} {E : TrapCode → Vm → Type 0} {C : Type 0} where
  enter-Runs :
      (func_id : ℕ) (callee : FunctionInfo) {depth : ℕ} {vm : Vm}
      → Runs site depth vm
      → lookup func_id site.program.functions ≡ some callee
      → (base : ℕ) → base ≡ next_base site.program (site.frame ∷ site.frames)
      → base + callee.local_count ≤ max_local_slots
      → After
          (λ _. Runs (callee_site site func_id callee) depth)
          E
          C
          (enter base func_id callee.entry_pc vm)
  unfolding enter
  enter-Runs func_id callee {vm = vm} h found base same fits = returns (record {
    at_pc = refl;
    calls = rw (same, h.at_pc, h.calls);
    known = found;
    frame_fits = rw (← same) fits;
    locals_fit = h.locals_fit;
    globals_fit = h.globals_fit;
    depth_fits = h.depth_fits;
  })

  pub execute_call-Runs :
      (arg1 arg2 : ℤ) (callee : FunctionInfo) (depth : ℕ) {vm : Vm}
      → validate_functions site.program.functions ≡ none
      → ltb_ℤ arg1 (pos 0) ≡ false
      → ltb_ℤ arg2 (pos 0) ≡ false
      → lookup (as_usize arg1) site.program.functions ≡ some callee
      → as_usize arg2 ≡ callee.param_count
      → Runs site (as_usize arg2 + depth) vm
      → ((vm' : Vm) → E stack_overflow vm')
      → After
          (λ advance vm'.
            (advance ≡ false) × Runs (callee_site site (as_usize arg1) callee) depth vm')
          E
          C
          (execute_call site.program arg1 arg2 vm)
  unfolding execute_call
  execute_call-Runs arg1 arg2 callee depth {vm} valid n₁ n₂ found arity h e =
      After-fail_if _ _ _ _ (λ t. absurd (ground arith))
        λ _.
          After-fail_if _ _ _ _ (λ t. absurd (ground arith))
            λ _.
              After-ok_or _ _ _ _ (λ t. absurd (ground arith))
                λ func found'.
                  After-fail_if _ _ _ _ (λ t. absurd (ground arith))
                    λ _.
                      After-fail_if _ _ _ _ (λ _. e vm)
                        λ _.
                          After-fail_if _ _ _ _ (λ _. e vm)
                            λ _.
                              After-fail_if _ _ _ _ (λ _. e vm)
                                λ fits.
                                  After-then _ _ _
                                    (copy_arguments-Runs (as_usize arg2) _ h
                                      (args_fit func found' fits))
                                    λ _ h₁.
                                      After-then _ _ _
                                        (clear_locals-Runs _ _ _ h₁ (rest_fits func found' fits))
                                        λ _ h₂.
                                          After-then _ _ _ (entered func found' fits h₂)
                                            λ _ h₃. After-pure _ _ (refl, h₃)
    where
      same :
          (func : FunctionInfo)
          → lookup (as_usize arg1) site.program.functions ≡ some func
          → func ≡ callee
      same func found' = cc

      base : ℕ
      base = next_base site.program vm.call_stack

      args_fit :
          (func : FunctionInfo)
          → lookup (as_usize arg1) site.program.functions ≡ some func
          → ltb max_local_slots (base + func.local_count) ≡ false
          → base + as_usize arg2 ≤ max_local_slots
      args_fit func found' fits = ground (
        arith,
        same func found',
        validate_functions-lookup (as_usize arg1) site.program.functions callee valid found,
      )

      rest_fits :
          (func : FunctionInfo)
          → lookup (as_usize arg1) site.program.functions ≡ some func
          → ltb max_local_slots (base + func.local_count) ≡ false
          → base + as_usize arg2 + (func.local_count - as_usize arg2) ≤ max_local_slots
      rest_fits func found' fits = ground (
        arith,
        same func found',
        validate_functions-lookup (as_usize arg1) site.program.functions callee valid found,
      )

      entered :
          (func : FunctionInfo)
          → lookup (as_usize arg1) site.program.functions ≡ some func
          → ltb max_local_slots (base + func.local_count) ≡ false
          → {vm' : Vm} → Runs site depth vm'
          → After
              (λ _. Runs (callee_site site (as_usize arg1) callee) depth)
              E
              C
              (enter base (as_usize arg1) func.entry_pc vm')
      entered func found' fits h' = rw (same func found') (
          enter-Runs (as_usize arg1) callee h' found base (ap (next_base site.program) h.calls)
            (ground (arith, same func found')))
