-- ===== src/Verifier/Sound/Arrays.antt =====
-- src/verifier.rs against src/vm.rs: arrays among the accepted instructions.
use minilang_rs.Prelude.{suc, ◌+◌, ◌≡◌, refl, true, arith}
use minilang_rs.Prelude.Int.{ℤ, pos}
use minilang_rs.Bytecode.{Opcode}
use minilang_rs.Vm.State.{Vm, array_size, push, ◌>>=◌, ◌>>◌, pure}
use minilang_rs.Vm.Execute.{append_zeros, execute_instruction}
use minilang_rs.Vm.Post.{After, After-bind, After-then}
use minilang_rs.Verifier.Report.{AbstractState, FunctionRange, Log}
use minilang_rs.Verifier.Sound.Machine.{
  Site, Runs, read_local-Runs, write_local-Runs, read_global-Runs, write_global-Runs,
  current_local_slot-Runs, array_size-Runs, array_index-Runs, local_array_base-Runs,
  append_zeros-Runs, global_array_range-Runs,
}
use minilang_rs.Verifier.Step.{
  ◌>>=◌ as sequence, array_size as check_size, push_stack, fall_through, step_instruction,
}
use minilang_rs.Verifier.Rules.{
  Verdict, Verdict-bind, Verdict-note_if, pop_stack-Verdict, local_slot-Verdict, array_size-Verdict,
  global_array_range-Verdict,
}
use minilang_rs.Verifier.Sound.Follows.{MayTrap, outside, no_reference, stray_reference, Follows}
use minilang_rs.Verifier.Sound.Ends.{
  fall_through-Verdict, falls_through, pushes, pops, Sound, in_frame,
}

module _ (site : Site) (range : FunctionRange) (same_info : range.info ≡ site.info) (arg1 arg2 : ℤ)
    (state : AbstractState) (log : Log) {vm : Vm} (h : Runs site state.stack_depth vm) where
  pub array_load-Sound : Sound site range arg1 arg2 state log vm Opcode.array_load
  unfolding execute_instruction step_instruction push_stack
  array_load-Sound =
      Verdict-bind _ _ _ (global_array_range-Verdict site.pc log arg1 arg2)
        λ _ log₁ (_, n₁, n₂, lt, fits, _).
          Verdict-bind _ _ _ (pop_stack-Verdict site.pc log₁ state 1) λ state₁ log₂ (d, _, _).
            Verdict-note_if _ _ _ _ λ log₃ _ noted. fall_through-Verdict _ _ _ (
              After-bind _ _ _ (global_array_range-Runs arg1 arg2 n₁ n₂ lt fits h)
                λ r _ (h₁, within).
                  After-bind _ _ _ (pops state.stack_depth state₁.stack_depth h₁ (omega arith))
                    λ raw _ (h₂, _).
                      After-bind _ _ _ (array_index-Runs raw r.1 h₂ (λ _. outside (noted refl)))
                        λ index _ (h₃, small).
                          After-bind _ _ _ (read_global-Runs (r.0 + index) (omega arith) h₃)
                            λ value _ h₄. pushes value state₁.stack_depth _ h₄ (omega arith))

  pub array_store-Sound : Sound site range arg1 arg2 state log vm Opcode.array_store
  unfolding execute_instruction step_instruction
  array_store-Sound =
      Verdict-bind _ _ _ (global_array_range-Verdict site.pc log arg1 arg2)
        λ _ log₁ (_, n₁, n₂, lt, fits, _).
          Verdict-bind _ _ _ (pop_stack-Verdict site.pc log₁ state 2) λ state₁ log₂ (d, _, _).
            Verdict-note_if _ _ _ _ λ log₃ _ noted. fall_through-Verdict _ _ _ (
              After-bind _ _ _ (global_array_range-Runs arg1 arg2 n₁ n₂ lt fits h)
                λ r _ (h₁, within).
                  After-bind _ _ _
                    (pops state.stack_depth (suc state₁.stack_depth) h₁ (omega arith))
                    λ value _ (h₂, _).
                      After-bind _ _ _
                        (pops (suc state₁.stack_depth) state₁.stack_depth h₂ (omega arith))
                        λ raw _ (h₃, _).
                          After-bind _ _ _ (array_index-Runs raw r.1 h₃ (λ _. outside (noted refl)))
                            λ index _ (h₄, small).
                              After-then _ _ _
                                (write_global-Runs (r.0 + index) value (omega arith) h₄)
                                λ _ h₅. falls_through state₁.stack_depth state₁ h₅ (omega arith))

  pub local_array_load-Sound : Sound site range arg1 arg2 state log vm Opcode.local_array_load
  unfolding execute_instruction step_instruction push_stack
  local_array_load-Sound =
      Verdict-bind _ _ _ (array_size-Verdict site.pc log arg2) λ _ log₁ (_, n₂, _).
        Verdict-bind _ _ _ (local_slot-Verdict site.pc log₁ range arg1)
          λ slot log₂ (same, nonneg, lt, _). Verdict-note_if _ _ _ _ λ log₃ _ _.
            Verdict-bind _ _ _ (pop_stack-Verdict site.pc log₃ state 1) λ state₁ log₄ (d, _, _).
              Verdict-note_if _ _ _ _ λ log₅ _ noted. fall_through-Verdict _ _ _ (
                After-bind _ _ _ (array_size-Runs arg2 n₂ h) λ size _ (h₁, _).
                  After-bind _ _ _ (pops state.stack_depth state₁.stack_depth h₁ (omega arith))
                    λ raw _ (h₂, _).
                      After-bind _ _ _ (array_index-Runs raw size h₂ (λ _. outside (noted refl)))
                        λ index _ (h₃, small).
                          After-bind _ _ _
                            (current_local_slot-Runs arg1 nonneg
                              (in_frame site range arg1 same_info same lt) h₃)
                            λ ref _ (h₄, within, _).
                              After-bind _ _ _
                                (local_array_base-Runs ref size within h₄ (λ _. no_reference tt)
                                  (λ _. stray_reference tt))
                                λ base _ (h₅, fits).
                                  After-bind _ _ _ (read_local-Runs (base + index) (omega arith) h₅)
                                    λ value _ (h₆, _).
                                      pushes value state₁.stack_depth _ h₆ (omega arith))

  pub local_array_store-Sound : Sound site range arg1 arg2 state log vm Opcode.local_array_store
  unfolding execute_instruction step_instruction
  local_array_store-Sound =
      Verdict-bind _ _ _ (array_size-Verdict site.pc log arg2) λ _ log₁ (_, n₂, _).
        Verdict-bind _ _ _ (local_slot-Verdict site.pc log₁ range arg1)
          λ slot log₂ (same, nonneg, lt, _). Verdict-note_if _ _ _ _ λ log₃ _ _.
            Verdict-bind _ _ _ (pop_stack-Verdict site.pc log₃ state 2) λ state₁ log₄ (d, _, _).
              Verdict-note_if _ _ _ _ λ log₅ _ noted. fall_through-Verdict _ _ _ (
                After-bind _ _ _ (array_size-Runs arg2 n₂ h) λ size _ (h₁, _).
                  After-bind _ _ _
                    (pops state.stack_depth (suc state₁.stack_depth) h₁ (omega arith))
                    λ value _ (h₂, _).
                      After-bind _ _ _
                        (pops (suc state₁.stack_depth) state₁.stack_depth h₂ (omega arith))
                        λ raw _ (h₃, _).
                          After-bind _ _ _
                            (array_index-Runs raw size h₃ (λ _. outside (noted refl)))
                            λ index _ (h₄, small).
                              After-bind _ _ _
                                (current_local_slot-Runs arg1 nonneg
                                  (in_frame site range arg1 same_info same lt) h₄)
                                λ ref _ (h₅, within, _).
                                  After-bind _ _ _
                                    (local_array_base-Runs ref size within h₅ (λ _. no_reference tt)
                                      (λ _. stray_reference tt))
                                    λ base _ (h₆, fits).
                                      After-then _ _ _
                                        (write_local-Runs (base + index) value (omega arith) h₆)
                                        λ _ h₇.
                                          falls_through state₁.stack_depth state₁ h₇ (omega arith))

  new_array-Sound :
      {C : Type 0} (o : Opcode)
      → Verdict
          (λ step log'.
            After
              (Follows site step)
              (λ code _. MayTrap o log' code)
              C
              ((array_size arg1 >>= λ size.
                  append_zeros size >>= λ base. push (pos base) >> pure true)
                vm))
          (sequence (check_size site.pc arg1) (λ _. fall_through site.pc (push_stack state)) log)
  unfolding push_stack
  new_array-Sound o = Verdict-bind _ _ _ (array_size-Verdict site.pc log arg1) λ _ log₁ (_, n₁, _).
      fall_through-Verdict _ _ _ (
        After-bind _ _ _ (array_size-Runs arg1 n₁ h) λ size _ (h₁, _).
          After-bind _ _ _ (append_zeros-Runs size h₁)
            λ base _ h₂. pushes (pos base) state.stack_depth _ h₂ (omega arith))

  pub alloc_array-Sound : Sound site range arg1 arg2 state log vm Opcode.alloc_array
  unfolding execute_instruction step_instruction
  alloc_array-Sound = new_array-Sound Opcode.alloc_array

  pub array_new-Sound : Sound site range arg1 arg2 state log vm Opcode.array_new
  unfolding execute_instruction step_instruction
  array_new-Sound = new_array-Sound Opcode.array_new
