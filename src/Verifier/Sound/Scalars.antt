-- ===== src/Verifier/Sound/Scalars.antt =====
-- src/verifier.rs against src/vm.rs: constants, variables and operators among the accepted instructions.
use minilang_rs.Prelude.{suc, ◌≡◌, refl, arith, none}
use minilang_rs.Prelude.Int.{ℤ}
use minilang_rs.Bytecode.{Opcode}
use minilang_rs.Vm.State.{Vm}
use minilang_rs.Vm.Execute.{execute_instruction, binary, operator}
use minilang_rs.Vm.Post.{After, After-bind, After-then, After-fail_if, After-or_panic}
use minilang_rs.Vm.Bounds.Arms.{IsOperator}
use minilang_rs.Word.Laws.{checked_neg-eq-none, checked_div-eq-none}
use minilang_rs.Verifier.Report.{AbstractState, FunctionRange, Log}
use minilang_rs.Verifier.Sound.Machine.{
  Site, Runs, read_local-Runs, write_local-Runs, read_global-Runs, write_global-Runs,
  current_local_slot-Runs, global_slot-Runs,
}
use minilang_rs.Verifier.Step.{
  ◌>>=◌ as sequence, pop_stack, push_stack, fall_through, step_instruction, initialize,
}
use minilang_rs.Verifier.Rules.{
  Verdict, Verdict-bind, Verdict-note_if, pop_stack-Verdict, local_slot-Verdict,
  global_slot-Verdict,
}
use minilang_rs.Verifier.Sound.Follows.{MayTrap, division, unset, Follows}
use minilang_rs.Verifier.Sound.Ends.{
  fall_through-Verdict, falls_through, pushes, pops, Sound, in_frame,
}

module _ (site : Site) (range : FunctionRange) (same_info : range.info ≡ site.info) (arg1 arg2 : ℤ)
    (state : AbstractState) (log : Log) {vm : Vm} (h : Runs site state.stack_depth vm) where
  pub load_const-Sound : Sound site range arg1 arg2 state log vm Opcode.load_const
  unfolding execute_instruction step_instruction push_stack
  load_const-Sound = fall_through-Verdict _ _ _ (pushes arg1 state.stack_depth _ h (omega arith))

  pub load_local-Sound : Sound site range arg1 arg2 state log vm Opcode.load_local
  unfolding execute_instruction step_instruction push_stack
  load_local-Sound =
      Verdict-bind _ _ _ (local_slot-Verdict site.pc log range arg1)
        λ slot log₁ (same, nonneg, lt, _). Verdict-note_if _ _ _ _ λ log₂ _ _.
          fall_through-Verdict _ _ _ (
            After-bind _ _ _
              (current_local_slot-Runs arg1 nonneg (in_frame site range arg1 same_info same lt) h)
              λ index vm₁ (h₁, within, _).
                After-bind _ _ _ (read_local-Runs index within h₁) λ value vm₂ (h₂, _).
                  After-fail_if _ _ _ _ (λ _. unset refl)
                    λ _. pushes value state.stack_depth _ h₂ (omega arith))

  pub store_local-Sound : Sound site range arg1 arg2 state log vm Opcode.store_local
  unfolding execute_instruction step_instruction initialize
  store_local-Sound =
      Verdict-bind _ _ _ (pop_stack-Verdict site.pc log state 1) λ state₁ log₁ (d, _, _).
        Verdict-bind _ _ _ (local_slot-Verdict site.pc log₁ range arg1)
          λ slot log₂ (same, nonneg, lt, _). fall_through-Verdict _ _ _ (
            After-bind _ _ _ (pops state.stack_depth state₁.stack_depth h (omega arith))
              λ value vm₁ (h₁, _).
                After-bind _ _ _
                  (current_local_slot-Runs arg1 nonneg (in_frame site range arg1 same_info same lt)
                    h₁)
                  λ index vm₂ (h₂, within, _).
                    After-then _ _ _ (write_local-Runs index value within h₂)
                      λ _ h₃. falls_through state₁.stack_depth _ h₃ (omega arith))

  pub load_global-Sound : Sound site range arg1 arg2 state log vm Opcode.load_global
  unfolding execute_instruction step_instruction push_stack
  load_global-Sound =
      Verdict-bind _ _ _ (global_slot-Verdict site.pc log arg1) λ slot log₁ (same, nonneg, lt, _).
        fall_through-Verdict _ _ _ (
          After-bind _ _ _ (global_slot-Runs arg1 nonneg (omega arith) h) λ index _ (h₁, e).
            After-bind _ _ _ (read_global-Runs index (omega arith) h₁)
              λ value _ h₂. pushes value state.stack_depth _ h₂ (omega arith))

  pub store_global-Sound : Sound site range arg1 arg2 state log vm Opcode.store_global
  unfolding execute_instruction step_instruction
  store_global-Sound =
      Verdict-bind _ _ _ (pop_stack-Verdict site.pc log state 1) λ state₁ log₁ (d, _, _).
        Verdict-bind _ _ _ (global_slot-Verdict site.pc log₁ arg1)
          λ slot log₂ (same, nonneg, lt, _). fall_through-Verdict _ _ _ (
            After-bind _ _ _ (global_slot-Runs arg1 nonneg (omega arith) h) λ index _ (h₁, e).
              After-bind _ _ _ (pops state.stack_depth state₁.stack_depth h₁ (omega arith))
                λ value _ (h₂, _).
                  After-then _ _ _ (write_global-Runs index value (omega arith) h₂)
                    λ _ h₃. falls_through state₁.stack_depth state₁ h₃ (omega arith))

  pub binary-Sound :
      (o : Opcode)
      → IsOperator o
      → Verdict
          (λ step log'. After (Follows site step) (λ code _. MayTrap o log' code) ⊥ (binary o vm))
          (sequence (pop_stack site.pc state 2) (λ s. fall_through site.pc (push_stack s)) log)
  unfolding binary push_stack
  binary-Sound o total =
      Verdict-bind _ _ _ (pop_stack-Verdict site.pc log state 2) λ state₁ log₁ (d, _, _).
        fall_through-Verdict _ _ _ (
          After-bind _ _ _ (pops state.stack_depth (suc state₁.stack_depth) h (omega arith))
            λ b _ (h₁, _).
              After-bind _ _ _ (pops (suc state₁.stack_depth) state₁.stack_depth h₁ (omega arith))
                λ a _ (h₂, _).
                  After-or_panic _ _ _ (λ e. impossible a b e)
                    λ v _. pushes v state₁.stack_depth _ h₂ (omega arith))
    where
      impossible : (a b : ℤ) → operator o a b ≡ none → ⊥
      impossible a b e = let (v, q) = total a b in cc

  pub div-Sound : Sound site range arg1 arg2 state log vm Opcode.div
  unfolding execute_instruction step_instruction push_stack
  div-Sound = Verdict-bind _ _ _ (pop_stack-Verdict site.pc log state 2) λ state₁ log₁ (d, _, _).
      Verdict-note_if _ _ _ _ λ log₂ _ noted. fall_through-Verdict _ _ _ (
        After-bind _ _ _ (pops state.stack_depth (suc state₁.stack_depth) h (omega arith))
          λ b vm₁ (h₁, e₁).
            After-bind _ _ _ (pops (suc state₁.stack_depth) state₁.stack_depth h₁ (omega arith))
              λ a vm₂ (h₂, e₂).
                After-fail_if _ _ _ _ (λ _. division (noted refl))
                  λ _.
                    After-or_panic _ _ _ (λ e. rw (e₁, e₂) (checked_div-eq-none a b e))
                      λ q _. pushes _ state₁.stack_depth _ h₂ (omega arith))

  pub neg-Sound : Sound site range arg1 arg2 state log vm Opcode.neg
  unfolding execute_instruction step_instruction push_stack
  neg-Sound = Verdict-bind _ _ _ (pop_stack-Verdict site.pc log state 1) λ state₁ log₁ (d, _, _).
      fall_through-Verdict _ _ _ (
        After-bind _ _ _ (pops state.stack_depth state₁.stack_depth h (omega arith))
          λ a vm₁ (h₁, e₁).
            After-or_panic _ _ _ (λ e. rw e₁ (checked_neg-eq-none a e))
              λ n _. pushes _ state₁.stack_depth _ h₁ (omega arith))

  pub not-Sound : Sound site range arg1 arg2 state log vm Opcode.not
  unfolding execute_instruction step_instruction push_stack
  not-Sound = Verdict-bind _ _ _ (pop_stack-Verdict site.pc log state 1) λ state₁ log₁ (d, _, _).
      fall_through-Verdict _ _ _ (
        After-bind _ _ _ (pops state.stack_depth state₁.stack_depth h (omega arith))
          λ a vm₁ (h₁, _). pushes _ state₁.stack_depth _ h₁ (omega arith))
