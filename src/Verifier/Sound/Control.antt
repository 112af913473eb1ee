-- ===== src/Verifier/Sound/Control.antt =====
-- src/verifier.rs against src/vm.rs: jumps, calls and the rest among the accepted instructions.
use minilang_rs.Prelude.{
  ℕ, suc, ◌+◌, ◌≤◌, ◌<◌, ◌≡◌, refl, Bool-cases, inl, inr, Bool, true, false, List, [], ◌∷◌, length,
  arith, none, leb, ◌==◌,
}
use minilang_rs.Prelude.Int.{ℤ}
use minilang_rs.Word.{as_usize}
use minilang_rs.Limits.{max_operand_stack, usize_max}
use minilang_rs.Bytecode.{Opcode}
use minilang_rs.Vm.State.{TrapCode, cycle_limit, Vm, CallFrame, pop, push, ◌>>=◌, ◌>>◌, pure}
use minilang_rs.Vm.Execute.{
  execute_instruction, execute_return, return_to, pop_frame, halt_with, peek, print_value,
  jump_when,
}
use minilang_rs.Vm.Run.{validate_functions}
use minilang_rs.Vm.Post.{After, returns, traps, After-weaken, After-bind, After-then, After-pure}
use minilang_rs.Verifier.Report.{AbstractState, FunctionRange, Step, Log}
use minilang_rs.Verifier.Sound.Machine.{Site, Runs, Runs-weaken}
use minilang_rs.Verifier.Step.{
  ◌>>=◌ as sequence, ◌>>◌ as also, note_if, jump_target, step_call, pop_stack, push_stack, terminal,
  step_instruction,
}
use minilang_rs.Verifier.Rules.{
  Verdict, Verdict-accept, Verdict-bind, Verdict-require, Verdict-reject_if, Verdict-note_if,
  pop_stack-Verdict, jump_target-Verdict,
}
use minilang_rs.Verifier.Sound.Follows.{MayTrap, full, Follows, enters, leaves, halts}
use minilang_rs.Verifier.Sound.Calls.{execute_call-Runs}
use minilang_rs.Verifier.Sound.Ends.{
  fall_through-Verdict, terminal-Verdict, falls_through, pushes, pops, jumps_when, Sound,
}

-- The ends of the arms that are met once.
module _ {site : Site} {C : Type 0} {E : TrapCode → Vm → Type 0} where
  print_value-Runs :
      {depth : ℕ} {vm : Vm} (v : ℤ)
      → Runs site depth vm
      → After (λ _. Runs site depth) E C (print_value v vm)
  unfolding print_value
  print_value-Runs v h = returns (ground (arith, h))

  peek-Runs :
      {depth : ℕ} {vm : Vm} (stack : List ℤ)
      → Runs site depth vm
      → 0 < length stack
      → After (λ _. Runs site depth) E C (peek stack vm)
  unfolding peek
  peek-Runs [] h lt = absurd (omega arith)
  peek-Runs (v ∷ s) h lt = returns h

module _ {C : Type 0} {o : Opcode} {log : Log} where
  halt_with-Clears :
      (vm : Vm) (stack : List ℤ)
      → After (λ _ vm'. vm'.call_stack ≡ []) (λ code _. MayTrap o log code) C (halt_with stack vm)
  unfolding halt_with
  halt_with-Clears vm [] = returns refl
  halt_with-Clears vm (v ∷ s) = returns refl

  push-Clears :
      (vm : Vm) (v : ℤ)
      → vm.call_stack ≡ []
      → After (λ _ vm'. vm'.call_stack ≡ []) (λ code _. MayTrap o log code) C (push v vm)
  unfolding push
  push-Clears vm v e = elim (Bool-cases (leb max_operand_stack (length vm.stack))) [
    | inl t ↦ rw (t, push) (traps full)
    | inr f ↦ rw (f, push) (returns e)
  ]

  push_result :
      (site : Site) (vm : Vm) (step : Step) (v : ℤ)
      → vm.call_stack ≡ site.frames
      → vm.pc ≡ site.pc
      → step.state.stack_depth ≤ length vm.stack
      → After
          (λ _ vm'.
            (vm'.call_stack ≡ site.frames)
            × (vm'.pc ≡ site.pc)
            × (suc step.state.stack_depth ≤ length vm'.stack))
          (λ code _. MayTrap o log code)
          C
          (push v vm)
  unfolding push
  push_result site vm step v c p d = elim (Bool-cases (leb max_operand_stack (length vm.stack))) [
    | inl t ↦ rw (t, push) (traps full)
    | inr f ↦ rw (f, push) (returns (c, p, omega arith))
  ]

module _ {site : Site} {C : Type 0} {o : Opcode} {log : Log} where
  halt-Halts :
      (vm : Vm) (step : Step)
      → After
          (Follows site step)
          (λ code _. MayTrap o log code)
          C
          (((λ (m : Vm). halt_with m.stack m) >>= λ ret. push ret >> pure false) vm)
  halt-Halts vm step =
      After-bind _ _ _ (halt_with-Clears vm vm.stack)
        λ ret vm₁ e. After-then _ _ _ (push-Clears vm₁ ret e) λ _ e₁. After-pure _ _ (halts e₁)

  pop_frame-Leaves :
      {depth : ℕ} {vm : Vm} (frames : List CallFrame)
      → Runs site depth vm
      → vm.call_stack ≡ frames
      → After
          (λ frame vm'.
            (frame ≡ site.frame)
            × (vm'.call_stack ≡ site.frames)
            × (vm'.pc ≡ site.pc)
            × (vm'.stack ≡ vm.stack))
          (λ code _. MayTrap o log code)
          C
          (pop_frame frames vm)
  unfolding pop_frame
  pop_frame-Leaves [] h e = absurd (cc (h.calls))
  pop_frame-Leaves (f ∷ fs) h e = returns (cc (h.calls), cc (h.calls), h.at_pc, refl)

  return_to-Leaves :
      (vm : Vm) (step : Step) (frame : CallFrame)
      → frame ≡ site.frame
      → vm.call_stack ≡ site.frames
      → vm.pc ≡ site.pc
      → suc step.state.stack_depth ≤ length vm.stack
      → After
          (λ _ vm'. Follows site step false vm')
          (λ code _. MayTrap o log code)
          C
          (return_to frame.return_pc vm)
  unfolding return_to
  return_to-Leaves vm step frame f c p d =
      rw f (elim (Bool-cases (site.frame.return_pc == usize_max)) [
        | inl t ↦ rw (t, return_to) (returns (leaves c (rw t p) d))
        | inr u ↦ rw (u, return_to) (returns (leaves c (rw u refl) d))
      ])

  execute_return-Leaves :
      {vm : Vm} (depth : ℕ) (step : Step)
      → Runs site depth vm
      → suc step.state.stack_depth ≤ depth
      → After (Follows site step) (λ code _. MayTrap o log code) C (execute_return vm)
  unfolding execute_return
  execute_return-Leaves depth step h le =
      After-bind _ _ _ (pops depth step.state.stack_depth h le) λ v vm₁ (h₁, _).
        After-bind _ _ _ (pop_frame-Leaves vm₁.call_stack h₁ refl) λ frame vm₂ (f, c, p, st).
          After-then _ _ _ (push_result site vm₂ step v c p (rw st h₁.depth_fits))
            λ vm₃ (c₃, p₃, d₃).
              After-then _ _ _ (return_to-Leaves vm₃ step frame f c₃ p₃ d₃) λ _ l. After-pure _ _ l

module _ (site : Site) (range : FunctionRange) (same_info : range.info ≡ site.info) (arg1 arg2 : ℤ)
    (state : AbstractState) (log : Log) {vm : Vm} (h : Runs site state.stack_depth vm) where
  pub jump-Sound : Sound site range arg1 arg2 state log vm Opcode.jump
  unfolding execute_instruction step_instruction
  jump-Sound =
      Verdict-bind _ _ _ (jump_target-Verdict site.pc log range arg1) λ target log₁ (same, _, _).
        Verdict-note_if _ _ _ _ λ log₂ _ _.
          terminal-Verdict _ _ _ (jumps_when true target arg1 _ h same (ground arith) (λ e. cc))

  pub conditional-Sound :
      (o : Opcode) (test : ℤ → Bool)
      → Verdict
          (λ step log'.
            After
              (Follows site step)
              (λ code _. MayTrap o log' code)
              ⊥
              ((pop >>= λ v. jump_when (test v) arg1) vm))
          (sequence
            (pop_stack site.pc state 1)
            (λ s. sequence (jump_target range site.pc arg1) (λ t.
              also (note_if (leb t site.pc) cycle_limit) (terminal s (t ∷ (site.pc + 1) ∷ []))))
            log)
  conditional-Sound o test =
      Verdict-bind _ _ _ (pop_stack-Verdict site.pc log state 1) λ state₁ log₁ (d, _, _).
        Verdict-bind _ _ _ (jump_target-Verdict site.pc log₁ range arg1) λ target log₂ (same, _, _).
          Verdict-note_if _ _ _ _ λ log₃ _ _. terminal-Verdict _ _ _ (
            After-bind _ _ _ (pops state.stack_depth state₁.stack_depth h (omega arith))
              λ v _ (h₁, _).
                jumps_when (test v) target arg1 _ h₁ same (ground arith) (λ _. ground arith))

  pub call-Sound :
      validate_functions site.program.functions ≡ none
      → Sound site range arg1 arg2 state log vm Opcode.call
  unfolding execute_instruction step_instruction step_call push_stack
  call-Sound valid = Verdict-reject_if _ _ _ _ _ λ n₁. Verdict-reject_if _ _ _ _ _ λ n₂.
      Verdict-require _ _ _ _ _ λ callee found. Verdict-reject_if _ _ _ _ _ λ arity.
        Verdict-bind _ _ _ (pop_stack-Verdict site.pc log state (as_usize arg2))
          λ state₁ log₁ (d, _, _). Verdict-accept _ _ (
            After-weaken
              (execute_call-Runs arg1 arg2 callee state₁.stack_depth valid n₁ n₂ found
                (ground arith)
                (Runs-weaken state.stack_depth (as_usize arg2 + state₁.stack_depth) h (omega arith))
                (λ _. full))
              (λ advance vm' (stays, h₁).
                rw stays
                  (enters callee _ state₁.stack_depth found refl (ground arith) (omega arith) h₁))
              (λ _ _ t. t) (λ c. c))

  pub return-Sound : Sound site range arg1 arg2 state log vm Opcode.return
  unfolding execute_instruction step_instruction
  return-Sound = Verdict-bind _ _ _ (pop_stack-Verdict site.pc log state 1) λ state₁ log₁ (d, _, _).
      terminal-Verdict _ _ _ (execute_return-Leaves state.stack_depth _ h (omega arith))

  pub print-Sound : Sound site range arg1 arg2 state log vm Opcode.print
  unfolding execute_instruction step_instruction
  print-Sound = Verdict-bind _ _ _ (pop_stack-Verdict site.pc log state 1) λ state₁ log₁ (d, _, _).
      fall_through-Verdict _ _ _ (
        After-bind _ _ _ (pops state.stack_depth state₁.stack_depth h (omega arith)) λ v _ (h₁, _).
          After-then _ _ _ (print_value-Runs v h₁)
            λ _ h₂. falls_through state₁.stack_depth state₁ h₂ (omega arith))

  pub pop-Sound : Sound site range arg1 arg2 state log vm Opcode.pop
  unfolding execute_instruction step_instruction
  pop-Sound = Verdict-bind _ _ _ (pop_stack-Verdict site.pc log state 1) λ state₁ log₁ (d, _, _).
      fall_through-Verdict _ _ _ (
        After-bind _ _ _ (pops state.stack_depth state₁.stack_depth h (omega arith))
          λ _ _ (h₁, _). falls_through state₁.stack_depth state₁ h₁ (omega arith))

  pub dup-Sound : Sound site range arg1 arg2 state log vm Opcode.dup
  unfolding execute_instruction step_instruction push_stack
  dup-Sound = Verdict-reject_if _ _ _ _ _ λ some_operand. fall_through-Verdict _ _ _ (
      After-bind _ _ _ (peek-Runs vm.stack h (ground (arith, h.depth_fits)))
        λ v _ h₁. pushes v state.stack_depth _ h₁ (omega arith))

  pub halt-Sound : Sound site range arg1 arg2 state log vm Opcode.halt
  unfolding execute_instruction step_instruction
  halt-Sound = terminal-Verdict _ _ _ (halt-Halts vm _)
