-- ===== src/Verifier/Sound/Ends.antt =====
-- src/verifier.rs against src/vm.rs: the common ends of the arms.
use minilang_rs.Prelude.{
  ℕ, suc, ◌+◌, ◌≤◌, ◌<◌, ◌≡◌, sym, refl, Bool, true, false, List, [], ◌∷◌, arith, contains,
}
use minilang_rs.Prelude.Int.{ℤ}
use minilang_rs.Word.{as_usize}
use minilang_rs.Bytecode.{Opcode}
use minilang_rs.Vm.State.{TrapCode, Vm, pop, push, ◌>>◌, pure}
use minilang_rs.Vm.Execute.{execute_instruction, jump_when}
use minilang_rs.Vm.Post.{After, returns, After-then, After-pure}
use minilang_rs.Vm.Bounds.Arms.{Overflows}
use minilang_rs.Verifier.Report.{AbstractState, FunctionRange, Step, Log}
use minilang_rs.Verifier.Sound.Machine.{Site, Runs, Runs-weaken, pop-Runs, push-Runs}
use minilang_rs.Verifier.Step.{fall_through, terminal, step_instruction}
use minilang_rs.Verifier.Rules.{Verdict, Verdict-accept}
use minilang_rs.Verifier.Sound.Follows.{MayTrap, full, Follows, falls, jumps}

-- The step of an arm that falls through.
abbrev pub fall_step : ℕ → AbstractState → Step
fall_step pc state = record { state = state; successors = (pc + 1) ∷ []; call_edges = [] }

pub fall_through-Verdict :
    {Q : Step → Log → Type 0} (pc : ℕ) (state : AbstractState) (log : Log)
    → Q (fall_step pc state) log
    → Verdict Q (fall_through pc state log)
unfolding fall_through
fall_through-Verdict pc state log h = Verdict-accept _ _ h

pub terminal-Verdict :
    {Q : Step → Log → Type 0} (state : AbstractState) (successors : List ℕ) (log : Log)
    → Q (record { state = state; successors = successors; call_edges = [] }) log
    → Verdict Q (terminal state successors log)
unfolding terminal
terminal-Verdict state successors log h = Verdict-accept _ _ h

module _ {site : Site} {C : Type 0} where
  -- The common ends of the arms.
  pub falls_through :
      {E : TrapCode → Vm → Type 0} {vm : Vm} (depth : ℕ) (state : AbstractState)
      → Runs site depth vm
      → state.stack_depth ≤ depth
      → After (Follows site (fall_step site.pc state)) E C (pure true vm)
  falls_through depth state h le =
      After-pure _ _ (falls (ground arith) (Runs-weaken depth state.stack_depth h le))

  pub pushes :
      {o : Opcode} {log : Log} {vm : Vm} (v : ℤ) (depth : ℕ) (state : AbstractState)
      → Runs site depth vm
      → state.stack_depth ≤ suc depth
      → After
          (Follows site (fall_step site.pc state))
          (λ code _. MayTrap o log code)
          C
          ((push v >> pure true) vm)
  pushes v depth state h le =
      After-then _ _ _ (push-Runs v h (λ _. full)) λ _ h₁. falls_through (suc depth) state h₁ le

  pub pops :
      {E : TrapCode → Vm → Type 0} {vm : Vm} (depth less : ℕ)
      → Runs site depth vm
      → suc less ≤ depth
      → After (λ v vm'. Runs site less vm' × (vm.stack ≡ v ∷ vm'.stack)) E C (pop vm)
  pops depth less h le = pop-Runs (Runs-weaken depth (suc less) h le)

  -- A jump that is taken or not, to a target that the step names.
  pub jumps_when :
      {E : TrapCode → Vm → Type 0} {vm : Vm} (taken : Bool) (target : ℕ) (raw : ℤ) (step : Step)
      → Runs site step.state.stack_depth vm
      → target ≡ as_usize raw
      → contains target step.successors ≡ true
      → (taken ≡ false → contains (site.pc + 1) step.successors ≡ true)
      → After (Follows site step) E C (jump_when taken raw vm)
  unfolding jump_when
  jumps_when true target raw step h same there next = returns (
      jumps target there (record {
        at_pc = sym same;
        calls = h.calls;
        known = h.known;
        frame_fits = h.frame_fits;
        locals_fit = h.locals_fit;
        globals_fit = h.globals_fit;
        depth_fits = h.depth_fits;
      }))
  jumps_when false target raw step h same there next = returns (falls (next refl) h)

-- What the verifier computes for the instruction, the machine does.
abbrev pub Sound : Site → FunctionRange → ℤ → ℤ → AbstractState → Log → Vm → Opcode → Type 0
Sound site range arg1 arg2 state log vm o =
    Verdict
      (λ step log'.
        After (Follows site step) (λ code _. MayTrap o log' code) (Overflows o vm.stack)
          (execute_instruction site.program o arg1 arg2 vm))
      (step_instruction site.program range site.pc o arg1 arg2 state log)

pub in_frame :
    (site : Site) (range : FunctionRange) (raw : ℤ) {slot : ℕ}
    → range.info ≡ site.info
    → slot ≡ as_usize raw
    → slot < range.info.local_count
    → as_usize raw < site.info.local_count
in_frame site range raw same_info same lt = ground (arith, same_info)
