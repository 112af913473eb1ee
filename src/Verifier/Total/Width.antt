-- ===== src/Verifier/Total/Width.antt =====
-- src/verifier.rs: `step_instruction` and the number of the locals.
use minilang_rs.Prelude.{ℕ, ◌≡◌, ◌∙◌, true, List, Option, none, some, length, length-set}
use minilang_rs.Prelude.Int.{ℤ}
use minilang_rs.Bytecode.{Opcode, CompiledProgram}
use minilang_rs.Verifier.Report.{AbstractState, FunctionRange, Step, Log}
use minilang_rs.Verifier.Step.{
  V, ◌>>=◌, ◌>>◌, pop_stack, push_stack, initialize, fall_through, terminal, step_call,
  step_instruction, accept,
}
use minilang_rs.Verifier.Rules.{Verdict, accepted, rejected, Verdict-bind, pop_stack-Verdict}

abbrev pub HasWidth : ℕ → AbstractState → Type 0
HasWidth n state = length state.initialized_locals ≡ n

-- The state that a step leaves has `n` locals.
abbrev pub Leaves : ℕ → Option Step × Log → Type 0
Leaves n r = Verdict {A = Step} (λ step _. HasWidth n step.state) r

module _ {n : ℕ} where
  -- A check whose value is no state.
  Leaves-after :
      {A : Type 0} (m : V A) (f : A → V Step) (log : Log)
      → ((a : A) (log' : Log) → Leaves n (f a log'))
      → Leaves n ((m >>= f) log)
  unfolding ◌>>=◌
  Leaves-after {A} m f log k = go (m log)
    where
      go : (r : Option A × Log) → Leaves n (elim r.0 [ some a ↦ f a r.1 | none ↦ (none, r.1) ])
      go (some a, log') = k a log'
      go (none, log') = rejected

  Leaves-then :
      (m : V (Unit {0})) (k : V Step) (log : Log)
      → ((log' : Log) → Leaves n (k log'))
      → Leaves n ((m >> k) log)
  unfolding ◌>>◌
  Leaves-then m k log h = Leaves-after m (λ _. k) log (λ _. h)

  Leaves-pop :
      (pc : ℕ) (state : AbstractState) (count : ℕ) (f : AbstractState → V Step) (log : Log)
      → HasWidth n state
      → ((state' : AbstractState) (log' : Log) → HasWidth n state' → Leaves n (f state' log'))
      → Leaves n ((pop_stack pc state count >>= f) log)
  Leaves-pop pc state count f log h k =
      Verdict-bind _ _ _ (pop_stack-Verdict pc log state count)
        λ state' log' (_, same, _). k state' log' (rw same h)

  Leaves-fall :
      (pc : ℕ) (state : AbstractState) (log : Log)
      → HasWidth n state
      → Leaves n (fall_through pc state log)
  unfolding fall_through accept
  Leaves-fall pc state log h = accepted h

  Leaves-terminal :
      (state : AbstractState) (successors : List ℕ) (log : Log)
      → HasWidth n state
      → Leaves n (terminal state successors log)
  unfolding terminal accept
  Leaves-terminal state successors log h = accepted h

  HasWidth-push_stack : (state : AbstractState) → HasWidth n state → HasWidth n (push_stack state)
  unfolding push_stack
  HasWidth-push_stack state h = h

  HasWidth-initialize :
      (state : AbstractState) (slot : ℕ) → HasWidth n state → HasWidth n (initialize state slot)
  unfolding initialize
  HasWidth-initialize state slot h = length-set state.initialized_locals slot true ∙ h

ruleset widths = (
  Leaves-pop, Leaves-then, Leaves-after, Leaves-fall, Leaves-terminal, HasWidth-push_stack,
  HasWidth-initialize,
)

step_call-Leaves :
    {n : ℕ} (program : CompiledProgram) (range : FunctionRange) (pc : ℕ) (a b : ℤ)
    (state : AbstractState) (log : Log)
    → HasWidth n state
    → Leaves n (step_call program range pc a b state log)
unfolding step_call accept
step_call-Leaves program range pc a b state log h = Leaves-then _ _ _ λ _. Leaves-then _ _ _ λ _.
    Leaves-after _ _ _ λ callee _. Leaves-then _ _ _ λ log₁.
      Leaves-pop pc state _ _ log₁ h λ state' log₂ h'. accepted (HasWidth-push_stack state' h')

pub step_instruction-Leaves :
    {n : ℕ} (program : CompiledProgram) (range : FunctionRange) (pc : ℕ) (o : Opcode) (a b : ℤ)
    (state : AbstractState) (log : Log)
    → HasWidth n state
    → Leaves n (step_instruction program range pc o a b state log)
unfolding step_instruction
step_instruction-Leaves program range pc Opcode.call a b state log h =
    step_call-Leaves program range pc a b state log h
step_instruction-Leaves program range pc o a b state log h = search widths depth 10
