-- ===== src/Verifier/Raised.antt =====
-- src/verifier.rs: `step_instruction` above operands that belong to the callers.
use minilang_rs.Prelude.{
  ℕ, ◌+◌, ◌≡◌, refl, ap, Bool, true, false, List, [], ◌∷◌, Option, none, some, arith, leb,
}
use minilang_rs.Prelude.Int.{ℤ}
use minilang_rs.Word.{as_usize}
use minilang_rs.Bytecode.{Opcode, CompiledProgram}
use minilang_rs.Vm.State.{cycle_limit}
use minilang_rs.Verifier.Report.{Message, AbstractState, FunctionRange, Step, Log}
use minilang_rs.Verifier.Step.{
  V, accept, ◌>>=◌, ◌>>◌, reject_if, note_if, pop_stack, push_stack, jump_target, fall_through,
  terminal, step_call, step_instruction, initialize, is_initialized,
}

-- The state with `below` operands more.
abbrev pub raise : ℕ → AbstractState → AbstractState
raise below state = record state { stack_depth = state.stack_depth + below }

abbrev pub raise_step : ℕ → Step → Step
raise_step below step = record step { state = raise below step.state }

-- The second check accepts where the first one does, the value changed by `f`, and logs the same.
abbrev Lifts : {A B : Type 0} → (A → B) → V A → V B → Type 0
Lifts f m m' = (log log' : Log) (a : _) → m log ≡ (some a, log') → m' log ≡ (some (f a), log')

module _ {A B A' B' : Type 0} (f : A → A') (g : B → B') where
  Lifts-elim :
      (r : Option A × Log) (r' : Option A' × Log) (k : A → V B) (k' : A' → V B')
      → ((a : A) (l : Log) → r ≡ (some a, l) → r' ≡ (some (f a), l))
      → ((a : A) → Lifts g (k a) (k' (f a)))
      → (log' : Log) (b : B)
      → ◌≡◌ {A = Option B × Log} (elim r.0 [ some a ↦ k a r.1 | none ↦ (none, r.1) ]) (some b, log')
      → ◌≡◌ {A = Option B' × Log}
          (elim r'.0 [ some a ↦ k' a r'.1 | none ↦ (none, r'.1) ])
          (some (g b), log')
  Lifts-elim (none, l) r' k k' first rest log' b e = absurd (cc e)
  Lifts-elim (some a, l) r' k k' first rest log' b e =
      let same = first a l refl in rw (ap (λ p. p.0) same, ap (λ p. p.1) same) (rest a l log' b e)

  Lifts-bind :
      (m : V A) (m' : V A') (k : A → V B) (k' : A' → V B')
      → Lifts f m m'
      → ((a : A) → Lifts g (k a) (k' (f a)))
      → Lifts g (m >>= k) (m' >>= k')
  unfolding ◌>>=◌
  Lifts-bind m m' k k' first rest log log' b e =
      Lifts-elim (m log) (m' log) k k' (λ a l. first log l a) rest log' b e

  Lifts-accept : (a : A) (a' : A') → a' ≡ f a → Lifts f (accept a) (accept a')
  unfolding accept
  Lifts-accept a a' same log log' b e = cc

module _ {B B' : Type 0} (g : B → B') where
  Lifts-then : (m : V (Unit {0})) (k : V B) (k' : V B') → Lifts g k k' → Lifts g (m >> k) (m >> k')
  unfolding ◌>>◌
  Lifts-then m k k' rest =
      Lifts-bind (λ u. u) g m m (λ _. k) (λ _. k') (λ log log' u e. e) λ u. rest

  -- The same check first on both sides.
  Lifts-same :
      {A : Type 0} (m : V A) (k : A → V B) (k' : A → V B')
      → ((a : A) → Lifts g (k a) (k' a))
      → Lifts g (m >>= k) (m >>= k')
  Lifts-same m k k' rest = Lifts-bind (λ a. a) g m m k k' (λ log log' a e. e) rest

  Lifts-reject :
      (bad bad' : Bool) (pc : ℕ) (message : Message) (k : V B) (k' : V B')
      → (bad ≡ false → bad' ≡ false)
      → (bad ≡ false → Lifts g k k')
      → Lifts g (reject_if bad pc message >> k) (reject_if bad' pc message >> k')
  unfolding ◌>>=◌ ◌>>◌ reject_if
  Lifts-reject true bad' pc message k k' same rest log log' b e = absurd (cc e)
  Lifts-reject false true pc message k k' same rest log log' b e = absurd (cc (same refl))
  Lifts-reject false false pc message k k' same rest log log' b e = rest refl log log' b e

module _ (below : ℕ) where
  abbrev Raises : V Step → V Step → Type 0
  Raises m m' = Lifts (raise_step below) m m'

  pop_stack-raise :
      (pc : ℕ) (state : AbstractState) (count : ℕ)
      → Lifts (raise below) (pop_stack pc state count) (pop_stack pc (raise below state) count)
  unfolding pop_stack
  pop_stack-raise pc state count =
      Lifts-reject (raise below) _ _ _ _ _ _ (λ e. ground arith)
        λ e.
          Lifts-accept (raise below) (raise below) _ _
            (ap (λ d. record state { stack_depth = d }) (ground arith))

  fall_through-raise :
      (pc : ℕ) (state state' : AbstractState)
      → state' ≡ raise below state
      → Raises (fall_through pc state) (fall_through pc state')
  unfolding fall_through
  fall_through-raise pc state state' same =
      Lifts-accept (raise_step below) (raise_step below) _ _ cc

  terminal-raise :
      (state : AbstractState) (successors : List ℕ)
      → Raises (terminal state successors) (terminal (raise below state) successors)
  unfolding terminal
  terminal-raise state successors = Lifts-accept (raise_step below) (raise_step below) _ _ refl

  push_stack-raise :
      (state : AbstractState) → push_stack (raise below state) ≡ raise below (push_stack state)
  unfolding push_stack
  push_stack-raise state = ap (λ d. record state { stack_depth = d }) (ground arith)

  operands-raise :
      (pc : ℕ) (state : AbstractState) (count : ℕ)
      → Raises
          (pop_stack pc state count >>= λ st. fall_through pc (push_stack st))
          (pop_stack pc (raise below state) count >>= λ st. fall_through pc (push_stack st))
  operands-raise pc state count =
      Lifts-bind (raise below) (raise_step below) _ _ _ _ (pop_stack-raise pc state count)
        λ st. fall_through-raise pc _ _ (push_stack-raise st)

  -- The arms that pop without a result.
  discards-raise :
      (pc : ℕ) (state : AbstractState) (count : ℕ)
      → Raises
          (pop_stack pc state count >>= λ st. fall_through pc st)
          (pop_stack pc (raise below state) count >>= λ st. fall_through pc st)
  discards-raise pc state count =
      Lifts-bind (raise below) (raise_step below) _ _ _ _ (pop_stack-raise pc state count)
        λ st. fall_through-raise pc _ _ refl

  -- A step that an instruction makes above the operands of the callers is the step that it makes
  -- alone, with these operands left below.
  pub step_instruction-raise :
      (program : CompiledProgram) (range : FunctionRange) (pc : ℕ) (o : Opcode) (arg1 arg2 : ℤ)
      (state : AbstractState)
      → Raises
          (step_instruction program range pc o arg1 arg2 state)
          (step_instruction program range pc o arg1 arg2 (raise below state))
  unfolding step_instruction step_call initialize is_initialized
  step_instruction-raise program range pc o arg1 arg2 state = go o
    where
      popped :
          (count : ℕ) (k k' : AbstractState → V Step)
          → ((st : AbstractState) → Raises (k st) (k' (raise below st)))
          → Raises (pop_stack pc state count >>= k) (pop_stack pc (raise below state) count >>= k')
      popped count k k' rest =
          Lifts-bind (raise below) (raise_step below) _ _ k k' (pop_stack-raise pc state count) rest

      conditional :
          Raises
            (pop_stack pc state 1 >>= λ st. jump_target range pc arg1 >>= λ t.
              note_if (leb t pc) cycle_limit >> terminal st (t ∷ (pc + 1) ∷ []))
            (pop_stack pc (raise below state) 1 >>= λ st. jump_target range pc arg1 >>= λ t.
              note_if (leb t pc) cycle_limit >> terminal st (t ∷ (pc + 1) ∷ []))
      conditional =
          popped 1 _ _ λ st. Lifts-same _ _ _ _ λ t. Lifts-then _ _ _ _ (terminal-raise st _)

      pushes :
          (st : AbstractState)
          → Raises (fall_through pc (push_stack st)) (fall_through pc (push_stack (raise below st)))
      pushes st = fall_through-raise pc _ _ (push_stack-raise st)

      go :
          (o : Opcode)
          → Raises
              (step_instruction program range pc o arg1 arg2 state)
              (step_instruction program range pc o arg1 arg2 (raise below state))
      go Opcode.load_const = pushes state
      go Opcode.load_local = Lifts-same _ _ _ _ λ slot. Lifts-then _ _ _ _ (pushes state)
      go Opcode.store_local =
          popped 1 _ _ λ st. Lifts-same _ _ _ _ λ slot. fall_through-raise pc _ _ refl
      go Opcode.load_global = Lifts-same _ _ _ _ λ slot. pushes state
      go Opcode.store_global =
          popped 1 _ _ λ st. Lifts-same _ _ _ _ λ slot. fall_through-raise pc _ _ refl
      go Opcode.add = operands-raise pc state 2
      go Opcode.sub = operands-raise pc state 2
      go Opcode.mul = operands-raise pc state 2
      go Opcode.div = popped 2 _ _ λ st. Lifts-then _ _ _ _ (pushes st)
      go Opcode.neg = operands-raise pc state 1
      go Opcode.eq = operands-raise pc state 2
      go Opcode.ne = operands-raise pc state 2
      go Opcode.lt = operands-raise pc state 2
      go Opcode.gt = operands-raise pc state 2
      go Opcode.le = operands-raise pc state 2
      go Opcode.ge = operands-raise pc state 2
      go Opcode.and = operands-raise pc state 2
      go Opcode.or = operands-raise pc state 2
      go Opcode.not = operands-raise pc state 1
      go Opcode.jump = Lifts-same _ _ _ _ λ t. Lifts-then _ _ _ _ (terminal-raise state _)
      go Opcode.jump_if_false = conditional
      go Opcode.jump_if_true = conditional
      go Opcode.call = Lifts-then _ _ _ _ (
          Lifts-then _ _ _ _ (
            Lifts-same _ _ _ _ λ callee. Lifts-then _ _ _ _ (
              popped _ _ _ λ st. Lifts-accept (raise_step below) (raise_step below) _ _ (
                ap
                  (λ s. record {
                    state = s;
                    successors = (pc + 1) ∷ [];
                    call_edges = (range.id, as_usize arg1) ∷ [];
                  })
                  (push_stack-raise st)))))
      go Opcode.return = popped 1 _ _ λ st. terminal-raise st []
      go Opcode.array_load =
          Lifts-same _ _ _ _ λ r. popped 1 _ _ λ st. Lifts-then _ _ _ _ (pushes st)
      go Opcode.array_store =
          Lifts-same _ _ _ _
            λ r. popped 2 _ _ λ st. Lifts-then _ _ _ _ (fall_through-raise pc _ _ refl)
      go Opcode.array_new = Lifts-same _ _ _ _ λ size. pushes state
      go Opcode.local_array_load = Lifts-same _ _ _ _ λ n.
          Lifts-same _ _ _ _
            λ slot. Lifts-then _ _ _ _ (popped 1 _ _ λ st. Lifts-then _ _ _ _ (pushes st))
      go Opcode.local_array_store = Lifts-same _ _ _ _ λ n. Lifts-same _ _ _ _ λ slot.
          Lifts-then _ _ _ _
            (popped 2 _ _ λ st. Lifts-then _ _ _ _ (fall_through-raise pc _ _ refl))
      go Opcode.alloc_array = Lifts-same _ _ _ _ λ size. pushes state
      go Opcode.print = discards-raise pc state 1
      go Opcode.pop = discards-raise pc state 1
      go Opcode.dup =
          Lifts-reject (raise_step below) _ _ _ _ _ _ (λ e. ground arith) λ e. pushes state
      go Opcode.halt = terminal-raise state []
