-- ===== src/Verifier/Rules.antt =====
-- src/verifier.rs: rules for reasoning about what `step_instruction` accepts.
use minilang_rs.Prelude.{
  ℕ, ◌+◌, ◌≤◌, ◌<◌, ◌≡◌, refl, ◌∙◌, Bool, true, false, List, [], ◌∷◌, ◌++◌, Option, none, some,
  ◌==◌, ◌||◌, arith,
}
use minilang_rs.Prelude.Int.{ℤ, pos, ltb_ℤ}
use minilang_rs.Word.{as_usize}
use minilang_rs.Limits.{max_global_slots}
use minilang_rs.Vm.State.{TrapCode}
use minilang_rs.Verifier.Report.{
  Message, AbstractState, FunctionRange, Log, discriminant, contains_trap, push_trap,
}
use minilang_rs.Verifier.Step.{
  V, accept, ◌>>=◌, ◌>>◌, reject_if, require, note_if, pop_stack, local_slot, global_slot,
  array_size, global_array_range, jump_target, pc_in_range,
}

contains_trap-append :
    (t u : TrapCode) (traps : List TrapCode)
    → contains_trap t (traps ++ u ∷ [])
      ≡ (contains_trap t traps || discriminant u == discriminant t)
unfolding contains_trap
contains_trap-append t u [] = ground arith
contains_trap-append t u (x ∷ traps) = ground (arith, contains_trap-append t u traps)

contains_trap_same :
    (t u : TrapCode) (traps : List TrapCode)
    → discriminant u ≡ discriminant t
    → contains_trap t traps ≡ contains_trap u traps
unfolding contains_trap
contains_trap_same t u [] e = refl
contains_trap_same t u (x ∷ traps) e = rw (e, contains_trap_same t u traps e) refl

-- The second list has the traps of the first one.
abbrev pub Recorded : List TrapCode → List TrapCode → Type 0
Recorded traps traps' =
    (t : TrapCode) → contains_trap t traps ≡ true → contains_trap t traps' ≡ true

pub contains_trap-push_trap :
    (t u : TrapCode) (traps : List TrapCode)
    → contains_trap t traps ≡ true
    → contains_trap t (push_trap u traps) ≡ true
unfolding push_trap
contains_trap-push_trap t u traps h = ground (arith, contains_trap-append t u traps)

pub contains_trap-push_trap_same :
    (t u : TrapCode) (traps : List TrapCode)
    → discriminant u == discriminant t ≡ true
    → contains_trap t (push_trap u traps) ≡ true
unfolding push_trap contains_trap
contains_trap-push_trap_same t u traps e =
    ground (arith, contains_trap-append t u traps, contains_trap_same t u traps)

contains_trap-push_trap_self :
    (u : TrapCode) (traps : List TrapCode) → contains_trap u (push_trap u traps) ≡ true
unfolding push_trap
contains_trap-push_trap_self u traps = ground (arith, contains_trap-append u u traps)

-- `Q` holds of what a check accepts, and of the log that it leaves.
pub data Verdict {A : Type 0} (Q : A → Log → Type 0) : Option A × Log → Type 0 where
  accepted : {a : A} {log : Log} → Q a log → Verdict Q (some a, log)
  rejected : {log : Log} → Verdict Q (none, log)

module _ {A : Type 0} {Q : A → Log → Type 0} where
  pub Verdict-accept : (a : A) (log : Log) → Q a log → Verdict Q (accept a log)
  unfolding accept
  Verdict-accept a log h = accepted h

  pub Verdict-some : {a : A} {log : Log} → Verdict Q (some a, log) → Q a log
  Verdict-some (accepted h) = h

module _ {A B : Type 0} {R : B → Log → Type 0} where
  Verdict-elim :
      {Q : A → Log → Type 0} (f : A → V B) (r : Option A × Log)
      → Verdict Q r
      → ((a : A) (log : Log) → Q a log → Verdict R (f a log))
      → Verdict R (elim r.0 [ some a ↦ f a r.1 | none ↦ (none, r.1) ])
  Verdict-elim f r (accepted h) k = k _ _ h
  Verdict-elim f r rejected k = rejected

  pub Verdict-bind :
      {Q : A → Log → Type 0} (m : V A) (f : A → V B) (log : Log)
      → Verdict Q (m log)
      → ((a : A) (log' : Log) → Q a log' → Verdict R (f a log'))
      → Verdict R ((m >>= f) log)
  unfolding ◌>>=◌
  Verdict-bind m f log h k = Verdict-elim f (m log) h k

  pub Verdict-require :
      (o : Option A) (pc : ℕ) (message : Message) (f : A → V B) (log : Log)
      → ((a : A) → o ≡ some a → Verdict R (f a log))
      → Verdict R ((require o pc message >>= f) log)
  unfolding ◌>>=◌ require
  Verdict-require none pc message f log k = rejected
  Verdict-require (some a) pc message f log k = k a refl

module _ {B : Type 0} {R : B → Log → Type 0} where
  pub Verdict-reject_if :
      (bad : Bool) (pc : ℕ) (message : Message) (k : V B) (log : Log)
      → (bad ≡ false → Verdict R (k log))
      → Verdict R ((reject_if bad pc message >> k) log)
  unfolding ◌>>=◌ ◌>>◌ reject_if
  Verdict-reject_if true pc message k log h = rejected
  Verdict-reject_if false pc message k log h = h refl

  -- The log of a noted trap keeps the traps that were there, and has the new one.
  pub Verdict-note_if :
      (test : Bool) (trap : TrapCode) (k : V B) (log : Log)
      → ((log' : Log)
          → ((t : TrapCode)
              → contains_trap t log.possible_traps ≡ true
              → contains_trap t log'.possible_traps ≡ true)
          → (test ≡ true → contains_trap trap log'.possible_traps ≡ true)
          → Verdict R (k log'))
      → Verdict R ((note_if test trap >> k) log)
  unfolding ◌>>=◌ ◌>>◌ note_if
  Verdict-note_if true trap k log h =
      h _ (λ t e. contains_trap-push_trap t trap log.possible_traps e)
        (λ _. contains_trap-push_trap_self trap log.possible_traps)
  Verdict-note_if false trap k log h = h log (λ t e. e) (λ e. cc)

-- What each check accepts.
module _ (pc : ℕ) (log : Log) where
  pub pop_stack-Verdict :
      (state : AbstractState) (count : ℕ)
      → Verdict
          (λ state' log'.
            (state'.stack_depth + count ≡ state.stack_depth)
            × (state'.initialized_locals ≡ state.initialized_locals)
            × (log' ≡ log))
          (pop_stack pc state count log)
  unfolding pop_stack
  pop_stack-Verdict state count =
      Verdict-reject_if _ _ _ _ _ λ e. Verdict-accept _ _ (ground arith, refl, refl)

  pub local_slot-Verdict :
      (range : FunctionRange) (raw : ℤ)
      → Verdict
          (λ slot log'.
            (slot ≡ as_usize raw)
            × (ltb_ℤ raw (pos 0) ≡ false)
            × (slot < range.info.local_count)
            × (log' ≡ log))
          (local_slot range pc raw log)
  unfolding local_slot
  local_slot-Verdict range raw = Verdict-reject_if _ _ _ _ _ λ nonneg.
      Verdict-reject_if _ _ _ _ _ λ e. Verdict-accept _ _ (refl, nonneg, ground arith, refl)

  pub global_slot-Verdict :
      (raw : ℤ)
      → Verdict
          (λ slot log'.
            (slot ≡ as_usize raw)
            × (ltb_ℤ raw (pos 0) ≡ false)
            × (slot < max_global_slots)
            × (log' ≡ log))
          (global_slot pc raw log)
  unfolding global_slot
  global_slot-Verdict raw = Verdict-reject_if _ _ _ _ _ λ nonneg.
      Verdict-reject_if _ _ _ _ _ λ e. Verdict-accept _ _ (refl, nonneg, ground arith, refl)

  pub array_size-Verdict :
      (raw : ℤ)
      → Verdict
          (λ size log'. (size ≡ as_usize raw) × (ltb_ℤ raw (pos 0) ≡ false) × (log' ≡ log))
          (array_size pc raw log)
  unfolding array_size
  array_size-Verdict raw =
      Verdict-reject_if _ _ _ _ _ λ e. Verdict-accept _ _ (refl, ground arith, refl)

  pub jump_target-Verdict :
      (range : FunctionRange) (raw : ℤ)
      → Verdict
          (λ target log'.
            (target ≡ as_usize raw) × (pc_in_range range target ≡ true) × (log' ≡ log))
          (jump_target range pc raw log)
  unfolding jump_target
  jump_target-Verdict range raw =
      Verdict-reject_if _ _ _ _ _
        λ _. Verdict-reject_if _ _ _ _ _ λ e. Verdict-accept _ _ (refl, ground arith, refl)

pub global_array_range-Verdict :
    (pc : ℕ) (log : Log) (raw_slot raw_size : ℤ)
    → Verdict
        (λ range log'.
          (range ≡ (as_usize raw_slot, as_usize raw_size))
          × (ltb_ℤ raw_slot (pos 0) ≡ false)
          × (ltb_ℤ raw_size (pos 0) ≡ false)
          × (as_usize raw_slot < max_global_slots)
          × (as_usize raw_slot + as_usize raw_size ≤ max_global_slots)
          × (log' ≡ log))
        (global_array_range pc raw_slot raw_size log)
unfolding global_array_range
global_array_range-Verdict pc log raw_slot raw_size =
    Verdict-bind _ _ _ (global_slot-Verdict pc log raw_slot) λ slot log₁ (e₁, n₁, lt, l₁).
      Verdict-bind _ _ _ (array_size-Verdict pc log₁ raw_size) λ size log₂ (e₂, n₂, l₂).
        Verdict-reject_if _ _ _ _ _
          λ fits. Verdict-accept _ _ (ground arith, n₁, n₂, ground arith, ground arith, l₂ ∙ l₁)
