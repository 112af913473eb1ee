-- ===== src/Verifier/Reports.antt =====
-- src/verifier.rs: the errors of the checks of `step_instruction`.
use minilang_rs.Prelude.{
  ℕ, ◌≡◌, ◌≢◌, ◌∙◌, refl, Bool, true, false, List, [], ◌∷◌, ◌++◌, Option, none, some,
}
use minilang_rs.Prelude.Int.{ℤ}
use minilang_rs.Bytecode.{Opcode, CompiledProgram}
use minilang_rs.Vm.State.{TrapCode}
use minilang_rs.Verifier.Report.{Message, VerificationError, AbstractState, FunctionRange, Log}
use minilang_rs.Verifier.Rules.{Recorded, contains_trap-push_trap}
use minilang_rs.Verifier.Step.{
  V, accept, ◌>>=◌, ◌>>◌, reject_if, require, note_if, pop_stack, local_slot, global_slot,
  array_size, global_array_range, jump_target, fall_through, terminal, step_call, step_instruction,
}

-- An accepted check leaves the errors as they were and keeps the traps; a rejected one has an
-- error to show.
pub data Reports {A : Type 0} (log : Log) : Option A × Log → Type 0 where
  passes :
      {a : A} {log' : Log}
      → log'.errors ≡ log.errors
      → Recorded log.possible_traps log'.possible_traps
      → Reports log (some a, log')
  complains : {log' : Log} → log'.errors ≢ [] → Reports log (none, log')

pub append-ne-nil :
    (errors : List VerificationError) (e : VerificationError) → errors ++ e ∷ [] ≢ []
append-ne-nil [] e = λ p. cc
append-ne-nil (x ∷ errors) e = λ p. cc

Reports-accept : {A : Type 0} (a : A) (log : Log) → Reports log (accept a log)
unfolding accept
Reports-accept a log = passes refl (λ t e. e)

module _ {B : Type 0} where
  Reports-trans :
      {log log' : Log} {r : Option B × Log}
      → log'.errors ≡ log.errors
      → Recorded log.possible_traps log'.possible_traps
      → Reports log' r
      → Reports log r
  Reports-trans e t (passes e' t') = passes (e' ∙ e) (λ c h. t' c (t c h))
  Reports-trans e t (complains ne) = complains ne

  Reports-elim :
      {A : Type 0} {log : Log} (f : A → V B) (r : Option A × Log)
      → Reports {A = A} log r
      → ((a : A) (log : Log) → Reports log (f a log))
      → Reports {A = B} log (elim r.0 [ some a ↦ f a r.1 | none ↦ (none, r.1) ])
  Reports-elim f r (complains ne) k = complains ne
  Reports-elim f r (passes {a} {log'} e t) k = Reports-trans e t (k a log')

  Reports-bind :
      {A : Type 0} (m : V A) (f : A → V B) (log : Log)
      → Reports log (m log)
      → ((a : A) (log' : Log) → Reports log' (f a log'))
      → Reports log ((m >>= f) log)
  unfolding ◌>>=◌
  Reports-bind m f log h k = Reports-elim f (m log) h k

  Reports-require :
      {A : Type 0} (o : Option A) (pc : ℕ) (message : Message) (f : A → V B) (log : Log)
      → ((a : A) → Reports log (f a log))
      → Reports log ((require o pc message >>= f) log)
  unfolding ◌>>=◌ require
  Reports-require none pc message f log k = complains (append-ne-nil log.errors _)
  Reports-require (some a) pc message f log k = k a

  Reports-reject_if :
      (bad : Bool) (pc : ℕ) (message : Message) (k : V B) (log : Log)
      → Reports log (k log)
      → Reports log ((reject_if bad pc message >> k) log)
  unfolding ◌>>=◌ ◌>>◌ reject_if
  Reports-reject_if true pc message k log h = complains (append-ne-nil log.errors _)
  Reports-reject_if false pc message k log h = h

  Reports-note_if :
      (test : Bool) (trap : TrapCode) (k : V B) (log : Log)
      → ((log' : Log) → Reports log' (k log'))
      → Reports log ((note_if test trap >> k) log)
  unfolding ◌>>=◌ ◌>>◌ note_if
  Reports-note_if true trap k log h =
      Reports-trans refl (λ t e. contains_trap-push_trap t trap log.possible_traps e)
        (h (note_if true trap log).1)
  Reports-note_if false trap k log h = h log

ruleset rules = (Reports-accept, Reports-bind, Reports-require, Reports-reject_if, Reports-note_if)

pop_stack-Reports :
    (pc : ℕ) (state : AbstractState) (count : ℕ) (log : Log)
    → Reports log (pop_stack pc state count log)
unfolding pop_stack
pop_stack-Reports pc state count log = search rules

local_slot-Reports :
    (range : FunctionRange) (pc : ℕ) (raw : ℤ) (log : Log)
    → Reports log (local_slot range pc raw log)
unfolding local_slot
local_slot-Reports range pc raw log = search rules

global_slot-Reports : (pc : ℕ) (raw : ℤ) (log : Log) → Reports log (global_slot pc raw log)
unfolding global_slot
global_slot-Reports pc raw log = search rules

array_size-Reports : (pc : ℕ) (raw : ℤ) (log : Log) → Reports log (array_size pc raw log)
unfolding array_size
array_size-Reports pc raw log = search rules

global_array_range-Reports :
    (pc : ℕ) (raw raw' : ℤ) (log : Log) → Reports log (global_array_range pc raw raw' log)
unfolding global_array_range
global_array_range-Reports pc raw raw' log = search (rules, global_slot-Reports, array_size-Reports)

jump_target-Reports :
    (range : FunctionRange) (pc : ℕ) (raw : ℤ) (log : Log)
    → Reports log (jump_target range pc raw log)
unfolding jump_target
jump_target-Reports range pc raw log = search rules

fall_through-Reports :
    (pc : ℕ) (state : AbstractState) (log : Log) → Reports log (fall_through pc state log)
unfolding fall_through
fall_through-Reports pc state log = search rules

terminal-Reports :
    (state : AbstractState) (successors : List ℕ) (log : Log)
    → Reports log (terminal state successors log)
unfolding terminal
terminal-Reports state successors log = search rules

ruleset checks = (
  rules, pop_stack-Reports, local_slot-Reports, global_slot-Reports, array_size-Reports,
  global_array_range-Reports, jump_target-Reports, fall_through-Reports, terminal-Reports,
)

step_call-Reports :
    (program : CompiledProgram) (range : FunctionRange) (pc : ℕ) (a b : ℤ) (state : AbstractState)
    (log : Log)
    → Reports log (step_call program range pc a b state log)
unfolding step_call
step_call-Reports program range pc a b state log = search checks depth 8

-- `step_instruction` leaves the errors alone and keeps the traps where it accepts, and has an
-- error to report where it gives up.
pub step_instruction-Reports :
    (program : CompiledProgram) (range : FunctionRange) (pc : ℕ) (o : Opcode) (a b : ℤ)
    (state : AbstractState) (log : Log)
    → Reports log (step_instruction program range pc o a b state log)
unfolding step_instruction
step_instruction-Reports program range pc Opcode.load_const a b state log = search checks
step_instruction-Reports program range pc Opcode.call a b state log =
    step_call-Reports program range pc a b state log
step_instruction-Reports program range pc o a b state log = search checks depth 8
