-- ===== src/Oracle/Total.antt =====
-- src/oracle.rs: how a part of the interpreter ends, and the operations on the state.
pub mod Values
pub mod Operations
pub mod Nodes
pub mod Run
use minilang_rs.Prelude.{
  ℕ, zero, suc, ◌+◌, ◌≤◌, ◌≡◌, ◌≢◌, refl, arith, Bool, true, false, Bool-cases, inl, inr, List, [],
  ◌∷◌, Option, none, some, String, length, get_elem?, ltb, if◌then◌else◌,
}
use minilang_rs.Prelude.Int.{ℤ, pos, ltb_ℤ, ◌==ℤ◌}
use minilang_rs.Prelude.Names.{find}
use minilang_rs.Word.{checked_neg, checked_div}
use minilang_rs.Oracle.Fits.{IfAny, StateFits}
use minilang_rs.Limits.{max_cycles}
use minilang_rs.Vm.State.{TrapCode}
use minilang_rs.Ast.{BinaryOp, UnaryOp}
use minilang_rs.Oracle.{
  Slot, scalar, array, Frame, Oracle, Answer, ok, trap, panic, starved, O, pure, ◌>>=◌, ◌>>◌, fail,
  or_panic, tick, checked_array_index, eval_binary, eval_unary, find_in_scopes, lookup_slot,
  set_slot, insert_slot, read_scalar, read_array, assign_scalar, assign_global_scalar, assign_array,
  declare_or_update,
}

-- The state that a part leaves: at least so many cycles, within the limit, so many frames, and
-- 32-bit values.
abbrev pub Left : ℕ → ℕ → Oracle → Type 0
Left k d o = (k ≤ o.cycles) × (o.cycles ≤ max_cycles) × (length o.frames ≡ d) × StateFits o

-- How a part ends: with such a value in such a state or with a trap, but neither with a panic nor
-- for want of fuel.
abbrev pub Ended : {A : Type 0} → (A → Type 0) → ℕ → ℕ → Answer A → Type 0
Ended P k d (ok a o) = P a × Left k d o
Ended P k d (trap code o) = Unit
Ended P k d panic = ⊥
Ended P k d starved = ⊥

-- From the states of the first two numbers, a part ends in those of the last two.
pub record Leads {A : Type 0} (P : A → Type 0) (k d k' d' : ℕ) (m : O A) : Type 0 where
  pub ends : (o : Oracle) → Left k d o → Ended P k' d' (m o)

abbrev pub Ends : {A : Type 0} → (A → Type 0) → ℕ → ℕ → O A → Type 0
Ends P k d m = Leads P k d k d m

abbrev pub Any : {A : Type 0} → A → Type 0
Any a = Unit

later :
    {A : Type 0} (P : A → Type 0) (k k' d : ℕ) (a : Answer A)
    → k ≤ k'
    → Ended P k' d a
    → Ended P k d a
later P k k' d (ok a o) h (p, (l, m, e, fits)) = (p, (omega (arith, h, l), m, e, fits))
later P k k' d (trap code o) h e = tt
later P k k' d panic h e = e
later P k k' d starved h e = e

module _ {A : Type 0} {P : A → Type 0} where
  pub pure-Ends : {k d : ℕ} (a : A) → P a → Ends P k d (pure a)
  unfolding pure
  pure-Ends a p = record { ends = λ o h. (p, h) }

  pub fail-Ends : {k d : ℕ} (code : TrapCode) → Leads P k d k d (fail code)
  unfolding fail
  fail-Ends code = record { ends = λ o h. tt }

  pub or_panic-Ends : {k d : ℕ} (v : Option A) → v ≢ none → IfAny P v → Ends P k d (or_panic v)
  unfolding or_panic
  or_panic-Ends none ne p = absurd (ne refl)
  or_panic-Ends (some a) ne p = record { ends = λ o h. (p, h) }

  pub if-Leads :
      {k d k' d' : ℕ} (b : Bool) {m m' : O A}
      → (b ≡ true → Leads P k d k' d' m)
      → (b ≡ false → Leads P k d k' d' m')
      → Leads P k d k' d' (if b then m else m')
  if-Leads true h h' = h refl
  if-Leads false h h' = h' refl

  pub weaken : {k k' d d' : ℕ} {m : O A} → k ≤ k' → Leads P k d k' d' m → Leads P k d k d' m
  weaken {k} {k'} {d} {d'} {m} fits h = record {
    ends = λ o l. later P k k' d' (m o) fits (h.ends o l);
  }

module _ {A B : Type 0} {P : A → Type 0} {Q : B → Type 0} where
  continued :
      {k' d' k'' d'' : ℕ} (f : A → O B) (a : Answer A)
      → Ended P k' d' a
      → ((x : A) → P x → Leads Q k' d' k'' d'' (f x))
      → Ended Q k'' d''
          (elim a [ ok x o ↦ f x o | trap c o ↦ trap c o | panic ↦ panic | starved ↦ starved ])
  continued f (ok x o) (p, e) hf = (hf x p).ends o e
  continued f (trap c o) e hf = tt
  continued f panic e hf = e
  continued f starved e hf = e

  pub bind-Leads :
      {k d k' d' k'' d'' : ℕ} {m : O A} {f : A → O B}
      → Leads P k d k' d' m
      → ((a : A) → P a → Leads Q k' d' k'' d'' (f a))
      → Leads Q k d k'' d'' (m >>= f)
  unfolding ◌>>=◌
  bind-Leads {m = m} {f = f} h hf = record { ends = λ o l. continued f (m o) (h.ends o l) hf }

pub then-Leads :
    {B : Type 0} {Q : B → Type 0} {k d k' d' k'' d'' : ℕ} {m : O (Unit {0})} {m' : O B}
    → Leads Any k d k' d' m
    → Leads Q k' d' k'' d'' m'
    → Leads Q k d k'' d'' (m >> m')
unfolding ◌>>◌
then-Leads h h' = bind-Leads h (λ _ _. h')

within_limit : (a b : ℕ) → ltb a b ≡ false → b ≤ a
within_limit a b h = ground arith

pub tick-Leads : (k d : ℕ) → Leads Any k d (suc k) d tick
unfolding tick
tick-Leads k d = record { ends = λ o l. within o l }
  where
    within : (o : Oracle) → Left k d o → Ended Any (suc k) d (tick o)
    within o (l, l', e, fits) = elim (Bool-cases (ltb max_cycles (o.cycles + 1))) [
      | inl b ↦ rw b tt
      | inr b ↦ rw b (tt, (omega (arith, l), within_limit _ _ b, e, fits))
    ]
