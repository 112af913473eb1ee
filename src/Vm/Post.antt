-- ===== src/Vm/Post.antt =====
-- Postconditions of a step: what holds after a value and after a trap, and when it may panic.
use minilang_rs.Prelude.{Bool, true, false, ◌≡◌, refl, Option, none, some}
use minilang_rs.Vm.State.{
  TrapCode, Vm, Outcome, ok, trap, panic, M, ◌>>=◌, ◌>>◌, pure, fail_if, ok_or, or_panic,
}

-- `Q` holds of a value and its machine, `E` of a trap and its machine, `C` of a panic.
pub data After {A : Type 0} (Q : A → Vm → Type 0) (E : TrapCode → Vm → Type 0) (C : Type 0)
    : Outcome A → Type 0 where
  returns : {a : A} {vm : Vm} → Q a vm → After Q E C (ok a vm)
  traps : {code : TrapCode} {vm : Vm} → E code vm → After Q E C (trap code vm)
  panics : C → After Q E C panic

module _ {A : Type 0} {Q : A → Vm → Type 0} {E : TrapCode → Vm → Type 0} {C : Type 0} where
  pub After-weaken :
      {Q' : A → Vm → Type 0} {E' : TrapCode → Vm → Type 0} {C' : Type 0} {o : Outcome A}
      → After Q E C o
      → ((a : A) (vm : Vm) → Q a vm → Q' a vm)
      → ((code : TrapCode) (vm : Vm) → E code vm → E' code vm)
      → (C → C')
      → After Q' E' C' o
  After-weaken (returns h) q e c = returns (q _ _ h)
  After-weaken (traps h) q e c = traps (e _ _ h)
  After-weaken (panics h) q e c = panics (c h)

  pub After-ok : {a : A} {vm : Vm} → After Q E C (ok a vm) → Q a vm
  After-ok (returns h) = h

  pub After-trap : {code : TrapCode} {vm : Vm} → After Q E C (trap code vm) → E code vm
  After-trap (traps h) = h

  pub After-panic : After Q E C panic → C
  After-panic (panics h) = h

-- Two properties of the same outcome.
pub After-both :
    {A : Type 0} {Q Q' : A → Vm → Type 0} {E E' : TrapCode → Vm → Type 0} {C C' : Type 0}
    {o : Outcome A}
    → After Q E C o
    → After Q' E' C' o
    → After (λ a vm. Q a vm × Q' a vm) (λ code vm. E code vm × E' code vm) (C × C') o
After-both (returns h) (returns h') = returns (h, h')
After-both (traps h) (traps h') = traps (h, h')
After-both (panics h) (panics h') = panics (h, h')

-- The rule for a sequence, and those for a first step that only tests.
module _ {A B : Type 0} {R : B → Vm → Type 0} {E : TrapCode → Vm → Type 0} {C : Type 0} where
  After-elim :
      {Q : A → Vm → Type 0} (f : A → M B) {o : Outcome A}
      → After Q E C o
      → ((a : A) (vm' : Vm) → Q a vm' → After R E C (f a vm'))
      → After R E C (elim o [ ok a vm' ↦ f a vm' | trap c vm' ↦ trap c vm' | panic ↦ panic ])
  After-elim f (returns h) k = k _ _ h
  After-elim f (traps h) k = traps h
  After-elim f (panics h) k = panics h

  pub After-bind :
      {Q : A → Vm → Type 0} (m : M A) (f : A → M B) (vm : Vm)
      → After Q E C (m vm)
      → ((a : A) (vm' : Vm) → Q a vm' → After R E C (f a vm'))
      → After R E C ((m >>= f) vm)
  unfolding ◌>>=◌
  After-bind m f vm h k = After-elim f h k

  pub After-ok_or :
      (o : Option A) (code : TrapCode) (f : A → M B) (vm : Vm)
      → (o ≡ none → E code vm)
      → ((a : A) → o ≡ some a → After R E C (f a vm))
      → After R E C ((ok_or o code >>= f) vm)
  unfolding ◌>>=◌ ok_or
  After-ok_or none code f vm bad good = traps (bad refl)
  After-ok_or (some a) code f vm bad good = good a refl

  pub After-or_panic :
      (o : Option A) (f : A → M B) (vm : Vm)
      → (o ≡ none → C)
      → ((a : A) → o ≡ some a → After R E C (f a vm))
      → After R E C ((or_panic o >>= f) vm)
  unfolding ◌>>=◌ or_panic
  After-or_panic none f vm bad good = panics (bad refl)
  After-or_panic (some a) f vm bad good = good a refl

module _ {B : Type 0} {R : B → Vm → Type 0} {E : TrapCode → Vm → Type 0} {C : Type 0} where
  pub After-fail_if :
      (b : Bool) (code : TrapCode) (k : M B) (vm : Vm)
      → (b ≡ true → E code vm)
      → (b ≡ false → After R E C (k vm))
      → After R E C ((fail_if b code >> k) vm)
  unfolding ◌>>=◌ ◌>>◌ fail_if
  After-fail_if true code k vm bad good = traps (bad refl)
  After-fail_if false code k vm bad good = good refl

-- The same by cases, which computes: tactics prove it where they can see the outcome.
abbrev pub Ensures :
    {A : Type 0} → (A → Vm → Type 0) → (TrapCode → Vm → Type 0) → Type 0 → Outcome A → Type 0
Ensures Q E C (ok a vm) = Q a vm
Ensures Q E C (trap code vm) = E code vm
Ensures Q E C panic = C

pub After-of :
    {A : Type 0} {Q : A → Vm → Type 0} {E : TrapCode → Vm → Type 0} {C : Type 0} (o : Outcome A)
    → Ensures Q E C o
    → After Q E C o
After-of (ok a vm) h = returns h
After-of (trap code vm) h = traps h
After-of panic h = panics h

module _ {B : Type 0} {R : B → Vm → Type 0} {E : TrapCode → Vm → Type 0} {C : Type 0} where
  pub After-then :
      {Q : Unit {0} → Vm → Type 0} (m : M (Unit {0})) (k : M B) (vm : Vm)
      → After Q E C (m vm)
      → ((vm' : Vm) → Q tt vm' → After R E C (k vm'))
      → After R E C ((m >> k) vm)
  unfolding ◌>>◌
  After-then m k vm h next = After-bind m (λ _. k) vm h (λ _ vm' q. next vm' q)

  pub After-pure : (a : B) (vm : Vm) → R a vm → After R E C (pure a vm)
  unfolding pure
  After-pure a vm h = returns h
