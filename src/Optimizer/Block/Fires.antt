-- ===== src/Optimizer/Block/Fires.antt =====
-- src/optimizer.rs against src/vm.rs: the operations that constant folding computes.
use minilang_rs.Prelude.{
  ◌≡◌, refl, Bool, true, false, not, List, ◌∷◌, some, some-injective, arith, length, leb,
  Bool-cases, inl, inr,
}
use minilang_rs.Prelude.Int.{ℤ, pos, ◌==ℤ◌, ltb_ℤ, leb_ℤ, ◌-ℤ◌, ◌/ℤ◌}
use minilang_rs.Limits.{max_operand_stack}
use minilang_rs.Word.{
  IsI32, undefined, normalize_i32, wrapping_add, wrapping_sub, wrapping_mul, checked_neg,
  checked_div,
}
use minilang_rs.Word.Laws.{normalize_i32-IsI32, normalize_i32-eq_self}
use minilang_rs.Bytecode.{Opcode, CompiledProgram}
use minilang_rs.Vm.State.{
  Vm, Outcome, ok, trap, stack_overflow, ◌>>=◌, ◌>>◌, fail_if, or_panic, pure, pop, push,
}
use minilang_rs.Vm.Execute.{execute_instruction, binary, truth, operator}
use minilang_rs.Optimizer.Passes.{as_i32, folded}

normalize_twice : (v : ℤ) → normalize_i32 (normalize_i32 v) ≡ normalize_i32 v
normalize_twice v = normalize_i32-eq_self (normalize_i32 v) (normalize_i32-IsI32 v)

truth_fits : (b : Bool) → as_i32 (truth b) ≡ truth b
truth_fits true = normalize_i32-eq_self (pos 1) (ground arith)
truth_fits false = normalize_i32-eq_self (pos 0) (ground arith)

-- The machine's own results, on a stack with room.
module _ (program : CompiledProgram) (a b p q : ℤ) (vm : Vm) (below : List ℤ)
    (room : leb max_operand_stack (length below) ≡ false) where
  abbrev pub before : Vm
  before = record vm { stack = b ∷ a ∷ below }

  abbrev pub after : ℤ → Outcome Bool
  after v = ok true (record vm { stack = as_i32 v ∷ below })

  pub operator_fires :
      (o : Opcode) (v : ℤ) → operator o a b ≡ some v → as_i32 v ≡ v → binary o before ≡ after v
  unfolding binary ◌>>=◌ ◌>>◌ or_panic pure pop push
  operator_fires o v e fits = rw (e, ◌>>=◌, ◌>>◌, or_panic, push, room, fits) refl

  pub div_fires :
      IsI32 a
      → b ==ℤ pos 0 ≡ false
      → execute_instruction program Opcode.div p q before ≡ after (a /ℤ b)
  unfolding execute_instruction ◌>>=◌ ◌>>◌ fail_if or_panic pure pop push checked_div
  div_fires i32 nonzero =
      rw (fail_if, ◌>>=◌, ◌>>◌, or_panic, push, nonzero, checked_div, not_undefined, room) refl
    where
      not_undefined : a ==ℤ undefined ≡ false
      not_undefined = ground (arith, i32)

  pub folded_fires :
      (o : Opcode) (v : ℤ)
      → IsI32 a
      → folded o a b ≡ some v
      → execute_instruction program o p q before ≡ after v
  unfolding execute_instruction
  folded_fires Opcode.add v i32 e =
      rw (← some-injective _ _ e)
        (operator_fires Opcode.add _ refl (normalize_twice (wrapping_add a b)))
  folded_fires Opcode.sub v i32 e =
      rw (← some-injective _ _ e)
        (operator_fires Opcode.sub _ refl (normalize_twice (wrapping_sub a b)))
  folded_fires Opcode.mul v i32 e =
      rw (← some-injective _ _ e)
        (operator_fires Opcode.mul _ refl (normalize_twice (wrapping_mul a b)))
  folded_fires Opcode.eq v i32 e =
      rw (← some-injective _ _ e) (operator_fires Opcode.eq _ refl (truth_fits (a ==ℤ b)))
  folded_fires Opcode.ne v i32 e =
      rw (← some-injective _ _ e) (operator_fires Opcode.ne _ refl (truth_fits (not (a ==ℤ b))))
  folded_fires Opcode.lt v i32 e =
      rw (← some-injective _ _ e) (operator_fires Opcode.lt _ refl (truth_fits (ltb_ℤ a b)))
  folded_fires Opcode.gt v i32 e =
      rw (← some-injective _ _ e) (operator_fires Opcode.gt _ refl (truth_fits (ltb_ℤ b a)))
  folded_fires Opcode.le v i32 e =
      rw (← some-injective _ _ e) (operator_fires Opcode.le _ refl (truth_fits (leb_ℤ a b)))
  folded_fires Opcode.ge v i32 e =
      rw (← some-injective _ _ e) (operator_fires Opcode.ge _ refl (truth_fits (leb_ℤ b a)))
  folded_fires Opcode.div v i32 e = elim (Bool-cases (b ==ℤ pos 0)) [
    | inl z ↦ absurd (ground (arith, e, z))
    | inr z ↦ rw (div_fires i32 z) (quotient_of (ground (arith, e)))
  ]
    where
      quotient_of : a /ℤ b ≡ v → after (a /ℤ b) ≡ after v
      quotient_of same_value = rw same_value refl
  folded_fires o v i32 e = absurd (cc e)

  pub neg_fires :
      IsI32 a
      → execute_instruction program Opcode.neg p q (record vm { stack = a ∷ below })
        ≡ after (normalize_i32 (pos 0 -ℤ a))
  unfolding execute_instruction ◌>>=◌ ◌>>◌ or_panic pure pop push checked_neg
  neg_fires i32 =
      rw (checked_neg, ◌>>=◌, ◌>>◌, or_panic, push, not_undefined, room, normalize_twice) refl
    where
      not_undefined : a ==ℤ undefined ≡ false
      not_undefined = ground (arith, i32)

  pub not_fires :
      execute_instruction program Opcode.not p q (record vm { stack = a ∷ below })
      ≡ ok true (record vm { stack = truth (a ==ℤ pos 0) ∷ below })
  unfolding execute_instruction ◌>>=◌ ◌>>◌ pure pop push
  not_fires = rw (◌>>=◌, ◌>>◌, push, room) refl

-- A constant goes on the stack, or the stack is full.
pub load_fires :
    (program : CompiledProgram) (v q : ℤ) (vm : Vm)
    → leb max_operand_stack (length vm.stack) ≡ false
    → execute_instruction program Opcode.load_const v q vm
      ≡ ok true (record vm { stack = v ∷ vm.stack })
unfolding execute_instruction ◌>>=◌ ◌>>◌ pure push
load_fires program v q vm room = rw (◌>>=◌, ◌>>◌, push, room) refl

pub load_overflows :
    (program : CompiledProgram) (v q : ℤ) (vm : Vm)
    → leb max_operand_stack (length vm.stack) ≡ true
    → execute_instruction program Opcode.load_const v q vm ≡ trap stack_overflow vm
unfolding execute_instruction ◌>>=◌ ◌>>◌ pure push
load_overflows program v q vm full = rw (◌>>=◌, ◌>>◌, push, full) refl
