-- ===== src/Optimizer/Block/Reductions.antt =====
-- src/optimizer.rs: the windows of strength reduction on 32-bit operands.
use minilang_rs.Prelude.{
  ℕ, ◌≡◌, ◌∙◌, sym, refl, ap, true, false, List, [], ◌∷◌, ◌++◌, Option, some, some-injective, arith,
  length, leb, Bool-cases, inl, inr,
}
use minilang_rs.Prelude.Int.{ℤ, pos, negsuc, ◌==ℤ◌, ==ℤ_iff, ◌+ℤ◌, ◌-ℤ◌, ◌*ℤ◌, ◌/ℤ◌}
use mathlib.Core.Path.{subst}
use minilang_rs.Limits.{max_operand_stack}
use minilang_rs.Word.{IsI32, normalize_i32, wrap_i64, wrapping_add, wrapping_sub, wrapping_mul}
use minilang_rs.Word.Laws.{normalize_i32-wrap_i64, normalize_i32-eq_self}
use minilang_rs.Bytecode.{Opcode, Instruction, CompiledProgram, instruction}
use minilang_rs.Vm.State.{Vm, ok, ◌>>=◌, ◌>>◌, pure, pop}
use minilang_rs.Vm.Execute.{execute_instruction, binary, operator}
use minilang_rs.Optimizer.Passes.{reduce, as_i32}
use minilang_rs.Optimizer.Block.{then_run, run_block}
use minilang_rs.Optimizer.Block.Fires.{operator_fires, div_fires, load_fires}

-- The operations that a window leaves out, on integers and on 32-bit values.
*ℤ-one : (x : ℤ) → x *ℤ pos 1 ≡ x
unfolding ◌*ℤ◌
*ℤ-one x = ground arith

*ℤ-zero : (x : ℤ) → x *ℤ pos 0 ≡ pos 0
unfolding ◌*ℤ◌
*ℤ-zero x = ground arith

+ℤ-zero : (x : ℤ) → x +ℤ pos 0 ≡ x
unfolding ◌+ℤ◌
+ℤ-zero x = ground arith

-ℤ-zero : (x : ℤ) → x -ℤ pos 0 ≡ x
unfolding ◌-ℤ◌
-ℤ-zero x = ground arith

/ℤ-one : (x : ℤ) → x /ℤ pos 1 ≡ x
unfolding ◌/ℤ◌
/ℤ-one (pos n) = ground arith
/ℤ-one (negsuc n) = ground arith

normalize_of : (x v : ℤ) → v ≡ x → IsI32 x → normalize_i32 v ≡ x
normalize_of x v e fits = ap normalize_i32 e ∙ normalize_i32-eq_self x fits

normalize_of_wrapped : (x v : ℤ) → v ≡ x → IsI32 x → normalize_i32 (wrap_i64 v) ≡ x
normalize_of_wrapped x v e fits = normalize_i32-wrap_i64 v ∙ normalize_of x v e fits

-- Every operand is a 32-bit value.
abbrev pub Narrow : List ℤ → Type 0
Narrow [] = Unit
Narrow (v ∷ stack) = IsI32 v × Narrow stack

-- The operands are 32-bit values before each instruction of a block.
unfoldable pub StaysNarrow : CompiledProgram → List Instruction → Vm → Type 0
StaysNarrow program [] vm = Unit
StaysNarrow program (instr ∷ rest) vm =
    Narrow vm.stack
    × ((vm' : Vm)
        → execute_instruction program instr.opcode instr.arg1 instr.arg2 vm ≡ ok true vm'
        → StaysNarrow program rest vm')

-- What a window does: its two instructions leave `v` in the place of `x`, and so do the
-- instructions that it gives.
pub record Reduced (program : CompiledProgram) (vm : Vm) (o : Opcode) (a p q x : ℤ) (below : List ℤ)
    (out : List Instruction) (more : ℕ) : Type 0 where
  pub v : ℤ
  pub both :
      execute_instruction program o p q (record vm { stack = a ∷ x ∷ below })
      ≡ ok true (record vm { stack = v ∷ below })
  pub given :
      (rest : List Instruction)
      → run_block program (out ++ rest) (record vm { stack = x ∷ below })
        ≡ run_block program rest (record vm { stack = v ∷ below })
  pub one_more : more ≡ 1

module _ (program : CompiledProgram) (vm : Vm) (p q x : ℤ) (below : List ℤ) (fits : IsI32 x)
    (room : leb max_operand_stack (length below) ≡ false) where
  dropped :
      (o : Opcode) (a : ℤ) (out : List Instruction) (more : ℕ)
      → ◌≡◌ {A = Option (List Instruction × ℕ)} (some ([], 1)) (some (out, more))
      → execute_instruction program o p q (record vm { stack = a ∷ x ∷ below })
        ≡ ok true (record vm { stack = x ∷ below })
      → Reduced program vm o a p q x below out more
  dropped o a out more e runs =
      subst (λ w. Reduced program vm o a p q x below w.0 w.1) (some-injective ([], 1) (out, more) e)
        (record { v = x; both = runs; given = λ rest. refl; one_more = refl })

  operation :
      (o : Opcode) (a v : ℤ)
      → operator o x a ≡ some v
      → v ≡ x
      → binary o (record vm { stack = a ∷ x ∷ below }) ≡ ok true (record vm { stack = x ∷ below })
  operation o a v e same =
      operator_fires program x a p q vm below room o v e (normalize_of x v same fits ∙ sym same)
      ∙ rw (normalize_of x v same fits) refl

  add_same : (a : ℤ) → a ==ℤ pos 0 ≡ true → normalize_i32 (wrapping_add x a) ≡ x
  unfolding wrapping_add
  add_same a z = rw ((==ℤ_iff a (pos 0)).0 z) (normalize_of_wrapped x _ (+ℤ-zero x) fits)

  sub_same : (a : ℤ) → a ==ℤ pos 0 ≡ true → normalize_i32 (wrapping_sub x a) ≡ x
  unfolding wrapping_sub
  sub_same a z = rw ((==ℤ_iff a (pos 0)).0 z) (normalize_of_wrapped x _ (-ℤ-zero x) fits)

  mul_same : (a : ℤ) → a ==ℤ pos 1 ≡ true → normalize_i32 (wrapping_mul x a) ≡ x
  unfolding wrapping_mul
  mul_same a z = rw ((==ℤ_iff a (pos 1)).0 z) (normalize_of_wrapped x _ (*ℤ-one x) fits)

  mul_zeroes : (a : ℤ) → a ==ℤ pos 0 ≡ true → normalize_i32 (wrapping_mul x a) ≡ pos 0
  unfolding wrapping_mul
  mul_zeroes a z =
      rw ((==ℤ_iff a (pos 0)).0 z) (normalize_of_wrapped (pos 0) _ (*ℤ-zero x) (ground arith))

  pop_then_zero :
      (rest : List Instruction)
      → run_block program
          (instruction Opcode.pop (pos 0) (pos 0)
            ∷ instruction Opcode.load_const (pos 0) (pos 0)
            ∷ rest)
          (record vm { stack = x ∷ below })
        ≡ run_block program rest (record vm { stack = pos 0 ∷ below })
  unfolding run_block then_run execute_instruction ◌>>=◌ ◌>>◌ pure pop
  pop_then_zero rest =
      rw (load_fires program (pos 0) (pos 0) (record vm { stack = below }) room) refl

  zeroed :
      (a : ℤ) (out : List Instruction) (more : ℕ)
      → a ==ℤ pos 0 ≡ true
      → ◌≡◌ {A = Option (List Instruction × ℕ)}
          (some (
            instruction Opcode.pop (pos 0) (pos 0)
                ∷ instruction Opcode.load_const (pos 0) (pos 0)
                ∷ [],
            1,
          ))
          (some (out, more))
      → Reduced program vm Opcode.mul a p q x below out more
  unfolding execute_instruction
  zeroed a out more z e =
      subst (λ w. Reduced program vm Opcode.mul a p q x below w.0 w.1)
        (some-injective _ (out, more) e)
        (record {
          v = pos 0;
          both =
              operator_fires program x a p q vm below room Opcode.mul _ refl
                (rw (mul_zeroes a z) (normalize_i32-eq_self (pos 0) (ground arith)))
              ∙ rw (mul_zeroes a z, normalize_i32-eq_self (pos 0) (ground arith)) refl;
          given = pop_then_zero;
          one_more = refl;
        })

  pub reduce-Reduced :
      (o : Opcode) (a : ℤ) (out : List Instruction) (more : ℕ)
      → reduce a o ≡ some (out, more)
      → Reduced program vm o a p q x below out more
  unfolding reduce execute_instruction
  reduce-Reduced Opcode.add a out more e = elim (Bool-cases (a ==ℤ pos 0)) [
    | inl z ↦
        dropped Opcode.add a out more (rw (z, reduce) at e)
          (operation Opcode.add a _ refl (add_same a z))
    | inr z ↦ absurd (cc (rw (z, reduce) at e))
  ]
  reduce-Reduced Opcode.sub a out more e = elim (Bool-cases (a ==ℤ pos 0)) [
    | inl z ↦
        dropped Opcode.sub a out more (rw (z, reduce) at e)
          (operation Opcode.sub a _ refl (sub_same a z))
    | inr z ↦ absurd (cc (rw (z, reduce) at e))
  ]
  reduce-Reduced Opcode.mul a out more e = elim (Bool-cases (a ==ℤ pos 0)) [
    | inl z ↦ zeroed a out more z (rw (z, reduce) at e)
    | inr nz ↦ elim (Bool-cases (a ==ℤ pos 1)) [
      | inl z ↦
          dropped Opcode.mul a out more (rw (nz, z, reduce) at e)
            (operation Opcode.mul a _ refl (mul_same a z))
      | inr z ↦ absurd (cc (rw (nz, z, reduce) at e))
    ]
  ]
  reduce-Reduced Opcode.div a out more e = elim (Bool-cases (a ==ℤ pos 1)) [
    | inl z ↦ dropped Opcode.div a out more (rw (z, reduce) at e) (
        div_fires program x a p q vm below room fits (ground arith)
        ∙ ap (λ v. ok true (record vm { stack = v ∷ below })) (quotient a z))
    | inr z ↦ absurd (cc (rw (z, reduce) at e))
  ]
    where
      quotient : (a : ℤ) → a ==ℤ pos 1 ≡ true → as_i32 (x /ℤ a) ≡ x
      quotient a z = rw ((==ℤ_iff a (pos 1)).0 z) (normalize_of x _ (/ℤ-one x) fits)
  reduce-Reduced o a out more e = absurd (cc e)
