-- ===== src/Optimizer/Block/Folds.antt =====
-- src/optimizer.rs: constant folding of a block.
use minilang_rs.Prelude.{
  ℕ, suc, ◌≡◌, sym, refl, Bool, true, false, List, [], ◌∷◌, ◌++◌, Option, none, some,
  some-injective, drop, length, leb, Bool-cases, inl, inr,
}
use minilang_rs.Prelude.Int.{ℤ, pos}
use mathlib.Core.Path.{subst}
use minilang_rs.Limits.{max_operand_stack}
use minilang_rs.Word.{IsI32}
use minilang_rs.Bytecode.{Opcode, Instruction, CompiledProgram, instruction}
use minilang_rs.Vm.State.{Vm, Outcome, ok, M}
use minilang_rs.Vm.Execute.{execute_instruction}
use minilang_rs.Optimizer.Passes.{
  as_i32, folded, fold_unary, fold_constants, folding_window, constant_folding, is_load_const,
}
use minilang_rs.Optimizer.Block.{
  then_run, run_block, Improves, same, avoids, AllI32, Improving, rewrite-Improves,
}
use minilang_rs.Optimizer.Block.Fires.{
  folded_fires, neg_fires, not_fires, load_fires, load_overflows,
}

pub is_load_const_eq : (o : Opcode) → is_load_const o ≡ true → o ≡ Opcode.load_const
is_load_const_eq Opcode.load_const e = refl
is_load_const_eq o e = absurd (cc e)

module _ (program : CompiledProgram) (vm : Vm) (k : M Bool) where
  abbrev load : ℤ → ℤ → M Bool
  load a q = execute_instruction program Opcode.load_const a q

  -- A constant and a step that replaces it.
  constant_then :
      (a q v : ℤ) (step : M Bool)
      → (leb max_operand_stack (length vm.stack) ≡ false
          → step (record vm { stack = a ∷ vm.stack })
            ≡ ok true (record vm { stack = v ∷ vm.stack }))
      → Improves
          (then_run (load a q vm) (λ vm'. then_run (step vm') k))
          (then_run (load v (pos 0) vm) k)
  unfolding then_run
  constant_then a q v step fires = elim (Bool-cases (leb max_operand_stack (length vm.stack))) [
    | inl full ↦ rw (load_overflows program a q vm full) avoids
    | inr room ↦
        rw (load_fires program a q vm room, load_fires program v (pos 0) vm room, fires room) same
  ]

  -- Two constants and a step that replaces both.
  constants_then :
      (a q b q' v : ℤ) (step : M Bool)
      → (leb max_operand_stack (length vm.stack) ≡ false
          → step (record vm { stack = b ∷ a ∷ vm.stack })
            ≡ ok true (record vm { stack = v ∷ vm.stack }))
      → Improves
          (then_run
            (load a q vm)
            (λ vm'. then_run (load b q' vm') (λ vm''. then_run (step vm'') k)))
          (then_run (load v (pos 0) vm) k)
  unfolding then_run
  constants_then a q b q' v step fires =
      elim (Bool-cases (leb max_operand_stack (length vm.stack))) [
        | inl full ↦ rw (load_overflows program a q vm full) avoids
        | inr room ↦ elim (Bool-cases (leb max_operand_stack (suc (length vm.stack)))) [
          | inl full ↦
              rw
                (
                  load_fires program a q vm room,
                  load_overflows program b q' (record vm { stack = a ∷ vm.stack }) full,
                )
                avoids
          | inr more ↦
              rw
                (
                  load_fires program a q vm room,
                  load_fires program b q' (record vm { stack = a ∷ vm.stack }) more,
                  fires room,
                  load_fires program v (pos 0) vm room,
                )
                same
        ]
      ]

-- The block with a window's instructions put in place.
abbrev pub placed : CompiledProgram → List Instruction → List Instruction × ℕ → M Bool
placed program tail (out, more) = run_block program (out ++ drop more tail)

pub Improves-placed :
    (program : CompiledProgram) (tail : List Instruction) (vm : Vm) {o : Outcome Bool}
    {w w' : List Instruction × ℕ}
    → some w ≡ some w'
    → Improves o (placed program tail w vm)
    → Improves o (placed program tail w' vm)
Improves-placed program tail vm {o} e h =
    subst (λ w. Improves o (placed program tail w vm)) (some-injective _ _ e) h

module _ (program : CompiledProgram) where
  fold_unary-Improves :
      (a q : ℤ) (o : Opcode) (p q' : ℤ) (rest out : List Instruction) (more : ℕ)
      → IsI32 a
      → fold_unary a o ≡ some (out, more)
      → (vm : Vm)
      → Improves
          (run_block program (instruction Opcode.load_const a q ∷ instruction o p q' ∷ rest) vm)
          (placed program (instruction o p q' ∷ rest) (out, more) vm)
  unfolding run_block fold_unary
  fold_unary-Improves a q Opcode.neg p q' rest out more fits e vm =
      Improves-placed program (instruction Opcode.neg p q' ∷ rest) vm e (
        constant_then program vm _ a q _ _
          λ room. neg_fires program a (pos 0) p q' vm vm.stack room fits)
  fold_unary-Improves a q Opcode.not p q' rest out more fits e vm =
      Improves-placed program (instruction Opcode.not p q' ∷ rest) vm e (
        constant_then program vm _ a q _ _
          λ room. not_fires program a (pos 0) p q' vm vm.stack room)
  fold_unary-Improves a q o p q' rest out more fits e vm = absurd (cc e)

  fold_binary-Improves :
      (a q b q' : ℤ) (o : Opcode) (p r v : ℤ) (rest out : List Instruction) (more : ℕ)
      → IsI32 a
      → folded o a b ≡ some v
      → ◌≡◌ {A = Option (List Instruction × ℕ)}
          (some (instruction Opcode.load_const (as_i32 v) (pos 0) ∷ [], 2))
          (some (out, more))
      → (vm : Vm)
      → Improves
          (run_block program
            (instruction Opcode.load_const a q
              ∷ instruction Opcode.load_const b q'
              ∷ instruction o p r
              ∷ rest)
            vm)
          (placed program
            (instruction Opcode.load_const b q' ∷ instruction o p r ∷ rest)
            (out, more)
            vm)
  unfolding run_block
  fold_binary-Improves a q b q' o p r v rest out more fits f e vm =
      Improves-placed program (instruction Opcode.load_const b q' ∷ instruction o p r ∷ rest) vm e (
        constants_then program vm _ a q b q' _ _
          λ room. folded_fires program a b p r vm vm.stack room o v fits f)

  fold_constants-Improves :
      (a q : ℤ) (o : Opcode) (b q' : ℤ) (rest out : List Instruction) (more : ℕ)
      → IsI32 a
      → fold_constants a o b rest ≡ some (out, more)
      → (vm : Vm)
      → Improves
          (run_block program (instruction Opcode.load_const a q ∷ instruction o b q' ∷ rest) vm)
          (placed program (instruction o b q' ∷ rest) (out, more) vm)
  unfolding fold_constants
  fold_constants-Improves a q o b q' [] out more fits e vm =
      fold_unary-Improves a q o b q' [] out more fits e vm
  fold_constants-Improves a q o b q' (i2 ∷ rest) out more fits e vm =
      go (is_load_const o) refl (folded i2.opcode a b) refl
    where
      Goal : Type 0
      Goal =
          Improves
            (run_block program (instruction Opcode.load_const a q ∷ instruction o b q' ∷ i2 ∷ rest)
              vm)
            (placed program (instruction o b q' ∷ i2 ∷ rest) (out, more) vm)

      go : (l : Bool) → is_load_const o ≡ l → (f : Option ℤ) → folded i2.opcode a b ≡ f → Goal
      go true l none f =
          fold_unary-Improves a q o b q' (i2 ∷ rest) out more fits (rw (l, f, fold_constants) at e)
            vm
      go true l (some v) f =
          subst
            (λ c.
              Improves
                (run_block program
                  (instruction Opcode.load_const a q ∷ instruction c b q' ∷ i2 ∷ rest) vm)
                (placed program (instruction c b q' ∷ i2 ∷ rest) (out, more) vm))
            (sym (is_load_const_eq o l))
            (fold_binary-Improves a q b q' i2.opcode i2.arg1 i2.arg2 v rest out more fits f
              (rw (l, f, fold_constants) at e) vm)
      go false l g f =
          fold_unary-Improves a q o b q' (i2 ∷ rest) out more fits (rw (l, fold_constants) at e) vm

  folding_window-Improving : Improving program AllI32 folding_window
  unfolding folding_window
  folding_window-Improving i i0 [] out more fits e vm = absurd (cc e)
  folding_window-Improving i i0 (i1 ∷ rest) out more fits e vm = go (is_load_const i0.opcode) refl
    where
      go :
          (l : Bool)
          → is_load_const i0.opcode ≡ l
          → Improves
              (run_block program (i0 ∷ i1 ∷ rest) vm)
              (placed program (i1 ∷ rest) (out, more) vm)
      go false l = absurd (cc (rw (l, folding_window) at e))
      go true l =
          subst
            (λ c.
              Improves (run_block program (instruction c i0.arg1 i0.arg2 ∷ i1 ∷ rest) vm)
                (placed program (i1 ∷ rest) (out, more) vm))
            (sym (is_load_const_eq i0.opcode l))
            (fold_constants-Improves i0.arg1 i0.arg2 i1.opcode i1.arg1 i1.arg2 rest out more fits.0
              (rw (l, folding_window) at e) vm)

  -- Constant folding keeps what a block does to the machine, up to its first instruction that
  -- sets the program counter: the folded block ends in the same way as the block, unless the
  -- block traps with StackOverflow. The arguments are 32-bit values.
  pub constant_folding-Improves :
      (code : List Instruction)
      → AllI32 code
      → (vm : Vm)
      → Improves (run_block program code vm) (run_block program (constant_folding code).0 vm)
  unfolding constant_folding
  constant_folding-Improves code fits vm =
      rewrite-Improves program AllI32 (λ instr rest h. h.1) folding_window folding_window-Improving
        0 0 code fits vm
