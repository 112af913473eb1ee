-- ===== src/Optimizer/Block/Peeps.antt =====
-- src/optimizer.rs: peephole optimization of a block.
use minilang_rs.Prelude.{
  ℕ, ◌≡◌, refl, true, false, List, [], ◌∷◌, some, arith, length, leb, Bool-cases, inl, inr,
}
use minilang_rs.Prelude.Int.{ℤ}
use minilang_rs.Limits.{max_operand_stack}
use minilang_rs.Bytecode.{Opcode, Instruction, CompiledProgram, instruction}
use minilang_rs.Vm.State.{Vm, ok, ◌>>=◌, ◌>>◌, pure, pop}
use minilang_rs.Vm.Execute.{execute_instruction}
use minilang_rs.Optimizer.Passes.{
  simplify, peephole_window, peephole_optimization, has_jump, is_jump,
}
use minilang_rs.Optimizer.Block.{
  then_run, run_block, Improves, same, avoids, Improving, rewrite-Improves,
}
use minilang_rs.Optimizer.Block.Fires.{load_fires, load_overflows}
use minilang_rs.Optimizer.Block.Folds.{placed, Improves-placed}

abbrev NoJump : List Instruction → Type 0
NoJump code = has_jump code ≡ false

module _ (program : CompiledProgram) where
  pop_fires :
      (p q v : ℤ) (vm : Vm)
      → execute_instruction program Opcode.pop p q (record vm { stack = v ∷ vm.stack }) ≡ ok true vm
  unfolding execute_instruction ◌>>=◌ ◌>>◌ pure pop
  pop_fires p q v vm = refl

  -- A constant that is popped at once.
  dead_load-Improves :
      (a q p q' : ℤ) (rest : List Instruction) (vm : Vm)
      → Improves
          (run_block program
            (instruction Opcode.load_const a q ∷ instruction Opcode.pop p q' ∷ rest)
            vm)
          (run_block program rest vm)
  unfolding run_block then_run
  dead_load-Improves a q p q' rest vm =
      elim (Bool-cases (leb max_operand_stack (length vm.stack))) [
        | inl full ↦ rw (load_overflows program a q vm full) avoids
        | inr room ↦ rw (load_fires program a q vm room, pop_fires p q' a vm) same
      ]

  simplify-Improves :
      (i : ℕ) (o : Opcode) (a q : ℤ) (o' : Opcode) (p q' : ℤ) (rest out : List Instruction)
      (more : ℕ)
      → is_jump o ≡ false
      → simplify i o a o' ≡ some (out, more)
      → (vm : Vm)
      → Improves
          (run_block program (instruction o a q ∷ instruction o' p q' ∷ rest) vm)
          (placed program (instruction o' p q' ∷ rest) (out, more) vm)
  unfolding simplify
  simplify-Improves i Opcode.load_const a q Opcode.pop p q' rest out more still e vm =
      Improves-placed program (instruction Opcode.pop p q' ∷ rest) vm e
        (dead_load-Improves a q p q' rest vm)
  simplify-Improves i Opcode.jump a q o' p q' rest out more still e vm = absurd (cc still)
  simplify-Improves i o a q o' p q' rest out more still e vm = absurd (cc e)

  peephole_window-Improving : Improving program NoJump peephole_window
  unfolding peephole_window has_jump
  peephole_window-Improving i i0 [] out more still e vm = absurd (cc e)
  peephole_window-Improving i i0 (i1 ∷ rest) out more still e vm =
      simplify-Improves i i0.opcode i0.arg1 i0.arg2 i1.opcode i1.arg1 i1.arg2 rest out more
        (ground arith) e vm

  -- Peephole optimization of code without a jump keeps what a block does, up to its first
  -- instruction that sets the program counter: the new block ends in the same way, unless the
  -- block traps with StackOverflow.
  pub peephole_optimization-Improves :
      (code : List Instruction)
      → has_jump code ≡ false
      → (vm : Vm)
      → Improves (run_block program code vm) (run_block program (peephole_optimization code).0 vm)
  unfolding peephole_optimization has_jump
  peephole_optimization-Improves code still vm =
      rewrite-Improves program NoJump (λ instr rest h. ground arith) peephole_window
        peephole_window-Improving 0 0 code still vm
