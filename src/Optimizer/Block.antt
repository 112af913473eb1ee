-- ===== src/Optimizer/Block.antt =====
-- src/optimizer.rs against src/vm.rs: the code of a block, and what it means to improve it.
pub mod Fires
pub mod Folds
pub mod Peeps
pub mod Reductions
pub mod Strength
use minilang_rs.Prelude.{
  ℕ, zero, suc, ◌+◌, ◌≡◌, refl, Bool, true, false, List, [], ◌∷◌, ◌++◌, Option, none, some, drop,
  arith,
}
use minilang_rs.Word.{IsI32}
use minilang_rs.Bytecode.{Instruction, CompiledProgram}
use minilang_rs.Vm.State.{Vm, Outcome, ok, trap, panic, M, stack_overflow}
use minilang_rs.Vm.Execute.{execute_instruction}
use minilang_rs.Optimizer.Passes.{Window, rewrite}

-- The next instruction, where the one before has left the program counter to the loop.
unfoldable pub then_run : Outcome Bool → M Bool → Outcome Bool
then_run (ok true vm) next = next vm
then_run (ok false vm) next = ok false vm
then_run (trap code vm) next = trap code vm
then_run panic next = panic

-- The instructions in order, up to the first that sets the program counter.
unfoldable pub run_block : CompiledProgram → List Instruction → M Bool
run_block program [] vm = ok true vm
run_block program (instr ∷ rest) vm =
    then_run (execute_instruction program instr.opcode instr.arg1 instr.arg2 vm)
      (run_block program rest)

-- The same outcome, unless the first is a trap with StackOverflow.
pub data Improves : Outcome Bool → Outcome Bool → Type 0 where
  same : {o : Outcome Bool} → Improves o o
  avoids : {vm : Vm} {o : Outcome Bool} → Improves (trap stack_overflow vm) o

pub Improves-trans : {a b c : Outcome Bool} → Improves a b → Improves b c → Improves a c
Improves-trans same h = h
Improves-trans avoids h = avoids

pub then_run-Improves :
    {o o' : Outcome Bool} {k k' : M Bool}
    → Improves o o'
    → ((vm : Vm) → Improves (k vm) (k' vm))
    → Improves (then_run o k) (then_run o' k')
unfolding then_run
then_run-Improves avoids h = avoids
then_run-Improves (same {o = ok true vm}) h = h vm
then_run-Improves (same {o = ok false vm}) h = same
then_run-Improves (same {o = trap code vm}) h = same
then_run-Improves (same {o = panic}) h = same

-- The first argument of an instruction is an `i32`.
abbrev pub AllI32 : List Instruction → Type 0
AllI32 [] = Unit
AllI32 (instr ∷ rest) = IsI32 instr.arg1 × AllI32 rest

module _ (program : CompiledProgram) where
  append-Improves :
      (out xs ys : List Instruction)
      → ((vm : Vm) → Improves (run_block program xs vm) (run_block program ys vm))
      → (vm : Vm) → Improves (run_block program (out ++ xs) vm) (run_block program (out ++ ys) vm)
  unfolding run_block then_run
  append-Improves [] xs ys h vm = h vm
  append-Improves (instr ∷ out) xs ys h vm = then_run-Improves same (append-Improves out xs ys h)

  -- What a window puts in the place of its instructions improves them.
  abbrev pub Improving : (List Instruction → Type 0) → Window → Type 0
  Improving P window =
      (i : ℕ) (instr : Instruction) (rest out : List Instruction) (more : ℕ)
      → P (instr ∷ rest)
      → window i instr rest ≡ some (out, more)
      → (vm : Vm)
      → Improves (run_block program (instr ∷ rest) vm)
          (run_block program (out ++ drop more rest) vm)

  pub rewrite-Improves :
      (P : List Instruction → Type 0)
      → ((instr : Instruction) (rest : List Instruction) → P (instr ∷ rest) → P rest)
      → (window : Window) → Improving P window
      → (skip i : ℕ) (code : List Instruction) → P code
      → (vm : Vm)
      → Improves
          (run_block program (drop skip code) vm)
          (run_block program (rewrite window skip i code).0 vm)
  unfolding rewrite run_block then_run
  rewrite-Improves P tails window improving zero i [] p vm = same
  rewrite-Improves P tails window improving (suc skip) i [] p vm = same
  rewrite-Improves P tails window improving (suc skip) i (instr ∷ rest) p vm =
      rewrite-Improves P tails window improving skip (i + 1) rest (tails instr rest p) vm
  rewrite-Improves P tails window improving zero i (instr ∷ rest) p vm =
      go (λ skip. rewrite-Improves P tails window improving skip (i + 1) rest (tails instr rest p))
        (window i instr rest) refl
    where
      go :
          ((skip : ℕ) (vm : Vm)
            → Improves
                (run_block program (drop skip rest) vm)
                (run_block program (rewrite window skip (i + 1) rest).0 vm))
          → (w : Option (List Instruction × ℕ)) → window i instr rest ≡ w
          → Improves
              (run_block program (instr ∷ rest) vm)
              (run_block program (rewrite window zero i (instr ∷ rest)).0 vm)
      go later none e = rw (e, rewrite) (then_run-Improves same (later 0))
      go later (some (out, more)) e =
          rw (e, rewrite)
            (Improves-trans (improving i instr rest out more p e vm)
              (append-Improves out _ _ (later more) vm))
