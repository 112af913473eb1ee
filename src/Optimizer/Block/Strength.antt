-- ===== src/Optimizer/Block/Strength.antt =====
-- src/optimizer.rs: the pass of strength reduction over a block.
use minilang_rs.Prelude.{
  ℕ, zero, suc, ◌+◌, ◌≡◌, ◌∙◌, sym, refl, ap, Bool, true, false, List, [], ◌∷◌, ◌++◌, Option, none,
  some, drop, arith, length, leb, Bool-cases, inl, inr, ◌⊎◌,
}
use minilang_rs.Prelude.Int.{ℤ}
use minilang_rs.Limits.{max_operand_stack}
use mathlib.Core.Path.{subst}
use minilang_rs.Bytecode.{Opcode, Instruction, CompiledProgram, instruction}
use minilang_rs.Vm.State.{Vm, Outcome, ok, trap, panic, stack_underflow, ◌>>=◌, ◌>>◌, pop}
use minilang_rs.Vm.Execute.{execute_instruction, binary}
use minilang_rs.Optimizer.Passes.{
  rewrite, reduce, strength_window, strength_reduction, is_load_const,
}
use minilang_rs.Optimizer.Block.{then_run, run_block}
use minilang_rs.Optimizer.Block.Fires.{load_fires, load_overflows}
use minilang_rs.Optimizer.Block.Folds.{is_load_const_eq}
use minilang_rs.Optimizer.Block.Reductions.{Narrow, StaysNarrow, Reduced, reduce-Reduced}

module _ (program : CompiledProgram) where
  -- The block ends in `ok b vm'`, from operands that stay narrow.
  record Succeeds (code : List Instruction) (vm : Vm) (b : Bool) (vm' : Vm) : Type 0 where
    narrow : StaysNarrow program code vm
    ends : run_block program code vm ≡ ok b vm'

  -- The machine behind a window, and the way to it by the instructions in its place.
  record Replaced (code rest out : List Instruction) (more : ℕ) (vm : Vm) (b : Bool) (vm' : Vm)
      : Type 0 where
    behind : Vm
    one_more : more ≡ 1
    later : Succeeds rest behind b vm'
    reaches :
        (tail : List Instruction)
        → run_block program (out ++ tail) vm ≡ run_block program tail behind

  reduce-underflow :
      (o : Opcode) (a p q : ℤ) (vm : Vm) (out : List Instruction) (more : ℕ)
      → reduce a o ≡ some (out, more)
      → execute_instruction program o p q (record vm { stack = a ∷ [] })
        ≡ trap stack_underflow (record vm { stack = [] })
  unfolding reduce execute_instruction binary ◌>>=◌ ◌>>◌ pop
  reduce-underflow Opcode.add a p q vm out more e = refl
  reduce-underflow Opcode.sub a p q vm out more e = refl
  reduce-underflow Opcode.mul a p q vm out more e = refl
  reduce-underflow Opcode.div a p q vm out more e = refl
  reduce-underflow o a p q vm out more e = absurd (cc e)

  window-Replaced :
      (a p : ℤ) (o : Opcode) (q r : ℤ) (rest out : List Instruction) (more : ℕ) (vm : Vm)
      (stack : List ℤ) (b : Bool) (vm' : Vm)
      → reduce a o ≡ some (out, more)
      → Succeeds
          (instruction Opcode.load_const a p ∷ instruction o q r ∷ rest)
          (record vm { stack = stack })
          b
          vm'
      → Replaced
          (instruction Opcode.load_const a p ∷ instruction o q r ∷ rest)
          rest
          out
          more
          (record vm { stack = stack })
          b
          vm'
  unfolding run_block then_run StaysNarrow
  window-Replaced a p o q r rest out more vm stack b vm' e h =
      go stack h.narrow h.ends (Bool-cases (leb max_operand_stack (length stack)))
    where
      code : List Instruction
      code = instruction Opcode.load_const a p ∷ instruction o q r ∷ rest

      go :
          (s : List ℤ)
          → StaysNarrow program code (record vm { stack = s })
          → run_block program code (record vm { stack = s }) ≡ ok b vm'
          → (leb max_operand_stack (length s) ≡ true) ⊎ (leb max_operand_stack (length s) ≡ false)
          → Replaced code rest out more (record vm { stack = s }) b vm'
      go s narrow ends (inl full) =
          absurd (cc (rw (load_overflows program a p (record vm { stack = s }) full) at ends))
      go [] narrow ends (inr room) = absurd (
          cc (
            rw
              (
                load_fires program a p (record vm { stack = [] }) room,
                reduce-underflow o a q r vm out more e,
              )
              at ends))
      go (x ∷ below) narrow ends (inr room) = record {
        behind = record vm { stack = reduced.v ∷ below };
        one_more = reduced.one_more;
        later = record {
          narrow =
              (narrow.1 _ (load_fires program a p (record vm { stack = x ∷ below }) room)).1 _
                reduced.both;
          ends =
              rw (load_fires program a p (record vm { stack = x ∷ below }) room, reduced.both) at
                ends;
        };
        reaches = reduced.given;
      }
        where
          reduced : Reduced program vm o a q r x below out more
          reduced = reduce-Reduced program vm q r x below narrow.0.0 (ground arith) o a out more e

  strength_window-Replaced :
      (i : ℕ) (i0 : Instruction) (rest out : List Instruction) (more : ℕ) (vm : Vm) (b : Bool)
      (vm' : Vm)
      → strength_window i i0 rest ≡ some (out, more)
      → Succeeds (i0 ∷ rest) vm b vm'
      → Replaced (i0 ∷ rest) (drop more rest) out more vm b vm'
  unfolding strength_window
  strength_window-Replaced i i0 [] out more vm b vm' e h = absurd (cc e)
  strength_window-Replaced i i0 (i1 ∷ rest) out more vm b vm' e h =
      go (is_load_const i0.opcode) refl
    where
      Goal : Opcode → Type 0
      Goal o =
          Succeeds (instruction o i0.arg1 i0.arg2 ∷ i1 ∷ rest) vm b vm'
          → Replaced (instruction o i0.arg1 i0.arg2 ∷ i1 ∷ rest) (drop more (i1 ∷ rest)) out more vm
              b vm'

      at_rest :
          {code : List Instruction}
          → Replaced code rest out more vm b vm'
          → Replaced code (drop more (i1 ∷ rest)) out more vm b vm'
      at_rest {code} r =
          subst (λ m. Replaced code (drop m (i1 ∷ rest)) out more vm b vm') (sym r.one_more) r

      go :
          (l : Bool)
          → is_load_const i0.opcode ≡ l
          → Replaced (i0 ∷ i1 ∷ rest) (drop more (i1 ∷ rest)) out more vm b vm'
      go false l = absurd (cc (rw (l, strength_window) at e))
      go true l =
          subst Goal (sym (is_load_const_eq i0.opcode l))
            (λ h'. at_rest (
              window-Replaced i0.arg1 i0.arg2 i1.opcode i1.arg1 i1.arg2 rest out more vm vm.stack b
                vm' (rw (l, strength_window) at e) h'))
            h

  rewrite-Succeeds :
      (skip i : ℕ) (code : List Instruction) (vm : Vm) (b : Bool) (vm' : Vm)
      → Succeeds (drop skip code) vm b vm'
      → run_block program (rewrite strength_window skip i code).0 vm ≡ ok b vm'
  unfolding rewrite run_block then_run StaysNarrow
  rewrite-Succeeds zero i [] vm b vm' h = h.ends
  rewrite-Succeeds (suc skip) i [] vm b vm' h = h.ends
  rewrite-Succeeds (suc skip) i (i0 ∷ rest) vm b vm' h =
      rewrite-Succeeds skip (i + 1) rest vm b vm' h
  rewrite-Succeeds zero i (i0 ∷ rest) vm b vm' h =
      go (λ skip v h'. rewrite-Succeeds skip (i + 1) rest v b vm' h') (strength_window i i0 rest)
        refl
    where
      Later : Type 0
      Later =
          (skip : ℕ) (v : Vm)
          → Succeeds (drop skip rest) v b vm'
          → run_block program (rewrite strength_window skip (i + 1) rest).0 v ≡ ok b vm'

      copied :
          Later
          → (o : Outcome Bool) → execute_instruction program i0.opcode i0.arg1 i0.arg2 vm ≡ o
          → then_run o (run_block program rest) ≡ ok b vm'
          → then_run o (run_block program (rewrite strength_window 0 (i + 1) rest).0) ≡ ok b vm'
      copied later (ok true v) e ends = later 0 v (record { narrow = h.narrow.1 v e; ends = ends })
      copied later (ok false v) e ends = ends
      copied later (trap code v) e ends = ends
      copied later panic e ends = ends

      go :
          Later
          → (w : Option (List Instruction × ℕ)) → strength_window i i0 rest ≡ w
          → run_block program (rewrite strength_window zero i (i0 ∷ rest)).0 vm ≡ ok b vm'
      go later none e = rw (e, rewrite) (copied later _ refl h.ends)
      go later (some (out, more)) e =
          let replaced = strength_window-Replaced i i0 rest out more vm b vm' e h in
          rw (e, rewrite)
            (replaced.reaches (rewrite strength_window more (i + 1) rest).0
              ∙ later more replaced.behind replaced.later)

-- Strength reduction keeps a successful block: where the operands are 32-bit values before each
-- instruction, and the block ends without a trap or panic, the reduced block ends in the same
-- machine.
pub strength_reduction-keeps :
    (program : CompiledProgram) (code : List Instruction) (vm vm' : Vm) (b : Bool)
    → StaysNarrow program code vm
    → run_block program code vm ≡ ok b vm'
    → run_block program (strength_reduction code).0 vm ≡ ok b vm'
unfolding strength_reduction
strength_reduction-keeps program code vm vm' b narrow ends =
    rewrite-Succeeds program 0 0 code vm b vm' (record { narrow = narrow; ends = ends })

-- One instruction that goes to a known machine.
pub StaysNarrow-step :
    (program : CompiledProgram) (instr : Instruction) (rest : List Instruction) (vm behind : Vm)
    → Narrow vm.stack
    → execute_instruction program instr.opcode instr.arg1 instr.arg2 vm ≡ ok true behind
    → StaysNarrow program rest behind
    → StaysNarrow program (instr ∷ rest) vm
unfolding StaysNarrow
StaysNarrow-step program instr rest vm behind narrow runs later =
    (narrow, λ vm' e. subst (StaysNarrow program rest) (machine_of (sym runs ∙ e)) later)
  where
    machine : Outcome Bool → Vm
    machine (ok b v) = v
    machine (trap code v) = v
    machine panic = behind

    machine_of : {vm' : Vm} → ok true behind ≡ ok true vm' → behind ≡ vm'
    machine_of e = ap machine e
