-- ===== src/Optimizer/Dead/Control.antt =====
-- src/optimizer.rs: where control goes from an instruction within its function, by its opcode.
use minilang_rs.Prelude.{ℕ, ◌+◌, ◌≡◌, ◌⊎◌, ◌↔◌, true, arith, contains, ==_iff}
use minilang_rs.Prelude.Int.{ℤ}
use minilang_rs.Word.{as_usize}
use minilang_rs.Bytecode.{Opcode}
use minilang_rs.Optimizer.Dead.{successors}

-- The opcodes with a target.
abbrev pub Jumps : Opcode → Type 0
Jumps Opcode.jump = Unit
Jumps Opcode.jump_if_false = Unit
Jumps Opcode.jump_if_true = Unit
Jumps o = ⊥

-- The opcodes after which control can go on with the next instruction, after a call as well.
abbrev pub Falls : Opcode → Type 0
Falls Opcode.jump = ⊥
Falls Opcode.return = ⊥
Falls Opcode.halt = ⊥
Falls o = Unit

-- Control can go from the instruction at `pc` to `s`.
abbrev pub GoesTo : ℕ → Opcode → ℤ → ℕ → Type 0
GoesTo pc o arg1 s = (Falls o × (s ≡ pc + 1)) ⊎ (Jumps o × (s ≡ as_usize arg1))

pub successors-GoesTo :
    (pc : ℕ) (o : Opcode) (arg1 : ℤ) (s : ℕ)
    → (contains s (successors pc o arg1) ≡ true) ↔ GoesTo pc o arg1 s
unfolding successors
successors-GoesTo pc Opcode.jump arg1 s = ground (arith, ==_iff (as_usize arg1) s)
successors-GoesTo pc Opcode.jump_if_false arg1 s =
    ground (arith, ==_iff (as_usize arg1) s, ==_iff (pc + 1) s)
successors-GoesTo pc Opcode.jump_if_true arg1 s =
    ground (arith, ==_iff (as_usize arg1) s, ==_iff (pc + 1) s)
successors-GoesTo pc Opcode.return arg1 s = ground arith
successors-GoesTo pc Opcode.halt arg1 s = ground arith
successors-GoesTo pc o arg1 s = ground (arith, ==_iff (pc + 1) s)
