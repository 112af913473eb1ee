-- ===== src/Optimizer/Passes.antt =====
-- src/optimizer.rs: constant folding, strength reduction and peephole optimization.
-- The three passes share their loop: at each index a window is tried; where it matches, its
-- instructions are replaced and counted, and elsewhere the instruction is copied.
use minilang_rs.Prelude.{
  ℕ, zero, suc, ◌+◌, Bool, true, false, not, ◌&&◌, ◌||◌, List, [], ◌∷◌, ◌++◌, Option, none, some,
  if◌then◌else◌,
}
use minilang_rs.Prelude.Int.{ℤ, pos, negsuc, ltb_ℤ, leb_ℤ, ◌==ℤ◌, ◌-ℤ◌, ◌/ℤ◌}
use minilang_rs.Word.{normalize_i32, wrapping_add, wrapping_sub, wrapping_mul}
use minilang_rs.Bytecode.{Opcode, Instruction, instruction}
use minilang_rs.Vm.Execute.{truth}

-- What a window gives: the instructions in its place, and how many it has beyond the first.
abbrev pub Window : Type 0
Window = ℕ → Instruction → List Instruction → Option (List Instruction × ℕ)

-- The loop. `skip` instructions are still part of the last window, and `i` is the index.
unfoldable pub rewrite : Window → ℕ → ℕ → List Instruction → List Instruction × ℕ
rewrite window skip i [] = ([], 0)
rewrite window (suc skip) i (instr ∷ rest) = rewrite window skip (i + 1) rest
rewrite window zero i (instr ∷ rest) = elim (window i instr rest) [
  | some (out, more) ↦
      let (result, count) = rewrite window more (i + 1) rest in (out ++ result, count + 1)
  | none ↦ let (result, count) = rewrite window 0 (i + 1) rest in (instr ∷ result, count)
]

abbrev pub is_load_const : Opcode → Bool
is_load_const Opcode.load_const = true
is_load_const _ = false

-- `value as i32`, which keeps the low 32 bits.
abbrev pub as_i32 : ℤ → ℤ
as_i32 value = normalize_i32 value

-- The value of an operator on two constants.
abbrev pub folded : Opcode → ℤ → ℤ → Option ℤ
folded Opcode.add a b = some (normalize_i32 (wrapping_add a b))
folded Opcode.sub a b = some (normalize_i32 (wrapping_sub a b))
folded Opcode.mul a b = some (normalize_i32 (wrapping_mul a b))
folded Opcode.div a b =
    if not (b ==ℤ pos 0) && not (a ==ℤ negsuc 0x7fff_ffff && b ==ℤ negsuc 0)
    then some (a /ℤ b)
    else none
folded Opcode.eq a b = some (truth (a ==ℤ b))
folded Opcode.ne a b = some (truth (not (a ==ℤ b)))
folded Opcode.lt a b = some (truth (ltb_ℤ a b))
folded Opcode.gt a b = some (truth (ltb_ℤ b a))
folded Opcode.le a b = some (truth (leb_ℤ a b))
folded Opcode.ge a b = some (truth (leb_ℤ b a))
folded _ a b = none

-- The window of two: a constant and NEG or NOT.
unfoldable pub fold_unary : ℤ → Opcode → Option (List Instruction × ℕ)
unfolding normalize_i32 ◌-ℤ◌
fold_unary a Opcode.neg =
    some (instruction Opcode.load_const (as_i32 (normalize_i32 (pos 0 -ℤ a))) (pos 0) ∷ [], 1)
fold_unary a Opcode.not = some (instruction Opcode.load_const (truth (a ==ℤ pos 0)) (pos 0) ∷ [], 1)
fold_unary a _ = none

-- The window of three is tried first: two constants and an operator.
unfoldable pub fold_constants : ℤ → Opcode → ℤ → List Instruction → Option (List Instruction × ℕ)
unfolding fold_unary
fold_constants a o b [] = fold_unary a o
fold_constants a o b (i2 ∷ rest) =
    if is_load_const o
    then elim (folded i2.opcode a b) [
      | some value ↦ some (instruction Opcode.load_const (as_i32 value) (pos 0) ∷ [], 2)
      | none ↦ fold_unary a o
    ]
    else fold_unary a o

unfoldable pub folding_window : Window
unfolding fold_constants
folding_window i i0 [] = none
folding_window i i0 (i1 ∷ rest) =
    if is_load_const i0.opcode then fold_constants i0.arg1 i1.opcode i1.arg1 rest else none

unfoldable pub constant_folding : List Instruction → List Instruction × ℕ
unfolding rewrite folding_window
constant_folding instructions = rewrite folding_window 0 0 instructions

-- A constant and an operator on it that does nothing, or a multiplication by 0.
unfoldable pub reduce : ℤ → Opcode → Option (List Instruction × ℕ)
reduce a Opcode.mul =
    if a ==ℤ pos 0
    then some (
      instruction Opcode.pop (pos 0) (pos 0) ∷ instruction Opcode.load_const (pos 0) (pos 0) ∷ [],
      1,
    )
    else if a ==ℤ pos 1
    then some ([], 1)
    else none
reduce a Opcode.add = if a ==ℤ pos 0 then some ([], 1) else none
reduce a Opcode.sub = if a ==ℤ pos 0 then some ([], 1) else none
reduce a Opcode.div = if a ==ℤ pos 1 then some ([], 1) else none
reduce a _ = none

unfoldable pub strength_window : Window
unfolding reduce
strength_window i i0 [] = none
strength_window i i0 (i1 ∷ rest) =
    if is_load_const i0.opcode then reduce i0.arg1 i1.opcode else none

unfoldable pub strength_reduction : List Instruction → List Instruction × ℕ
unfolding rewrite strength_window
strength_reduction instructions = rewrite strength_window 0 0 instructions

-- A constant that is popped at once, and a jump to the next instruction.
unfoldable pub simplify : ℕ → Opcode → ℤ → Opcode → Option (List Instruction × ℕ)
simplify i Opcode.load_const a Opcode.pop = some ([], 1)
simplify i Opcode.jump a o = if a ==ℤ as_i32 (pos (i + 1)) then some ([], 0) else none
simplify i _ a o = none

unfoldable pub peephole_window : Window
unfolding simplify
peephole_window i i0 [] = none
peephole_window i i0 (i1 ∷ rest) = simplify i i0.opcode i0.arg1 i1.opcode

unfoldable pub peephole_optimization : List Instruction → List Instruction × ℕ
unfolding rewrite peephole_window
peephole_optimization instructions = rewrite peephole_window 0 0 instructions

abbrev pub is_jump : Opcode → Bool
is_jump Opcode.jump = true
is_jump Opcode.jump_if_false = true
is_jump Opcode.jump_if_true = true
is_jump _ = false

unfoldable pub has_jump : List Instruction → Bool
has_jump [] = false
has_jump (instr ∷ rest) = is_jump instr.opcode || has_jump rest
