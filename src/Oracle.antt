-- ===== src/Oracle.antt =====
-- src/oracle.rs: the interpreter of the syntax tree: its state and the operations on it.
-- The frames and the scopes are lists with the innermost first; the texts of traps are left out, and
-- of the output the printed values are kept.
pub mod Nodes
pub mod Run
pub mod Slots
pub mod Fits
pub mod Total
mod Examples
use minilang_rs.Prelude.{
  ℕ, ◌+◌, Bool, List, [], ◌∷◌, ◌++◌, Option, none, some, String, length, get_elem?, set, replicate,
  ltb, not, if◌then◌else◌,
}
use minilang_rs.Prelude.Int.{ℤ, pos, ltb_ℤ, leb_ℤ, ◌==ℤ◌}
use minilang_rs.Prelude.Names.{find, put}
use minilang_rs.Word.{
  wrapping_add, wrapping_sub, wrapping_mul, checked_neg, checked_div, normalize_i32, as_usize,
}
use minilang_rs.Limits.{max_cycles}
use minilang_rs.Vm.State.{
  TrapCode, divide_by_zero, undefined_local, array_out_of_bounds, cycle_limit, invalid_instruction,
}
use minilang_rs.Ast.{BinaryOp, UnaryOp}

pub data Slot : Type 0 where
  scalar : Option ℤ → Slot
  array : List ℤ → Slot

abbrev pub Scope : Type 0
Scope = List (String × Slot)

pub record Frame : Type 0 where
  pub scopes : List Scope

-- `AstOracle`, without the program and its functions.
pub record Oracle : Type 0 where
  pub globals : Scope
  pub frames : List Frame
  pub output : List ℤ
  pub cycles : ℕ

pub data Control : Type 0 where
  continue : Control
  returned : ℤ → Control

-- A value, a trap, a panic, or a run that the fuel has not ended.
pub data Answer (A : Type 0) : Type 0 where
  ok : A → Oracle → Answer A
  trap : TrapCode → Oracle → Answer A
  panic starved : Answer A

abbrev pub O : Type 0 → Type 0
O A = Oracle → Answer A

unfoldable pub pure : {A : Type 0} → A → O A
pure a o = ok a o

infixl 5 ◌>>=◌ ◌>>◌
unfoldable pub ◌>>=◌ : {A B : Type 0} → O A → (A → O B) → O B
◌>>=◌ m f o = elim (m o) [
  | ok a o' ↦ f a o'
  | trap c o' ↦ trap c o'
  | panic ↦ panic
  | starved ↦ starved
]

unfoldable pub ◌>>◌ : {B : Type 0} → O (Unit {0}) → O B → O B
unfolding ◌>>=◌
m >> k = m >>= λ _. k

unfoldable pub fail : {A : Type 0} → TrapCode → O A
fail code o = trap code o

unfoldable pub or_panic : {A : Type 0} → Option A → O A
or_panic v o = elim v [ some a ↦ ok a o | none ↦ panic ]

unfoldable pub tick : O (Unit {0})
tick o =
    let o' = record o { cycles = o.cycles + 1 } in
    if ltb max_cycles o'.cycles then trap cycle_limit o' else ok tt o'

-- `if value { 1 } else { 0 }`
abbrev pub bool_value : Bool → ℤ
bool_value value = if value then pos 1 else pos 0

unfoldable pub checked_array_index : ℤ → O ℕ
unfolding as_usize
checked_array_index raw_index o =
    if ltb_ℤ raw_index (pos 0) then trap array_out_of_bounds o else ok (as_usize raw_index) o

-- The operators that do not short-circuit.
unfoldable pub eval_binary : BinaryOp → ℤ → ℤ → O ℤ
unfolding pure fail or_panic ◌>>=◌ wrapping_add wrapping_sub wrapping_mul checked_div normalize_i32
eval_binary BinaryOp.add l r = pure (normalize_i32 (wrapping_add l r))
eval_binary BinaryOp.sub l r = pure (normalize_i32 (wrapping_sub l r))
eval_binary BinaryOp.mul l r = pure (normalize_i32 (wrapping_mul l r))
eval_binary BinaryOp.div l r =
    if r ==ℤ pos 0
    then fail divide_by_zero
    else (or_panic (checked_div l r) >>= λ q. pure (normalize_i32 q))
eval_binary BinaryOp.eq l r = pure (bool_value (l ==ℤ r))
eval_binary BinaryOp.ne l r = pure (bool_value (not (l ==ℤ r)))
eval_binary BinaryOp.lt l r = pure (bool_value (ltb_ℤ l r))
eval_binary BinaryOp.gt l r = pure (bool_value (ltb_ℤ r l))
eval_binary BinaryOp.le l r = pure (bool_value (leb_ℤ l r))
eval_binary BinaryOp.ge l r = pure (bool_value (leb_ℤ r l))
eval_binary BinaryOp.and l r = λ _. panic
eval_binary BinaryOp.or l r = λ _. panic

unfoldable pub eval_unary : UnaryOp → ℤ → O ℤ
unfolding pure or_panic ◌>>=◌ checked_neg normalize_i32
eval_unary UnaryOp.neg v = or_panic (checked_neg v) >>= λ n. pure (normalize_i32 n)
eval_unary UnaryOp.not v = pure (bool_value (v ==ℤ pos 0))

-- The slot of a name in the scopes of a frame, and in the globals if it has none there.
unfoldable pub find_in_scopes : String → List Scope → Option Slot
find_in_scopes name [] = none
find_in_scopes name (scope ∷ scopes) =
    let outer = find_in_scopes name scopes in
    elim (find name scope) [ some slot ↦ some slot | none ↦ outer ]

unfoldable pub lookup_slot : String → Oracle → Option Slot
unfolding find_in_scopes
lookup_slot name o = elim o.frames [
  | [] ↦ find name o.globals
  | frame ∷ frames ↦ elim (find_in_scopes name frame.scopes) [
    | some slot ↦ some slot
    | none ↦ find name o.globals
  ]
]

-- `*slot = …` through `lookup_slot_mut`: the slot that `lookup_slot` finds.
unfoldable pub set_in_scopes : String → Slot → List Scope → List Scope
set_in_scopes name slot [] = []
set_in_scopes name slot (scope ∷ scopes) =
    let outer = set_in_scopes name slot scopes in
    elim (find name scope) [ some old ↦ put name slot scope ∷ scopes | none ↦ scope ∷ outer ]

unfoldable pub set_slot : String → Slot → Oracle → Oracle
unfolding find_in_scopes set_in_scopes
set_slot name slot o = elim o.frames [
  | [] ↦ record o { globals = put name slot o.globals }
  | frame ∷ frames ↦ elim (find_in_scopes name frame.scopes) [
    | some old ↦ record o {
      frames = record { scopes = set_in_scopes name slot frame.scopes } ∷ frames;
    }
    | none ↦ record o { globals = put name slot o.globals }
  ]
]

-- `current_scope_mut()?.insert(name, slot)`
unfoldable pub insert_slot : String → Slot → O (Unit {0})
insert_slot name slot o = elim o.frames [
  | [] ↦ trap invalid_instruction o
  | frame ∷ frames ↦ elim frame.scopes [
    | [] ↦ trap invalid_instruction o
    | scope ∷ scopes ↦
        ok tt (record o { frames = record { scopes = put name slot scope ∷ scopes } ∷ frames })
  ]
]

unfoldable pub read_scalar : String → O ℤ
unfolding lookup_slot
read_scalar name o = elim (lookup_slot name o) [
  | none ↦ trap invalid_instruction o
  | some (array values) ↦ trap invalid_instruction o
  | some (scalar none) ↦ trap undefined_local o
  | some (scalar (some value)) ↦ ok value o
]

unfoldable pub read_array : String → ℕ → O ℤ
unfolding lookup_slot
read_array name index o = elim (lookup_slot name o) [
  | none ↦ trap invalid_instruction o
  | some (scalar value) ↦ trap invalid_instruction o
  | some (array values) ↦ elim (get_elem? values index) [
    | some value ↦ ok value o
    | none ↦ trap array_out_of_bounds o
  ]
]

unfoldable pub assign_scalar : String → ℤ → O (Unit {0})
unfolding lookup_slot set_slot normalize_i32
assign_scalar name value o = elim (lookup_slot name o) [
  | none ↦ trap invalid_instruction o
  | some (array values) ↦ trap invalid_instruction o
  | some (scalar old) ↦ ok tt (set_slot name (scalar (some (normalize_i32 value))) o)
]

unfoldable pub assign_global_scalar : String → ℤ → O (Unit {0})
unfolding normalize_i32
assign_global_scalar name value o = elim (find name o.globals) [
  | none ↦ trap invalid_instruction o
  | some (array values) ↦ trap invalid_instruction o
  | some (scalar old) ↦
      ok tt (record o { globals = put name (scalar (some (normalize_i32 value))) o.globals })
]

unfoldable pub assign_array : String → ℕ → ℤ → O (Unit {0})
unfolding lookup_slot set_slot normalize_i32
assign_array name index value o = elim (lookup_slot name o) [
  | none ↦ trap invalid_instruction o
  | some (scalar old) ↦ trap invalid_instruction o
  | some (array values) ↦
      if ltb index (length values)
      then ok tt (set_slot name (array (set values index (normalize_i32 value))) o)
      else trap array_out_of_bounds o
]

unfoldable pub declare_or_update : String → Slot → O (Unit {0})
unfolding lookup_slot set_slot insert_slot
declare_or_update name slot o = elim (lookup_slot name o) [
  | some old ↦ ok tt (set_slot name slot o)
  | none ↦ insert_slot name slot o
]

-- `vec![0; size as usize]`, which panics where the bytes of so many elements overflow.
unfoldable pub zeros : ℤ → Option (List ℤ)
unfolding as_usize
zeros size =
    if ltb 0x0fff_ffff_ffff_ffff (as_usize size)
    then none
    else some (replicate (as_usize size) (pos 0))
