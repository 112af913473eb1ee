-- ===== src/Oracle/Fits.antt =====
-- src/oracle.rs: states whose values are 32-bit integers, and what of a program makes them so.
pub mod Keeps
use minilang_rs.Prelude.{List, [], ◌∷◌, Option, none, some, String}
use minilang_rs.Prelude.Int.{ℤ, pos, ◌≤ℤ◌}
use minilang_rs.Word.{IsI32}
use minilang_rs.Ast.{
  Expr, int_literal, bool_literal, identifier, binary, unary, call, array_index, Args, no_args, arg,
  Stmt, var_decl, assign, if_stmt, while_stmt, return_stmt, print_stmt, expr_stmt, Block, end, stmt,
  Else, no_else, else_body, Function, GlobalVar, Program,
}
use minilang_rs.Oracle.{Slot, scalar, array, Scope, Frame, Oracle, Control, continue, returned}

module _ {A : Type 0} (P : A → Type 0) where
  abbrev pub AllOf : List A → Type 0
  AllOf [] = Unit
  AllOf (x ∷ xs) = P x × AllOf xs

  abbrev pub IfAny : Option A → Type 0
  IfAny none = Unit
  IfAny (some x) = P x

  abbrev pub Values : List (String × A) → Type 0
  Values [] = Unit
  Values ((name, x) ∷ entries) = P x × Values entries

-- The state.
abbrev pub SlotFits : Slot → Type 0
SlotFits (scalar v) = IfAny IsI32 v
SlotFits (array values) = AllOf IsI32 values

abbrev pub FrameFits : Frame → Type 0
FrameFits frame = AllOf (Values SlotFits) frame.scopes

abbrev pub StateFits : Oracle → Type 0
StateFits o = Values SlotFits o.globals × AllOf FrameFits o.frames

abbrev pub ControlFits : Control → Type 0
ControlFits continue = Unit
ControlFits (returned v) = IsI32 v

-- The size of an array: a non-negative `i32`.
abbrev pub IsSize : ℤ → Type 0
IsSize size = (pos 0 ≤ℤ size) × (size ≤ℤ pos 0x7fff_ffff)

-- Literals are `i32`.
abbrev mutual
  pub ExprFits : Expr → Type 0
  ExprFits (int_literal value) = IsI32 value
  ExprFits (bool_literal value) = Unit
  ExprFits (identifier name) = Unit
  ExprFits (binary op l r) = ExprFits l × ExprFits r
  ExprFits (unary op operand) = ExprFits operand
  ExprFits (call name args) = ArgsFit args
  ExprFits (array_index name index) = ExprFits index

  pub ArgsFit : Args → Type 0
  ArgsFit no_args = Unit
  ArgsFit (arg e args) = ExprFits e × ArgsFit args

abbrev mutual
  pub StmtFits : Stmt → Type 0
  StmtFits (var_decl t name init size) = IfAny ExprFits init × IfAny IsSize size
  StmtFits (assign target index value) = IfAny ExprFits index × ExprFits value
  StmtFits (if_stmt condition body other) = ExprFits condition × BlockFits body × ElseFits other
  StmtFits (while_stmt condition body) = ExprFits condition × BlockFits body
  StmtFits (return_stmt value) = ExprFits value
  StmtFits (print_stmt value) = ExprFits value
  StmtFits (expr_stmt e) = ExprFits e

  pub BlockFits : Block → Type 0
  BlockFits end = Unit
  BlockFits (stmt s stmts) = StmtFits s × BlockFits stmts

  pub ElseFits : Else → Type 0
  ElseFits no_else = Unit
  ElseFits (else_body body) = BlockFits body

abbrev pub GlobalFits : GlobalVar → Type 0
GlobalFits g = IfAny ExprFits g.init_expr × IfAny IsSize g.array_size

abbrev pub FunctionFits : Function → Type 0
FunctionFits f = BlockFits f.body

abbrev pub ProgramFits : Program → Type 0
ProgramFits program = AllOf GlobalFits program.globals × AllOf FunctionFits program.functions
