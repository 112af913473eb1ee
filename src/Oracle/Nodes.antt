-- ===== src/Oracle/Nodes.antt =====
-- src/oracle.rs: expressions and statements, over the interpreter of their parts.
use minilang_rs.Prelude.{List, [], ◌∷◌, ◌++◌, Option, none, some, String, not, if◌then◌else◌}
use minilang_rs.Prelude.Int.{ℤ, pos, ◌==ℤ◌}
use minilang_rs.Ast.{
  BinaryOp, Expr, int_literal, bool_literal, identifier, binary, unary, call, array_index, Args,
  no_args, arg, Stmt, var_decl, assign, if_stmt, while_stmt, return_stmt, print_stmt, expr_stmt,
  Block, end, stmt, Else, no_else, else_body,
}
use minilang_rs.Oracle.{
  scalar, array, Control, continue, returned, ok, O, pure, ◌>>=◌, ◌>>◌, or_panic, bool_value,
  checked_array_index, eval_binary, eval_unary, lookup_slot, insert_slot, read_scalar, read_array,
  assign_scalar, assign_array, declare_or_update, zeros,
}

-- The interpreter of the parts: of expressions, of calls, and of statements.
abbrev pub Eval : Type 0
Eval = Expr → O ℤ

abbrev pub CallFn : Type 0
CallFn = String → List ℤ → O ℤ

abbrev pub Exec : Type 0
Exec = Stmt → O Control

unfoldable pub eval_args : Eval → Args → O (List ℤ)
unfolding pure ◌>>=◌
eval_args ev no_args = pure []
eval_args ev (arg e args) = ev e >>= λ v. eval_args ev args >>= λ vs. pure (v ∷ vs)

-- The body of `eval_expr`, behind the tick.
unfoldable pub eval_node : Eval → CallFn → Expr → O ℤ
unfolding pure ◌>>=◌ eval_args eval_binary eval_unary read_scalar read_array checked_array_index
eval_node ev fn (int_literal value) = pure value
eval_node ev fn (bool_literal value) = pure (bool_value value)
eval_node ev fn (identifier name) = read_scalar name
eval_node ev fn (binary BinaryOp.and l r) = ev l >>= λ left.
    if left ==ℤ pos 0
    then pure (pos 0)
    else (ev r >>= λ right. pure (bool_value (not (right ==ℤ pos 0))))
eval_node ev fn (binary BinaryOp.or l r) = ev l >>= λ left.
    if not (left ==ℤ pos 0)
    then pure (pos 1)
    else (ev r >>= λ right. pure (bool_value (not (right ==ℤ pos 0))))
eval_node ev fn (binary op l r) = ev l >>= λ left. ev r >>= λ right. eval_binary op left right
eval_node ev fn (unary op operand) = ev operand >>= λ v. eval_unary op v
eval_node ev fn (call name args) = eval_args ev args >>= λ values. fn name values
eval_node ev fn (array_index name index) =
    ev index >>= λ raw. checked_array_index raw >>= λ i. read_array name i

unfoldable pub exec_block : Exec → Block → O Control
unfolding pure ◌>>=◌
exec_block ex end = pure continue
exec_block ex (stmt s stmts) = ex s >>= λ control. elim control [
  | continue ↦ exec_block ex stmts
  | returned v ↦ pure (returned v)
]

unfoldable pub exec_else : Exec → Else → O Control
unfolding pure exec_block
exec_else ex no_else = pure continue
exec_else ex (else_body body) = exec_block ex body

-- A slot without a value, where the name has none.
unfoldable pub ensure_slot : String → O (Unit {0})
unfolding lookup_slot insert_slot
ensure_slot name o = elim (lookup_slot name o) [
  | none ↦ insert_slot name (scalar none) o
  | some slot ↦ ok tt o
]

unfoldable pub exec_decl : Eval → String → Option Expr → Option ℤ → O Control
unfolding pure ◌>>=◌ ◌>>◌ or_panic zeros declare_or_update ensure_slot assign_scalar
exec_decl ev name init (some size) =
    or_panic (zeros size) >>= λ values. declare_or_update name (array values) >> pure continue
exec_decl ev name (some e) none =
    ensure_slot name >> (ev e >>= λ v. assign_scalar name v >> pure continue)
exec_decl ev name none none = ensure_slot name >> pure continue

unfoldable pub exec_assign : Eval → String → Option Expr → Expr → O Control
unfolding pure ◌>>=◌ ◌>>◌ checked_array_index assign_array assign_scalar
exec_assign ev target (some index) value = ev index >>= λ raw.
    checked_array_index raw >>= λ i. ev value >>= λ v. assign_array target i v >> pure continue
exec_assign ev target none value = ev value >>= λ v. assign_scalar target v >> pure continue

unfoldable pub push_output : ℤ → O (Unit {0})
push_output v o = ok tt (record o { output = o.output ++ v ∷ [] })

-- The body of `exec_stmt`, behind the tick; a loop is left to the last argument but one.
unfoldable pub exec_node : Eval → Exec → (Expr → Block → O Control) → Stmt → O Control
unfolding pure ◌>>=◌ ◌>>◌ exec_block exec_else exec_decl exec_assign push_output
exec_node ev ex loop (var_decl t name init size) = exec_decl ev name init size
exec_node ev ex loop (assign target index value) = exec_assign ev target index value
exec_node ev ex loop (if_stmt condition then_body else_part) = ev condition >>= λ v.
    if not (v ==ℤ pos 0) then exec_block ex then_body else exec_else ex else_part
exec_node ev ex loop (while_stmt condition body) = loop condition body
exec_node ev ex loop (return_stmt value) = ev value >>= λ v. pure (returned v)
exec_node ev ex loop (print_stmt value) = ev value >>= λ v. push_output v >> pure continue
exec_node ev ex loop (expr_stmt e) = ev e >>= λ _. pure continue
