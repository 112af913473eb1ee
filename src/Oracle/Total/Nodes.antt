-- ===== src/Oracle/Total/Nodes.antt =====
-- src/oracle.rs: expressions, statements and calls end where their parts do.
use minilang_rs.Prelude.{
  ℕ, suc, ◌≢◌, arith, Bool-cases, inl, inr, List, [], ◌∷◌, Option, none, some, String, length, not,
  ◌==◌, leb,
}
use minilang_rs.Prelude.Int.{ℤ, pos, ◌==ℤ◌}
use minilang_rs.Prelude.Names.{find}
use minilang_rs.Word.{IsI32}
use minilang_rs.Vm.State.{invalid_instruction, undefined_function}
use minilang_rs.Limits.{max_frames}
use minilang_rs.Ast.{
  BinaryOp, Expr, int_literal, bool_literal, identifier, binary, unary, call, array_index, Args,
  no_args, arg, Stmt, var_decl, assign, if_stmt, while_stmt, return_stmt, print_stmt, expr_stmt,
  Block, end, stmt, Else, no_else, else_body, Function, GlobalVar, Program,
}
use minilang_rs.Oracle.{
  O, ◌>>=◌, ◌>>◌, pure, trap, Control, continue, returned, eval_binary, assign_global_scalar, zeros,
}
use minilang_rs.Oracle.Nodes.{
  Eval, CallFn, Exec, eval_args, eval_node, exec_block, exec_else, exec_decl, exec_assign,
  exec_node,
}
use minilang_rs.Oracle.Run.{function_table, run_body, call_node, initialize_globals}
use minilang_rs.Oracle.Fits.{
  AllOf, IfAny, ControlFits, IsSize, ExprFits, ArgsFit, StmtFits, BlockFits, ElseFits, GlobalFits,
  FunctionFits,
}
use minilang_rs.Oracle.Fits.Keeps.{find_Fits, function_table_Fits, root_scope_Fits}
use minilang_rs.Oracle.Total.{
  Ended, Ends, Any, pure-Ends, fail-Ends, or_panic-Ends, if-Leads, bind-Leads, then-Leads,
}
use minilang_rs.Oracle.Total.Values.{
  normalized-Ends, bool_value-Ends, eval_unary-Ends, eval_binary-Ends, checked_array_index-Ends,
  zeros-Fits, zeros_all,
}
use minilang_rs.Oracle.Total.Operations.{
  read_scalar-Ends, read_array-Ends, declare_or_update-Ends, ensure_slot-Ends, assign_scalar-Ends,
  assign_array-Ends, assign_global_scalar-Ends, push_output-Ends, open_frame-Leads,
  close_frame-Leads,
}

module _ {k d : ℕ} (ev : Eval) (ev-Ends : (e : Expr) → ExprFits e → Ends IsI32 k d (ev e)) where
  eval_args-Ends : (args : Args) → ArgsFit args → Ends Any k d (eval_args ev args)
  unfolding eval_args
  eval_args-Ends no_args h = pure-Ends [] tt
  eval_args-Ends (arg e args) (he, h) =
      bind-Leads (ev-Ends e he) (λ v _. bind-Leads (eval_args-Ends args h) (λ vs _. pure-Ends _ tt))

  strict_Ends :
      (op : BinaryOp) (l r : Expr)
      → op ≢ BinaryOp.and
      → op ≢ BinaryOp.or
      → ExprFits l
      → ExprFits r
      → Ends IsI32 k d (ev l >>= λ left. ev r >>= λ right. eval_binary op left right)
  strict_Ends op l r na nor hl hr =
      bind-Leads (ev-Ends l hl)
        (λ left h. bind-Leads (ev-Ends r hr) (λ right _. eval_binary-Ends op left right na nor h))

  pub eval_node-Ends :
      (fn : CallFn)
      → ((name : String) (args : List ℤ) → Ends IsI32 k d (fn name args))
      → (e : Expr) → ExprFits e
      → Ends IsI32 k d (eval_node ev fn e)
  unfolding eval_node
  eval_node-Ends fn h (int_literal value) he = pure-Ends _ he
  eval_node-Ends fn h (bool_literal value) he = bool_value-Ends value
  eval_node-Ends fn h (identifier name) he = read_scalar-Ends name
  eval_node-Ends fn h (binary BinaryOp.and l r) (hl, hr) = bind-Leads (ev-Ends l hl) (λ left _.
      if-Leads (left ==ℤ pos 0) (λ _. pure-Ends (pos 0) (ground arith))
        (λ _. bind-Leads (ev-Ends r hr) (λ right _. bool_value-Ends _)))
  eval_node-Ends fn h (binary BinaryOp.or l r) (hl, hr) = bind-Leads (ev-Ends l hl) (λ left _.
      if-Leads (not (left ==ℤ pos 0)) (λ _. pure-Ends (pos 1) (ground arith))
        (λ _. bind-Leads (ev-Ends r hr) (λ right _. bool_value-Ends _)))
  eval_node-Ends fn h (binary BinaryOp.add l r) (hl, hr) =
      strict_Ends BinaryOp.add l r (λ e. ground arith) (λ e. ground arith) hl hr
  eval_node-Ends fn h (binary BinaryOp.sub l r) (hl, hr) =
      strict_Ends BinaryOp.sub l r (λ e. ground arith) (λ e. ground arith) hl hr
  eval_node-Ends fn h (binary BinaryOp.mul l r) (hl, hr) =
      strict_Ends BinaryOp.mul l r (λ e. ground arith) (λ e. ground arith) hl hr
  eval_node-Ends fn h (binary BinaryOp.div l r) (hl, hr) =
      strict_Ends BinaryOp.div l r (λ e. ground arith) (λ e. ground arith) hl hr
  eval_node-Ends fn h (binary BinaryOp.eq l r) (hl, hr) =
      strict_Ends BinaryOp.eq l r (λ e. ground arith) (λ e. ground arith) hl hr
  eval_node-Ends fn h (binary BinaryOp.ne l r) (hl, hr) =
      strict_Ends BinaryOp.ne l r (λ e. ground arith) (λ e. ground arith) hl hr
  eval_node-Ends fn h (binary BinaryOp.lt l r) (hl, hr) =
      strict_Ends BinaryOp.lt l r (λ e. ground arith) (λ e. ground arith) hl hr
  eval_node-Ends fn h (binary BinaryOp.gt l r) (hl, hr) =
      strict_Ends BinaryOp.gt l r (λ e. ground arith) (λ e. ground arith) hl hr
  eval_node-Ends fn h (binary BinaryOp.le l r) (hl, hr) =
      strict_Ends BinaryOp.le l r (λ e. ground arith) (λ e. ground arith) hl hr
  eval_node-Ends fn h (binary BinaryOp.ge l r) (hl, hr) =
      strict_Ends BinaryOp.ge l r (λ e. ground arith) (λ e. ground arith) hl hr
  eval_node-Ends fn h (unary op operand) he = bind-Leads (ev-Ends operand he) (eval_unary-Ends op)
  eval_node-Ends fn h (call name args) he =
      bind-Leads (eval_args-Ends args he) (λ values _. h name values)
  eval_node-Ends fn h (array_index name index) he =
      bind-Leads (ev-Ends index he)
        (λ raw _. bind-Leads (checked_array_index-Ends raw) (λ i _. read_array-Ends name i))

  exec_decl-Ends :
      (name : String) (init : Option Expr) (size : Option ℤ)
      → IfAny ExprFits init
      → IfAny IsSize size
      → Ends ControlFits k d (exec_decl ev name init size)
  unfolding exec_decl
  exec_decl-Ends name init (some size) hi hs =
      bind-Leads (or_panic-Ends (zeros size) (zeros-Fits size hs) (zeros_all size))
        (λ values h. then-Leads (declare_or_update-Ends name _ h) (pure-Ends continue tt))
  exec_decl-Ends name (some e) none hi hs = then-Leads (ensure_slot-Ends name) (
      bind-Leads (ev-Ends e hi)
        (λ v _. then-Leads (assign_scalar-Ends name v) (pure-Ends continue tt)))
  exec_decl-Ends name none none hi hs = then-Leads (ensure_slot-Ends name) (pure-Ends continue tt)

  exec_assign-Ends :
      (target : String) (index : Option Expr) (value : Expr)
      → IfAny ExprFits index
      → ExprFits value
      → Ends ControlFits k d (exec_assign ev target index value)
  unfolding exec_assign
  exec_assign-Ends target (some index) value hi hv = bind-Leads (ev-Ends index hi) (λ raw _.
      bind-Leads (checked_array_index-Ends raw) (λ i _.
        bind-Leads (ev-Ends value hv)
          (λ v _. then-Leads (assign_array-Ends target i v) (pure-Ends continue tt))))
  exec_assign-Ends target none value hi hv =
      bind-Leads (ev-Ends value hv)
        (λ v _. then-Leads (assign_scalar-Ends target v) (pure-Ends continue tt))

  pub initialize_globals-Ends :
      (globals : List GlobalVar)
      → AllOf GlobalFits globals
      → Ends Any k d (initialize_globals ev globals)
  unfolding initialize_globals
  initialize_globals-Ends [] h = pure-Ends tt tt
  initialize_globals-Ends (g ∷ globals) ((hi, _), h) =
      go (initialize_globals-Ends globals h) g.init_expr hi
    where
      go :
          Ends Any k d (initialize_globals ev globals)
          → (init : Option Expr) → IfAny ExprFits init
          → Ends Any k d (elim init [
            | none ↦ initialize_globals ev globals
            | some e ↦ ev e >>= λ v. assign_global_scalar g.name v >> initialize_globals ev globals
          ])
      go rest none hi = rest
      go rest (some e) hi =
          bind-Leads (ev-Ends e hi) (λ v _. then-Leads (assign_global_scalar-Ends g.name v) rest)

module _ {k d : ℕ} (ex : Exec)
    (ex-Ends : (s : Stmt) → StmtFits s → Ends ControlFits k d (ex s)) where
  pub exec_block-Ends : (b : Block) → BlockFits b → Ends ControlFits k d (exec_block ex b)
  unfolding exec_block
  exec_block-Ends end h = pure-Ends continue tt
  exec_block-Ends (stmt s stmts) (hs, h) = bind-Leads (ex-Ends s hs) (go (exec_block-Ends stmts h))
    where
      go :
          Ends ControlFits k d (exec_block ex stmts)
          → (control : Control) → ControlFits control
          → Ends ControlFits k d
              (elim control [ continue ↦ exec_block ex stmts | returned v ↦ pure (returned v) ])
      go rest continue hc = rest
      go rest (returned v) hc = pure-Ends (returned v) hc

  exec_else-Ends : (e : Else) → ElseFits e → Ends ControlFits k d (exec_else ex e)
  unfolding exec_else
  exec_else-Ends no_else h = pure-Ends continue tt
  exec_else-Ends (else_body body) h = exec_block-Ends body h

  pub exec_node-Ends :
      (ev : Eval)
      → ((e : Expr) → ExprFits e → Ends IsI32 k d (ev e))
      → (loop : Expr → Block → O Control)
      → ((e : Expr) (b : Block) → ExprFits e → BlockFits b → Ends ControlFits k d (loop e b))
      → (s : Stmt) → StmtFits s
      → Ends ControlFits k d (exec_node ev ex loop s)
  unfolding exec_node
  exec_node-Ends ev h loop hl (var_decl t name init size) (hi, hs) =
      exec_decl-Ends ev h name init size hi hs
  exec_node-Ends ev h loop hl (assign target index value) (hi, hv) =
      exec_assign-Ends ev h target index value hi hv
  exec_node-Ends ev h loop hl (if_stmt condition then_body else_part) (hc, ht, he) =
      bind-Leads (h condition hc) (λ v _.
        if-Leads (not (v ==ℤ pos 0)) (λ _. exec_block-Ends then_body ht)
          (λ _. exec_else-Ends else_part he))
  exec_node-Ends ev h loop hl (while_stmt condition body) (hc, hb) = hl condition body hc hb
  exec_node-Ends ev h loop hl (return_stmt value) hs =
      bind-Leads (h value hs) (λ v hv. pure-Ends (returned v) hv)
  exec_node-Ends ev h loop hl (print_stmt value) hs =
      bind-Leads (h value hs) (λ v _. then-Leads (push_output-Ends v) (pure-Ends continue tt))
  exec_node-Ends ev h loop hl (expr_stmt e) hs = bind-Leads (h e hs) (λ _ _. pure-Ends continue tt)

module _ {k d : ℕ} (ex : Exec)
    (ex-Ends : (s : Stmt) → StmtFits s → Ends ControlFits k (suc d) (ex s)) where
  run_body-Ends :
      (f : Function) (args : List ℤ) → FunctionFits f → Ends IsI32 k d (run_body ex f args)
  unfolding run_body
  run_body-Ends f args h =
      if-Leads (not (length args == length f.params)) (λ _. fail-Ends invalid_instruction)
        (λ _. then-Leads (open_frame-Leads _ (root_scope_Fits f.params args [] tt)) (
          bind-Leads (exec_block-Ends ex ex-Ends f.body h) (λ control _.
            then-Leads close_frame-Leads
              (normalized-Ends (elim control [ returned v ↦ v | continue ↦ pos 0 ])))))

  pub call_node-Ends :
      (program : Program) (name : String) (args : List ℤ)
      → AllOf FunctionFits program.functions
      → Ends IsI32 k d (call_node program ex name args)
  unfolding call_node
  call_node-Ends program name args h = record {
    ends = λ o l. elim (Bool-cases (leb max_frames (length o.frames))) [
      | inl b ↦ rw b tt
      | inr b ↦ rw b (
          elim (find name (function_table program.functions []))
              as (λ found.
                IfAny FunctionFits found
                → Ended IsI32 k d (elim found [
                  | none ↦ trap undefined_function o
                  | some f ↦ run_body ex f args o
                ])) [ none ↦ λ _. tt | some f ↦ λ hf. (run_body-Ends f args hf).ends o l ]
            (find_Fits FunctionFits name _ (function_table_Fits program.functions [] h tt)))
    ];
  }
