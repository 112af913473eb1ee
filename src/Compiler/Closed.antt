-- ===== src/Compiler/Closed.antt =====
-- src/compiler.rs: what holds of the compiler across `compile_expr` and `compile_stmt` when `emit`,
-- `patch` and the declaration of a local keep it.
use minilang_rs.Prelude.{
  ℕ, ◌≡◌, refl, List, [], ◌∷◌, Option, none, some, String, Bool-cases, inl, inr,
}
use minilang_rs.Prelude.Int.{ℤ, pos}
use minilang_rs.Prelude.Names.{find}
use minilang_rs.Bytecode.{Opcode, GlobalInfo}
use minilang_rs.Ast.{
  BinaryOp, Expr, int_literal, bool_literal, identifier, binary, unary, call, array_index, Args,
  no_args, arg, Stmt, var_decl, assign, if_stmt, while_stmt, return_stmt, print_stmt, expr_stmt,
  Block, end, stmt, Else, no_else, else_body, GlobalVar,
}
use minilang_rs.Compiler.{LocalVar, Compiler, as_i32, current_pc, emit, emit_simple, patch, bind}
use minilang_rs.Compiler.Expression.{
  binary_opcode, unary_opcode, count_args, compile_name, compile_element, close_short, compile_expr,
  compile_args,
}
use minilang_rs.Compiler.Statement.{
  declare_local, initialize_local, compile_store, compile_assign, compile_stmt, compile_block,
  compile_else,
}
use minilang_rs.Compiler.Program.{compile_initializers}

-- `Q` holds of the compiler that a step gives, where it does not panic.
abbrev pub Gives : (Compiler → Type 0) → Option Compiler → Type 0
Gives Q none = Unit
Gives Q (some c) = Q c

pub Gives-bind :
    (Q R : Compiler → Type 0) (o : Option Compiler) (f : Compiler → Option Compiler)
    → Gives Q o
    → ((c : Compiler) → Q c → Gives R (f c))
    → Gives R (bind o f)
unfolding bind
Gives-bind Q R none f h k = tt
Gives-bind Q R (some c) f h k = k c h

pub record IsClosed (Q : Compiler → Type 0) : Type 0 where
  pub by_emit : (o : Opcode) (a b : ℤ) (c : Compiler) → Q c → Q (emit o a b c)
  pub by_patch : (pc : ℕ) (a : ℤ) (c : Compiler) → Q c → Q (patch pc a c)
  pub by_declare :
      (name : String) (size : Option ℤ) (c : Compiler) → Q c → Q (declare_local name size c)

module _ (Q : Compiler → Type 0) (closed : IsClosed Q) where
  by_name : (name : String) (c : Compiler) → Q c → Q (compile_name name c)
  unfolding compile_name
  by_name name c h = go (find name c.current_locals) (find name c.globals) refl refl
    where
      go :
          (l : Option LocalVar) (g : Option GlobalInfo)
          → find name c.current_locals ≡ l
          → find name c.globals ≡ g
          → Q (compile_name name c)
      go (some local) g e₁ e₂ = rw (e₁, compile_name) (closed.by_emit _ _ _ c h)
      go none (some global) e₁ e₂ = rw (e₁, e₂, compile_name) (closed.by_emit _ _ _ c h)
      go none none e₁ e₂ = rw (e₁, e₂, compile_name) h

  by_element : (name : String) (c : Compiler) → Q c → Q (compile_element name c)
  unfolding compile_element
  by_element name c h = go (find name c.current_locals) (find name c.globals) refl refl
    where
      go :
          (l : Option LocalVar) (g : Option GlobalInfo)
          → find name c.current_locals ≡ l
          → find name c.globals ≡ g
          → Q (compile_element name c)
      go (some local) g e₁ e₂ = rw (e₁, compile_element) (closed.by_emit _ _ _ c h)
      go none (some global) e₁ e₂ = rw (e₁, e₂, compile_element) (closed.by_emit _ _ _ c h)
      go none none e₁ e₂ = rw (e₁, e₂, compile_element) h

  by_close : (jump_short : ℕ) (value : ℤ) (c : Compiler) → Q c → Q (close_short jump_short value c)
  unfolding close_short emit_simple
  by_close jump_short value c h = closed.by_patch _ _ _ (
      closed.by_emit _ _ _ _ (
        closed.by_patch _ _ _ (
          closed.by_emit _ _ _ _
            (closed.by_emit _ _ _ _ (closed.by_emit Opcode.load_const (pos 0) (pos 0) c h)))))

  by_call :
      (n : ℕ) (c : Compiler) (id : Option ℕ)
      → Q c
      → Gives Q (elim id [
        | some func_id ↦ some (emit Opcode.call (as_i32 func_id) (as_i32 n) c)
        | none ↦ none
      ])
  by_call n c none h = tt
  by_call n c (some func_id) h = closed.by_emit _ _ _ c h

  seq :
      (o : Option Compiler) (f : Compiler → Option Compiler)
      → Gives Q o
      → ((c : Compiler) → Q c → Gives Q (f c))
      → Gives Q (bind o f)
  seq o f h k = Gives-bind Q Q o f h k

  mutual
    unfolding compile_expr emit_simple

    pub by_expr : (e : Expr) (c : Compiler) → Q c → Gives Q (compile_expr e c)
    by_expr (int_literal value) c h = closed.by_emit _ _ _ c h
    by_expr (bool_literal value) c h = closed.by_emit _ _ _ c h
    by_expr (identifier name) c h = by_name name c h
    by_expr (binary BinaryOp.and l r) c h = seq (compile_expr l c) _ (by_expr l c h) λ c₁ h₁.
        seq (compile_expr r (emit Opcode.jump_if_false (pos 0) (pos 0) c₁)) _
          (by_expr r _ (closed.by_emit _ _ _ c₁ h₁)) λ c₂ h₂. by_close (current_pc c₁) (pos 0) c₂ h₂
    by_expr (binary BinaryOp.or l r) c h = seq (compile_expr l c) _ (by_expr l c h) λ c₁ h₁.
        seq (compile_expr r (emit Opcode.jump_if_true (pos 0) (pos 0) c₁)) _
          (by_expr r _ (closed.by_emit _ _ _ c₁ h₁)) λ c₂ h₂. by_close (current_pc c₁) (pos 1) c₂ h₂
    by_expr (binary op l r) c h = seq (compile_expr l c) _ (by_expr l c h) λ c₁ h₁.
        seq (compile_expr r c₁) _ (by_expr r c₁ h₁)
          λ c₂ h₂. closed.by_emit (binary_opcode op) (pos 0) (pos 0) c₂ h₂
    by_expr (unary op operand) c h =
        seq (compile_expr operand c) _ (by_expr operand c h)
          λ c₁ h₁. closed.by_emit (unary_opcode op) (pos 0) (pos 0) c₁ h₁
    by_expr (call name args) c h =
        seq (compile_args args c) _ (by_args args c h)
          λ c₁ h₁. by_call (count_args args) c₁ (find name c₁.func_name_to_id) h₁
    by_expr (array_index name index) c h =
        seq (compile_expr index c) _ (by_expr index c h) λ c₁ h₁. by_element name c₁ h₁

    by_args : (args : Args) (c : Compiler) → Q c → Gives Q (compile_args args c)
    by_args no_args c h = h
    by_args (arg e args) c h = seq (compile_expr e c) _ (by_expr e c h) λ c₁ h₁. by_args args c₁ h₁

  by_emitted :
      (e : Expr) (o : Opcode) (a b : ℤ) (c : Compiler)
      → Q c
      → Gives Q (bind (compile_expr e c) λ c₁. some (emit o a b c₁))
  by_emitted e o a b c h =
      seq (compile_expr e c) _ (by_expr e c h) λ c₁ h₁. closed.by_emit o a b c₁ h₁

  by_initialize :
      (local : Option LocalVar) (init : Option Expr) (c : Compiler)
      → Q c
      → Gives Q (initialize_local local init c)
  unfolding initialize_local
  by_initialize none init c h = tt
  by_initialize (some local) init c h = elim (Bool-cases local.is_array) [
    | inl e ↦ rw (e, initialize_local) (closed.by_emit _ _ _ _ (closed.by_emit _ _ _ c h))
    | inr e ↦ rw (e, initialize_local) (scalar init)
  ]
    where
      scalar :
          (init : Option Expr)
          → Gives Q (elim init [
            | none ↦ some c
            | some e ↦
                bind
                  (compile_expr e c)
                  λ c₁. some (emit Opcode.store_local (as_i32 local.slot) (pos 0) c₁)
          ])
      scalar none = h
      scalar (some e) = by_emitted e Opcode.store_local (as_i32 local.slot) (pos 0) c h

  by_store :
      (o o' : Opcode) (slot size : ℤ) (index : Option Expr) (value : Expr) (c : Compiler)
      → Q c
      → Gives Q (compile_store o o' slot size index value c)
  unfolding compile_store
  by_store o o' slot size (some index) value c h =
      seq (compile_expr index c) _ (by_expr index c h) λ c₁ h₁. by_emitted value o slot size c₁ h₁
  by_store o o' slot size none value c h = by_emitted value o' slot (pos 0) c h

  by_assign :
      (target : String) (index : Option Expr) (value : Expr) (c : Compiler)
      → Q c
      → Gives Q (compile_assign target index value c)
  unfolding compile_assign
  by_assign target index value c h =
      go (find target c.current_locals) (find target c.globals) refl refl
    where
      go :
          (l : Option LocalVar) (g : Option GlobalInfo)
          → find target c.current_locals ≡ l
          → find target c.globals ≡ g
          → Gives Q (compile_assign target index value c)
      go (some local) g e₁ e₂ = rw (e₁, compile_assign) (by_store _ _ _ _ index value c h)
      go none (some global) e₁ e₂ = rw (e₁, e₂, compile_assign) (by_store _ _ _ _ index value c h)
      go none none e₁ e₂ = rw (e₁, e₂, compile_assign) h

  mutual
    unfolding compile_stmt emit_simple

    pub by_stmt : (s : Stmt) (c : Compiler) → Q c → Gives Q (compile_stmt s c)
    by_stmt (var_decl t name init size) c h =
        by_initialize (find name (declare_local name size c).current_locals) init
          (declare_local name size c) (closed.by_declare name size c h)
    by_stmt (assign target index value) c h = by_assign target index value c h
    by_stmt (if_stmt condition then_body else_part) c h =
        seq (compile_expr condition c) _ (by_expr condition c h) λ c₁ h₁.
          seq (compile_block then_body (emit Opcode.jump_if_false (pos 0) (pos 0) c₁)) _
            (by_block then_body _ (closed.by_emit _ _ _ c₁ h₁))
            λ c₂ h₂. by_else else_part (current_pc c₁) c₂ h₂
    by_stmt (while_stmt condition body) c h =
        seq (compile_expr condition c) _ (by_expr condition c h) λ c₁ h₁.
          seq (compile_block body (emit Opcode.jump_if_false (pos 0) (pos 0) c₁)) _
            (by_block body _ (closed.by_emit _ _ _ c₁ h₁))
            λ c₂ h₂. closed.by_patch _ _ _ (closed.by_emit _ _ _ c₂ h₂)
    by_stmt (return_stmt value) c h = by_emitted value Opcode.return (pos 0) (pos 0) c h
    by_stmt (print_stmt value) c h = by_emitted value Opcode.print (pos 0) (pos 0) c h
    by_stmt (expr_stmt e) c h = by_emitted e Opcode.pop (pos 0) (pos 0) c h

    pub by_block : (b : Block) (c : Compiler) → Q c → Gives Q (compile_block b c)
    by_block end c h = h
    by_block (stmt s stmts) c h =
        seq (compile_stmt s c) _ (by_stmt s c h) λ c₁ h₁. by_block stmts c₁ h₁

    by_else :
        (e : Else) (jump_to_else : ℕ) (c : Compiler) → Q c → Gives Q (compile_else e jump_to_else c)
    by_else no_else jump_to_else c h = closed.by_patch _ _ c h
    by_else (else_body body) jump_to_else c h =
        seq (compile_block body (patch jump_to_else _ (emit Opcode.jump (pos 0) (pos 0) c))) _
          (by_block body _ (closed.by_patch _ _ _ (closed.by_emit _ _ _ c h)))
          λ c₂ h₂. closed.by_patch _ _ c₂ h₂

  pub by_initializers :
      (globals : List GlobalVar) (c : Compiler) → Q c → Gives Q (compile_initializers globals c)
  unfolding compile_initializers
  by_initializers [] c h = h
  by_initializers (glob ∷ globals) c h =
      go (λ c' h'. by_initializers globals c' h') glob.init_expr refl
    where
      stored :
          ((c' : Compiler) → Q c' → Gives Q (compile_initializers globals c'))
          → (c₁ : Compiler) → Q c₁
          → (info : Option GlobalInfo)
          → Gives Q (elim info [
            | none ↦ none
            | some info ↦
                compile_initializers globals
                  (emit Opcode.store_global (as_i32 info.slot) (pos 0) c₁)
          ])
      stored rest c₁ h₁ none = tt
      stored rest c₁ h₁ (some info) = rest _ (closed.by_emit _ _ _ c₁ h₁)

      go :
          ((c' : Compiler) → Q c' → Gives Q (compile_initializers globals c'))
          → (init : Option Expr) → glob.init_expr ≡ init
          → Gives Q (compile_initializers (glob ∷ globals) c)
      go rest none e = rw (e, compile_initializers) (rest c h)
      go rest (some init) e =
          rw (e, compile_initializers)
            (seq (compile_expr init c) _ (by_expr init c h)
              λ c₁ h₁. stored rest c₁ h₁ (find glob.name c₁.globals))
