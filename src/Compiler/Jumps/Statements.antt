-- ===== src/Compiler/Jumps/Statements.antt =====
-- src/compiler.rs: the jumps of statements.
use minilang_rs.Prelude.{
  ℕ, ◌≤◌, ◌≡◌, refl, false, List, [], ◌∷◌, Option, none, some, arith, length, String, Bool-cases,
  inl, inr,
}
use mathlib.Core.Path.{subst}
use minilang_rs.Prelude.Int.{ℤ, pos}
use minilang_rs.Prelude.Names.{find, has_key}
use minilang_rs.Bytecode.{Opcode, Instruction, GlobalInfo}
use minilang_rs.Ast.{
  Expr, Stmt, var_decl, assign, if_stmt, while_stmt, return_stmt, print_stmt, expr_stmt, Block, end,
  stmt, Else, no_else, else_body,
}
use minilang_rs.Compiler.{LocalVar, Compiler, as_i32, current_pc, emit, emit_simple, patch, bind}
use minilang_rs.Compiler.Expression.{compile_expr}
use minilang_rs.Compiler.Statement.{
  declare_local, initialize_local, compile_store, compile_assign, compile_stmt, compile_block,
  compile_else,
}
use minilang_rs.Compiler.Jumps.{
  is_jump, no_jump, jumps_to, Emits, Emits-refl, Emits-hole, Emits-emit, Emits-patch, Emits-swap,
}
use minilang_rs.Compiler.Closed.{Gives-bind}
use minilang_rs.Compiler.Jumps.Expressions.{
  Extends, Compiles, Compiles-behind, emitted, both, compile_expr-Compiles,
}

pub declare_local_code :
    (name : String) (size : Option ℤ) (c : Compiler)
    → (declare_local name size c).instructions ≡ c.instructions
unfolding declare_local
declare_local_code name size c = elim (Bool-cases (has_key name c.current_locals)) [
  | inl e ↦ rw (e, declare_local) refl
  | inr e ↦ rw (e, declare_local) refl
]

initialize_local-Compiles :
    (local : Option LocalVar) (init : Option Expr) (c : Compiler)
    → Compiles c.instructions (initialize_local local init c)
unfolding initialize_local emit
initialize_local-Compiles none init c = tt
initialize_local-Compiles (some local) init c = elim (Bool-cases local.is_array) [
  | inl e ↦
      rw (e, initialize_local)
        (Emits-emit _ _ _ (Emits-emit _ _ _ Emits-refl (no_jump refl)) (no_jump refl))
  | inr e ↦ rw (e, initialize_local) (scalar init)
]
  where
    scalar :
        (init : Option Expr)
        → Compiles c.instructions (elim init [
          | none ↦ some c
          | some e ↦
              bind
                (compile_expr e c)
                λ c₁. some (emit Opcode.store_local (as_i32 local.slot) (pos 0) c₁)
        ])
    scalar none = Emits-refl
    scalar (some e) =
        emitted c.instructions (compile_expr e c) _ _ _ refl (compile_expr-Compiles e c)

compile_store-Compiles :
    (o o' : Opcode) (slot size : ℤ) (index : Option Expr) (value : Expr) (c : Compiler)
    → is_jump o ≡ false
    → is_jump o' ≡ false
    → Compiles c.instructions (compile_store o o' slot size index value c)
unfolding compile_store
compile_store-Compiles o o' slot size (some index) value c e e' =
    both c.instructions (compile_expr index c) _ (compile_expr-Compiles index c) λ c₁.
      emitted c₁.instructions (compile_expr value c₁) o slot size e (compile_expr-Compiles value c₁)
compile_store-Compiles o o' slot size none value c e e' =
    emitted c.instructions (compile_expr value c) o' slot (pos 0) e' (compile_expr-Compiles value c)

compile_assign-Compiles :
    (target : String) (index : Option Expr) (value : Expr) (c : Compiler)
    → Compiles c.instructions (compile_assign target index value c)
unfolding compile_assign
compile_assign-Compiles target index value c =
    go (find target c.current_locals) (find target c.globals) refl refl
  where
    go :
        (l : Option LocalVar) (g : Option GlobalInfo)
        → find target c.current_locals ≡ l
        → find target c.globals ≡ g
        → Compiles c.instructions (compile_assign target index value c)
    go (some local) g e₁ e₂ =
        rw (e₁, compile_assign) (compile_store-Compiles _ _ _ _ index value c refl refl)
    go none (some global) e₁ e₂ =
        rw (e₁, e₂, compile_assign) (compile_store-Compiles _ _ _ _ index value c refl refl)
    go none none e₁ e₂ = rw (e₁, e₂, compile_assign) Emits-refl

mutual
  unfolding compile_stmt emit emit_simple patch current_pc

  -- The code of a statement goes behind the code that there is, and its jumps stay in it.
  pub compile_stmt-Compiles : (s : Stmt) (c : Compiler) → Compiles c.instructions (compile_stmt s c)
  compile_stmt-Compiles (var_decl t name init size) c =
      subst
        (λ code. Compiles code (
          initialize_local (find name (declare_local name size c).current_locals) init
            (declare_local name size c)))
        (declare_local_code name size c)
        (initialize_local-Compiles (find name (declare_local name size c).current_locals) init
          (declare_local name size c))
  compile_stmt-Compiles (assign target index value) c = compile_assign-Compiles target index value c
  compile_stmt-Compiles (if_stmt condition then_body else_part) c =
      Gives-bind (Extends c.instructions) (Extends c.instructions) (compile_expr condition c) _
        (compile_expr-Compiles condition c)
        λ c₁ f₁.
          Gives-bind (λ c₂. Emits (length c₁.instructions ∷ []) c.instructions c₂.instructions)
            (Extends c.instructions)
            (compile_block then_body (emit Opcode.jump_if_false (pos 0) (pos 0) c₁)) _
            (Compiles-behind _ c.instructions (emit Opcode.jump_if_false (pos 0) (pos 0) c₁) _
              (Emits-hole Opcode.jump_if_false (pos 0) (pos 0) f₁)
              (compile_block-Compiles then_body (emit Opcode.jump_if_false (pos 0) (pos 0) c₁)))
            λ c₂ f₂.
              compile_else-Compiles else_part c.instructions (length c₁.instructions) c₂ f₁.longer
                f₂
  compile_stmt-Compiles (while_stmt condition body) c =
      Gives-bind (Extends c.instructions) (Extends c.instructions) (compile_expr condition c) _
        (compile_expr-Compiles condition c)
        λ c₁ f₁.
          Gives-bind (λ c₂. Emits (length c₁.instructions ∷ []) c.instructions c₂.instructions)
            (Extends c.instructions)
            (compile_block body (emit Opcode.jump_if_false (pos 0) (pos 0) c₁)) _
            (Compiles-behind _ c.instructions (emit Opcode.jump_if_false (pos 0) (pos 0) c₁) _
              (Emits-hole Opcode.jump_if_false (pos 0) (pos 0) f₁)
              (compile_block-Compiles body (emit Opcode.jump_if_false (pos 0) (pos 0) c₁)))
            λ c₂ f₂.
              let looped =
                Emits-emit Opcode.jump (as_i32 (length c.instructions)) (pos 0) f₂
                  (jumps_to (length c.instructions) refl (omega arith) f₂.longer) in
              Emits-patch (length c₁.instructions) _ looped f₁.longer looped.longer (omega arith)
  compile_stmt-Compiles (return_stmt value) c =
      emitted c.instructions (compile_expr value c) Opcode.return (pos 0) (pos 0) refl
        (compile_expr-Compiles value c)
  compile_stmt-Compiles (print_stmt value) c =
      emitted c.instructions (compile_expr value c) Opcode.print (pos 0) (pos 0) refl
        (compile_expr-Compiles value c)
  compile_stmt-Compiles (expr_stmt e) c =
      emitted c.instructions (compile_expr e c) Opcode.pop (pos 0) (pos 0) refl
        (compile_expr-Compiles e c)

  pub compile_block-Compiles :
      (b : Block) (c : Compiler) → Compiles c.instructions (compile_block b c)
  compile_block-Compiles end c = Emits-refl
  compile_block-Compiles (stmt s stmts) c =
      both c.instructions (compile_stmt s c) _ (compile_stmt-Compiles s c)
        λ c₁. compile_block-Compiles stmts c₁

  compile_else-Compiles :
      (e : Else) (code : List Instruction) (jump_to_else : ℕ) (c : Compiler)
      → length code ≤ jump_to_else
      → Emits (jump_to_else ∷ []) code c.instructions
      → Compiles code (compile_else e jump_to_else c)
  compile_else-Compiles no_else code jump_to_else c behind f =
      Emits-patch jump_to_else _ f behind f.longer (omega arith)
  compile_else-Compiles (else_body body) code jump_to_else c behind f =
      let jumping = Emits-swap (Emits-hole Opcode.jump (pos 0) (pos 0) f) in
      let patched = Emits-patch jump_to_else _ jumping behind jumping.longer (omega arith) in
      Gives-bind (λ c₂. Emits (length c.instructions ∷ []) code c₂.instructions) (Extends code)
        (compile_block body (patch jump_to_else _ (emit Opcode.jump (pos 0) (pos 0) c))) _
        (Compiles-behind _ code (patch jump_to_else _ (emit Opcode.jump (pos 0) (pos 0) c)) _
          patched
          (compile_block-Compiles body (patch jump_to_else _ (emit Opcode.jump (pos 0) (pos 0) c))))
        λ c₂ f₂. Emits-patch (length c.instructions) _ f₂ f.longer f₂.longer (omega arith)
