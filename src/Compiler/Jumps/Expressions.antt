-- ===== src/Compiler/Jumps/Expressions.antt =====
-- src/compiler.rs: the jumps of expressions.
use minilang_rs.Prelude.{
  ℕ, ◌≤◌, ◌≡◌, refl, false, List, [], ◌∷◌, Option, none, some, arith, length, String,
}
use minilang_rs.Prelude.Int.{ℤ, pos}
use minilang_rs.Prelude.Names.{find}
use minilang_rs.Bytecode.{Opcode, Instruction, GlobalInfo}
use minilang_rs.Ast.{
  BinaryOp, UnaryOp, Expr, int_literal, bool_literal, identifier, binary, unary, call, array_index,
  Args, no_args, arg,
}
use minilang_rs.Compiler.{LocalVar, Compiler, as_i32, current_pc, emit, emit_simple, patch, bind}
use minilang_rs.Compiler.Expression.{
  binary_opcode, unary_opcode, compile_name, compile_element, close_short, compile_expr,
  compile_args, count_args,
}
use minilang_rs.Compiler.Closed.{Gives, Gives-bind}
use minilang_rs.Compiler.Jumps.{
  is_jump, no_jump, Emits, Emits-refl, Emits-trans, Emits-hole, Emits-emit, Emits-patch, Emits-swap,
}

-- The code of the compiler continues `code`, its jumps inside.
abbrev pub Extends : List Instruction → Compiler → Type 0
Extends code c = Emits [] code c.instructions

abbrev pub Compiles : List Instruction → Option Compiler → Type 0
Compiles code o = Gives (Extends code) o

-- A step behind code that may have holes.
pub Compiles-behind :
    (holes : List ℕ) (code : List Instruction) (c : Compiler) (o : Option Compiler)
    → Emits holes code c.instructions
    → Compiles c.instructions o
    → Gives (λ c'. Emits holes code c'.instructions) o
Compiles-behind holes code c none f h = tt
Compiles-behind holes code c (some c') f h = Emits-trans f h

binary_opcode-plain : (op : BinaryOp) → is_jump (binary_opcode op) ≡ false
unfolding binary_opcode
binary_opcode-plain BinaryOp.add = refl
binary_opcode-plain BinaryOp.sub = refl
binary_opcode-plain BinaryOp.mul = refl
binary_opcode-plain BinaryOp.div = refl
binary_opcode-plain BinaryOp.eq = refl
binary_opcode-plain BinaryOp.ne = refl
binary_opcode-plain BinaryOp.lt = refl
binary_opcode-plain BinaryOp.gt = refl
binary_opcode-plain BinaryOp.le = refl
binary_opcode-plain BinaryOp.ge = refl
binary_opcode-plain BinaryOp.and = refl
binary_opcode-plain BinaryOp.or = refl

unary_opcode-plain : (op : UnaryOp) → is_jump (unary_opcode op) ≡ false
unfolding unary_opcode
unary_opcode-plain UnaryOp.neg = refl
unary_opcode-plain UnaryOp.not = refl

compile_name-Extends : (name : String) (c : Compiler) → Extends c.instructions (compile_name name c)
unfolding compile_name emit
compile_name-Extends name c = go (find name c.current_locals) (find name c.globals) refl refl
  where
    go :
        (l : Option LocalVar) (g : Option GlobalInfo)
        → find name c.current_locals ≡ l
        → find name c.globals ≡ g
        → Extends c.instructions (compile_name name c)
    go (some local) g e₁ e₂ = rw (e₁, compile_name) (Emits-emit _ _ _ Emits-refl (no_jump refl))
    go none (some global) e₁ e₂ =
        rw (e₁, e₂, compile_name) (Emits-emit _ _ _ Emits-refl (no_jump refl))
    go none none e₁ e₂ = rw (e₁, e₂, compile_name) Emits-refl

compile_element-Extends :
    (code : List Instruction) (name : String) (c : Compiler)
    → Extends code c
    → Extends code (compile_element name c)
unfolding compile_element emit
compile_element-Extends code name c h =
    go (find name c.current_locals) (find name c.globals) refl refl
  where
    go :
        (l : Option LocalVar) (g : Option GlobalInfo)
        → find name c.current_locals ≡ l
        → find name c.globals ≡ g
        → Extends code (compile_element name c)
    go (some local) g e₁ e₂ = rw (e₁, compile_element) (Emits-emit _ _ _ h (no_jump refl))
    go none (some global) e₁ e₂ = rw (e₁, e₂, compile_element) (Emits-emit _ _ _ h (no_jump refl))
    go none none e₁ e₂ = rw (e₁, e₂, compile_element) h

close_short-Extends :
    (code : List Instruction) (jump_short : ℕ) (value : ℤ) (c : Compiler)
    → length code ≤ jump_short
    → Emits (jump_short ∷ []) code c.instructions
    → Extends code (close_short jump_short value c)
unfolding close_short emit emit_simple patch current_pc
close_short-Extends code jump_short value c behind f =
    let before =
      Emits-emit Opcode.ne (pos 0) (pos 0)
        (Emits-emit Opcode.load_const (pos 0) (pos 0) f (no_jump refl)) (no_jump refl) in
    let jumping = Emits-swap (Emits-hole Opcode.jump (pos 0) (pos 0) before) in
    let patched = Emits-patch jump_short _ jumping behind jumping.longer (omega arith) in
    let after = Emits-emit Opcode.load_const value (pos 0) patched (no_jump refl) in
    Emits-patch _ _ after before.longer after.longer (omega arith)

-- The two short-circuits: a jump over the right operand.
short-Compiles :
    (code : List Instruction) (jump_opcode : Opcode) (value : ℤ) (left : Option Compiler)
    (right : Compiler → Option Compiler)
    → Compiles code left
    → ((c : Compiler) → Compiles c.instructions (right c))
    → Compiles code (
        bind left λ c₁.
          bind
            (right (emit jump_opcode (pos 0) (pos 0) c₁))
            λ c₂. some (close_short (current_pc c₁) value c₂))
unfolding emit current_pc
short-Compiles code jump_opcode value left right l r = Gives-bind _ _ left _ l λ c₁ f₁.
    Gives-bind _ _ _ _
      (Compiles-behind _ code (emit jump_opcode (pos 0) (pos 0) c₁) _
        (Emits-hole jump_opcode (pos 0) (pos 0) f₁) (r (emit jump_opcode (pos 0) (pos 0) c₁)))
      λ c₂ f₂. close_short-Extends code (length c₁.instructions) value c₂ f₁.longer f₂

-- One instruction behind a step, two steps, and an element behind an index.
pub emitted :
    (code : List Instruction) (o : Option Compiler) (opcode : Opcode) (a b : ℤ)
    → is_jump opcode ≡ false
    → Compiles code o
    → Compiles code (bind o λ c. some (emit opcode a b c))
unfolding emit bind
emitted code none opcode a b e h = tt
emitted code (some c) opcode a b e h = Emits-emit opcode a b h (no_jump e)

pub both :
    (code : List Instruction) (first : Option Compiler) (second : Compiler → Option Compiler)
    → Compiles code first
    → ((c : Compiler) → Compiles c.instructions (second c))
    → Compiles code (bind first second)
unfolding bind
both code none second h k = tt
both code (some c) second h k = Compiles-behind [] code c (second c) h (k c)

-- The call behind its arguments.
called :
    {code : List Instruction} (n : ℕ) (c : Compiler)
    → Extends code c
    → (id : Option ℕ)
    → Compiles code (elim id [
      | some func_id ↦ some (emit Opcode.call (as_i32 func_id) (as_i32 n) c)
      | none ↦ none
    ])
unfolding emit
called n c f none = tt
called n c f (some func_id) = Emits-emit _ _ _ f (no_jump refl)

mutual
  unfolding compile_expr emit emit_simple

  -- The code of an expression goes behind the code that there is, and its jumps stay in it.
  pub compile_expr-Compiles : (e : Expr) (c : Compiler) → Compiles c.instructions (compile_expr e c)
  compile_expr-Compiles (int_literal value) c = Emits-emit _ _ _ Emits-refl (no_jump refl)
  compile_expr-Compiles (bool_literal value) c = Emits-emit _ _ _ Emits-refl (no_jump refl)
  compile_expr-Compiles (identifier name) c = compile_name-Extends name c
  compile_expr-Compiles (binary BinaryOp.and l r) c =
      short-Compiles c.instructions Opcode.jump_if_false (pos 0) (compile_expr l c) (compile_expr r)
        (compile_expr-Compiles l c) (λ c'. compile_expr-Compiles r c')
  compile_expr-Compiles (binary BinaryOp.or l r) c =
      short-Compiles c.instructions Opcode.jump_if_true (pos 1) (compile_expr l c) (compile_expr r)
        (compile_expr-Compiles l c) (λ c'. compile_expr-Compiles r c')
  compile_expr-Compiles (binary op l r) c =
      both c.instructions (compile_expr l c) _ (compile_expr-Compiles l c) λ c₁.
        emitted c₁.instructions (compile_expr r c₁) (binary_opcode op) (pos 0) (pos 0)
          (binary_opcode-plain op) (compile_expr-Compiles r c₁)
  compile_expr-Compiles (unary op operand) c =
      emitted c.instructions (compile_expr operand c) (unary_opcode op) (pos 0) (pos 0)
        (unary_opcode-plain op) (compile_expr-Compiles operand c)
  compile_expr-Compiles (call name args) c =
      both c.instructions (compile_args args c) _ (compile_args-Compiles args c)
        λ c₁. called (count_args args) c₁ Emits-refl (find name c₁.func_name_to_id)
  compile_expr-Compiles (array_index name index) c =
      both c.instructions (compile_expr index c) _ (compile_expr-Compiles index c)
        λ c₁. compile_element-Extends c₁.instructions name c₁ Emits-refl

  pub compile_args-Compiles :
      (args : Args) (c : Compiler) → Compiles c.instructions (compile_args args c)
  compile_args-Compiles no_args c = Emits-refl
  compile_args-Compiles (arg e args) c =
      both c.instructions (compile_expr e c) _ (compile_expr-Compiles e c)
        λ c₁. compile_args-Compiles args c₁
