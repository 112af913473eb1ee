-- ===== src/Compiler/Expression.antt =====
-- src/compiler.rs: `compile_expr`.
use minilang_rs.Prelude.{ℕ, ◌+◌, Option, none, some, String, if◌then◌else◌}
use minilang_rs.Prelude.Int.{ℤ, pos}
use minilang_rs.Prelude.Names.{find}
use minilang_rs.Bytecode.{Opcode}
use minilang_rs.Ast.{
  BinaryOp, UnaryOp, Expr, int_literal, bool_literal, identifier, binary, unary, call, array_index,
  Args, no_args, arg,
}
use minilang_rs.Compiler.{Compiler, as_i32, current_pc, emit, emit_simple, patch, bind}

-- The opcode of an operator that does not short-circuit.
unfoldable pub binary_opcode : BinaryOp → Opcode
binary_opcode BinaryOp.add = Opcode.add
binary_opcode BinaryOp.sub = Opcode.sub
binary_opcode BinaryOp.mul = Opcode.mul
binary_opcode BinaryOp.div = Opcode.div
binary_opcode BinaryOp.eq = Opcode.eq
binary_opcode BinaryOp.ne = Opcode.ne
binary_opcode BinaryOp.lt = Opcode.lt
binary_opcode BinaryOp.gt = Opcode.gt
binary_opcode BinaryOp.le = Opcode.le
binary_opcode BinaryOp.ge = Opcode.ge
binary_opcode BinaryOp.and = Opcode.and
binary_opcode BinaryOp.or = Opcode.or

unfoldable pub unary_opcode : UnaryOp → Opcode
unary_opcode UnaryOp.neg = Opcode.neg
unary_opcode UnaryOp.not = Opcode.not

-- A name in an expression: a local, else a global, else nothing is emitted.
unfoldable pub compile_name : String → Compiler → Compiler
unfolding emit
compile_name name c = elim (find name c.current_locals) [
  | some local ↦ emit Opcode.load_local (as_i32 local.slot) (pos 0) c
  | none ↦ elim (find name c.globals) [
    | some global ↦ emit Opcode.load_global (as_i32 global.slot) (pos 0) c
    | none ↦ c
  ]
]

-- The load of an array's element, behind its index.
unfoldable pub compile_element : String → Compiler → Compiler
unfolding emit
compile_element name c = elim (find name c.current_locals) [
  | some local ↦ emit Opcode.local_array_load (as_i32 local.slot) (as_i32 local.array_size) c
  | none ↦ elim (find name c.globals) [
    | some global ↦ emit Opcode.array_load (as_i32 global.slot) (as_i32 global.array_size) c
    | none ↦ c
  ]
]

unfoldable pub count_args : Args → ℕ
count_args no_args = 0
count_args (arg e args) = count_args args + 1

-- The end of a short-circuit, behind the right operand: the right operand as a truth value, the
-- jump over the other one, and the two patches.
unfoldable pub close_short : ℕ → ℤ → Compiler → Compiler
unfolding emit emit_simple patch current_pc
close_short jump_short value c =
    let c₁ = emit_simple Opcode.ne (emit Opcode.load_const (pos 0) (pos 0) c) in
    let c₂ = emit Opcode.jump (pos 0) (pos 0) c₁ in
    let c₃ = emit Opcode.load_const value (pos 0) (patch jump_short (as_i32 (current_pc c₂)) c₂) in
    patch (current_pc c₁) (as_i32 (current_pc c₃)) c₃

unfoldable mutual
  unfolding emit emit_simple current_pc close_short compile_name compile_element bind

  pub compile_expr : Expr → Compiler → Option Compiler
  compile_expr (int_literal value) c = some (emit Opcode.load_const value (pos 0) c)
  compile_expr (bool_literal value) c =
      some (emit Opcode.load_const (if value then pos 1 else pos 0) (pos 0) c)
  compile_expr (identifier name) c = some (compile_name name c)
  compile_expr (binary BinaryOp.and left right) c = bind (compile_expr left c) λ c₁.
      bind (compile_expr right (emit Opcode.jump_if_false (pos 0) (pos 0) c₁))
        λ c₂. some (close_short (current_pc c₁) (pos 0) c₂)
  compile_expr (binary BinaryOp.or left right) c = bind (compile_expr left c) λ c₁.
      bind (compile_expr right (emit Opcode.jump_if_true (pos 0) (pos 0) c₁))
        λ c₂. some (close_short (current_pc c₁) (pos 1) c₂)
  compile_expr (binary op left right) c =
      bind (compile_expr left c)
        λ c₁. bind (compile_expr right c₁) λ c₂. some (emit_simple (binary_opcode op) c₂)
  compile_expr (unary op operand) c =
      bind (compile_expr operand c) λ c₁. some (emit_simple (unary_opcode op) c₁)
  compile_expr (call name args) c = bind (compile_args args c) λ c₁.
      elim (find name c₁.func_name_to_id) [
        | some func_id ↦ some (emit Opcode.call (as_i32 func_id) (as_i32 (count_args args)) c₁)
        | none ↦ none
      ]
  compile_expr (array_index name index) c =
      bind (compile_expr index c) λ c₁. some (compile_element name c₁)

  pub compile_args : Args → Compiler → Option Compiler
  compile_args no_args c = some c
  compile_args (arg e args) c = bind (compile_expr e c) λ c₁. compile_args args c₁
