-- ===== src/Compiler/Statement.antt =====
-- src/compiler.rs: `collect_local_decls` and `compile_stmt`.
use minilang_rs.Prelude.{ℕ, ◌+◌, Bool, true, false, Option, none, some, String, if◌then◌else◌}
use minilang_rs.Prelude.Int.{ℤ, pos}
use minilang_rs.Prelude.Names.{find, put, has_key}
use minilang_rs.Word.{as_usize}
use minilang_rs.Bytecode.{Opcode}
use minilang_rs.Ast.{
  Expr, Stmt, var_decl, assign, if_stmt, while_stmt, return_stmt, print_stmt, expr_stmt, Block, end,
  stmt, Else, no_else, else_body,
}
use minilang_rs.Compiler.{LocalVar, Compiler, as_i32, current_pc, emit, emit_simple, patch, bind}
use minilang_rs.Compiler.Expression.{compile_expr}

-- `array_size.map(|s| s as usize).unwrap_or(0)`
abbrev pub size_of : Option ℤ → ℕ
size_of (some n) = as_usize n
size_of none = 0

abbrev pub is_some : {A : Type 0} → Option A → Bool
is_some (some a) = true
is_some none = false

-- A local gets a slot where it has none; an array has one slot, for its reference.
unfoldable pub declare_local : String → Option ℤ → Compiler → Compiler
declare_local name array_size c = if has_key name c.current_locals then c else record c {
  current_locals =
      put name
        (record {
          slot = c.next_local_slot;
          is_array = is_some array_size;
          array_size = size_of array_size;
        })
        c.current_locals;
  next_local_slot = c.next_local_slot + 1;
}

unfoldable mutual
  unfolding declare_local

  pub collect_stmt : Stmt → Compiler → Compiler
  collect_stmt (var_decl t name init array_size) c = declare_local name array_size c
  collect_stmt (if_stmt condition then_body else_part) c =
      collect_else else_part (collect_local_decls then_body c)
  collect_stmt (while_stmt condition body) c = collect_local_decls body c
  collect_stmt (assign target index value) c = c
  collect_stmt (return_stmt value) c = c
  collect_stmt (print_stmt value) c = c
  collect_stmt (expr_stmt e) c = c

  pub collect_local_decls : Block → Compiler → Compiler
  collect_local_decls end c = c
  collect_local_decls (stmt s stmts) c = collect_local_decls stmts (collect_stmt s c)

  pub collect_else : Else → Compiler → Compiler
  collect_else no_else c = c
  collect_else (else_body body) c = collect_local_decls body c

-- The declaration of a local whose slot is known.
unfoldable pub initialize_local : Option LocalVar → Option Expr → Compiler → Option Compiler
unfolding compile_expr emit bind
initialize_local none init c = none
initialize_local (some local) init c =
    if local.is_array
    then some (
        emit Opcode.store_local (as_i32 local.slot) (pos 0)
          (emit Opcode.alloc_array (as_i32 local.array_size) (pos 0) c))
    else elim init [
      | none ↦ some c
      | some e ↦
          bind (compile_expr e c)
            λ c₁. some (emit Opcode.store_local (as_i32 local.slot) (pos 0) c₁)
    ]

-- An assignment, with the opcodes and operands of its target: to an element or to a scalar.
unfoldable pub compile_store :
    Opcode → Opcode → ℤ → ℤ → Option Expr → Expr → Compiler → Option Compiler
unfolding compile_expr emit bind
compile_store array_opcode scalar_opcode slot size (some index) value c =
    bind (compile_expr index c)
      λ c₁. bind (compile_expr value c₁) λ c₂. some (emit array_opcode slot size c₂)
compile_store array_opcode scalar_opcode slot size none value c =
    bind (compile_expr value c) λ c₁. some (emit scalar_opcode slot (pos 0) c₁)

unfoldable pub compile_assign : String → Option Expr → Expr → Compiler → Option Compiler
unfolding compile_store
compile_assign target index value c = elim (find target c.current_locals) [
  | some local ↦
      compile_store Opcode.local_array_store Opcode.store_local (as_i32 local.slot)
        (as_i32 local.array_size) index value c
  | none ↦ elim (find target c.globals) [
    | some global ↦
        compile_store Opcode.array_store Opcode.store_global (as_i32 global.slot)
          (as_i32 global.array_size) index value c
    | none ↦ some c
  ]
]

unfoldable mutual
  unfolding compile_expr emit emit_simple patch current_pc bind declare_local initialize_local
      compile_assign

  pub compile_stmt : Stmt → Compiler → Option Compiler
  compile_stmt (var_decl t name init array_size) c =
      let c₁ = declare_local name array_size c in
      initialize_local (find name c₁.current_locals) init c₁
  compile_stmt (assign target index value) c = compile_assign target index value c
  compile_stmt (if_stmt condition then_body else_part) c = bind (compile_expr condition c) λ c₁.
      bind (compile_block then_body (emit Opcode.jump_if_false (pos 0) (pos 0) c₁))
        λ c₂. compile_else else_part (current_pc c₁) c₂
  compile_stmt (while_stmt condition body) c = bind (compile_expr condition c) λ c₁.
      bind (compile_block body (emit Opcode.jump_if_false (pos 0) (pos 0) c₁)) λ c₂.
        let c₃ = emit Opcode.jump (as_i32 (current_pc c)) (pos 0) c₂ in
        some (patch (current_pc c₁) (as_i32 (current_pc c₃)) c₃)
  compile_stmt (return_stmt value) c =
      bind (compile_expr value c) λ c₁. some (emit_simple Opcode.return c₁)
  compile_stmt (print_stmt value) c =
      bind (compile_expr value c) λ c₁. some (emit_simple Opcode.print c₁)
  compile_stmt (expr_stmt e) c = bind (compile_expr e c) λ c₁. some (emit_simple Opcode.pop c₁)

  pub compile_block : Block → Compiler → Option Compiler
  compile_block end c = some c
  compile_block (stmt s stmts) c = bind (compile_stmt s c) λ c₁. compile_block stmts c₁

  -- The else branch, and the patch of the jump to it.
  pub compile_else : Else → ℕ → Compiler → Option Compiler
  compile_else no_else jump_to_else c = some (patch jump_to_else (as_i32 (current_pc c)) c)
  compile_else (else_body body) jump_to_else c =
      let c₁ = emit Opcode.jump (pos 0) (pos 0) c in
      bind (compile_block body (patch jump_to_else (as_i32 (current_pc c₁)) c₁))
        λ c₂. some (patch (current_pc c) (as_i32 (current_pc c₂)) c₂)
