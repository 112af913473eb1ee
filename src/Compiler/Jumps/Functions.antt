-- ===== src/Compiler/Jumps/Functions.antt =====
-- src/compiler.rs: the place of every compiled function.
use minilang_rs.Prelude.{
  ℕ, ◌-◌, ◌≤◌, ◌<◌, ◌≡◌, ◌∙◌, sym, refl, Bool, true, false, List, [], ◌∷◌, ◌++◌, Option, none, some,
  arith, length, length-append, get_elem?, String, Bool-cases, inl, inr, if◌then◌else◌,
}
use mathlib.Core.Path.{subst}
use minilang_rs.Prelude.Int.{ℤ, pos}
use minilang_rs.Prelude.Names.{find, has_key, same_name}
use minilang_rs.Bytecode.{Opcode, Instruction, instruction, simple, GlobalInfo}
use minilang_rs.Ast.{
  Expr, Stmt, var_decl, assign, if_stmt, while_stmt, return_stmt, print_stmt, expr_stmt, Block, end,
  stmt, Else, no_else, else_body, Param, Function, GlobalVar, Program,
}
use minilang_rs.Compiler.{LocalVar, Compiler, as_i32, emit, emit_simple}
use minilang_rs.Compiler.Expression.{compile_expr}
use minilang_rs.Compiler.Statement.{
  declare_local, collect_stmt, collect_local_decls, collect_else, compile_block,
}
use minilang_rs.Compiler.Program.{
  declare_params, compile_initializers, enter_function, compile_body,
}
use minilang_rs.Compiler.Jumps.{
  Inside, Inside-widen, no_jump, Emits, Emits-refl, Emits-emit, get_elem?-last, last_cases,
}
use minilang_rs.Compiler.Closed.{Gives, Gives-bind}
use minilang_rs.Compiler.Jumps.Expressions.{
  Extends, Compiles, Compiles-behind, both, compile_expr-Compiles,
}
use minilang_rs.Compiler.Jumps.Statements.{compile_block-Compiles}

-- A function's code goes from its entry to before `stop`: its jumps stay in it, and its last
-- instruction is a return.
pub record IsPlaced (code : List Instruction) (entry stop : ℕ) : Type 0 where
  pub some_code : entry < stop
  pub within : stop ≤ length code
  pub jumps :
      (i : ℕ) (instr : Instruction)
      → entry ≤ i
      → i < stop
      → get_elem? code i ≡ some instr
      → Inside entry (stop - 1) instr
  pub last_return : get_elem? code (stop - 1) ≡ some (simple Opcode.return)

-- The code `body`, and the implicit return behind it.
abbrev closed : List Instruction → List Instruction
closed body =
    (body ++ instruction Opcode.load_const (pos 0) (pos 0) ∷ []) ++ simple Opcode.return ∷ []

closed-IsPlaced :
    (code body : List Instruction)
    → Emits [] code body
    → IsPlaced (closed body) (length code) (length (closed body))
closed-IsPlaced code body f = record {
  some_code = rw (length-append, length-append) (omega (arith, f.longer));
  within = omega arith;
  jumps = λ i instr low high e. elim (last_cases _ _ instr i e) [
    | inr (there, same) ↦ rw (← same) (no_jump refl)
    | inl e' ↦ elim (last_cases body _ instr i e') [
      | inr (there, same) ↦ rw (← same) (no_jump refl)
      | inl old ↦
          Inside-widen (f.inside i instr low refl old) (omega arith)
            (rw (length-append, length-append) (omega arith))
    ]
  ];
  last_return =
      subst (λ n. get_elem? (closed body) n ≡ some (simple Opcode.return))
        (omega (
          arith,
          length-append (body ++ instruction Opcode.load_const (pos 0) (pos 0) ∷ [])
              (simple Opcode.return ∷ []),
        ))
        (get_elem?-last (body ++ instruction Opcode.load_const (pos 0) (pos 0) ∷ [])
          (simple Opcode.return));
}

-- More code behind a function's leaves it in place.
pub IsPlaced-more :
    (code code' : List Instruction) (entry stop : ℕ)
    → Emits [] code code'
    → IsPlaced code entry stop
    → IsPlaced code' entry stop
IsPlaced-more code code' entry stop f p = record {
  some_code = p.some_code;
  within = omega (arith, p.within, f.longer);
  jumps = λ i instr low high e.
      p.jumps i instr low high (sym (f.kept i (omega (arith, high, p.within))) ∙ e);
  last_return = f.kept (stop - 1) (omega (arith, p.within, p.some_code)) ∙ p.last_return;
}

-- A field that the declarations leave alone is as before at the entry of a function.
module _ {A : Type 0} (field : Compiler → A)
    (same : (locals : List (String × LocalVar)) (n : ℕ) (c : Compiler)
      → field (record c { current_locals = locals; next_local_slot = n }) ≡ field c) where
  declare_params-same :
      (params : List Param) (c : Compiler) → field (declare_params params c) ≡ field c
  unfolding declare_params
  declare_params-same [] c = refl
  declare_params-same (p ∷ params) c = declare_params-same params _ ∙ same _ _ c

  declare_local-same :
      (name : String) (size : Option ℤ) (c : Compiler) → field (declare_local name size c) ≡ field c
  unfolding declare_local
  declare_local-same name size c = elim (Bool-cases (has_key name c.current_locals)) [
    | inl e ↦ rw (e, declare_local) refl
    | inr e ↦ rw (e, declare_local) (same _ _ c)
  ]

  mutual
    unfolding collect_stmt

    collect_stmt-same : (s : Stmt) (c : Compiler) → field (collect_stmt s c) ≡ field c
    collect_stmt-same (var_decl t name init size) c = declare_local-same name size c
    collect_stmt-same (if_stmt condition then_body else_part) c =
        collect_else-same else_part (collect_local_decls then_body c)
        ∙ collect_block-same then_body c
    collect_stmt-same (while_stmt condition body) c = collect_block-same body c
    collect_stmt-same (assign target index value) c = refl
    collect_stmt-same (return_stmt value) c = refl
    collect_stmt-same (print_stmt value) c = refl
    collect_stmt-same (expr_stmt e) c = refl

    collect_block-same : (b : Block) (c : Compiler) → field (collect_local_decls b c) ≡ field c
    collect_block-same end c = refl
    collect_block-same (stmt s stmts) c =
        collect_block-same stmts (collect_stmt s c) ∙ collect_stmt-same s c

    collect_else-same : (e : Else) (c : Compiler) → field (collect_else e c) ≡ field c
    collect_else-same no_else c = refl
    collect_else-same (else_body body) c = collect_block-same body c

  pub enter_function-same :
      (func : Function) (c : Compiler) → field (enter_function func c).1 ≡ field c
  unfolding enter_function
  enter_function-same func c =
      same _ _ _ ∙ collect_block-same func.body _ ∙ declare_params-same func.params _ ∙ same _ _ c

-- The body of a function.
compile_initializers-Compiles :
    (globals : List GlobalVar) (c : Compiler)
    → Compiles c.instructions (compile_initializers globals c)
unfolding compile_initializers emit
compile_initializers-Compiles [] c = Emits-refl
compile_initializers-Compiles (glob ∷ globals) c =
    go (λ c'. compile_initializers-Compiles globals c') glob.init_expr refl
  where
    stored :
        ((c' : Compiler) → Compiles c'.instructions (compile_initializers globals c'))
        → (c₁ : Compiler) (info : Option GlobalInfo)
        → Compiles c₁.instructions (elim info [
          | none ↦ none
          | some info ↦
              compile_initializers globals (emit Opcode.store_global (as_i32 info.slot) (pos 0) c₁)
        ])
    stored rest c₁ none = tt
    stored rest c₁ (some info) =
        Compiles-behind [] c₁.instructions (emit Opcode.store_global (as_i32 info.slot) (pos 0) c₁)
          _ (Emits-emit _ _ _ Emits-refl (no_jump refl)) (rest _)

    go :
        ((c' : Compiler) → Compiles c'.instructions (compile_initializers globals c'))
        → (init : Option Expr) → glob.init_expr ≡ init
        → Compiles c.instructions (compile_initializers (glob ∷ globals) c)
    go rest none e = rw (e, compile_initializers) (rest c)
    go rest (some init) e =
        rw (e, compile_initializers)
          (both c.instructions (compile_expr init c) _ (compile_expr-Compiles init c)
            λ c₁. stored rest c₁ (find glob.name c₁.globals))

pub compile_body-IsPlaced :
    (func : Function) (program : Program) (c : Compiler)
    → Gives
        (λ c'.
          Extends c.instructions c'
          × IsPlaced c'.instructions (length c.instructions) (length c'.instructions))
        (compile_body func program c)
unfolding compile_body emit emit_simple
compile_body-IsPlaced func program c =
    Gives-bind (Extends c.instructions) _ _ _ (initialized (same_name func.name "main")) λ c₁ f₁.
      Gives-bind (Extends c.instructions) _ (compile_block func.body c₁) _
        (Compiles-behind [] c.instructions c₁ _ f₁ (compile_block-Compiles func.body c₁))
        λ c₂ f₂. (
          Emits-emit _ _ _ (Emits-emit _ _ _ f₂ (no_jump refl)) (no_jump refl),
          closed-IsPlaced c.instructions c₂.instructions f₂,
        )
  where
    initialized :
        (b : Bool)
        → Compiles c.instructions (if b then compile_initializers program.globals c else some c)
    initialized true = compile_initializers-Compiles program.globals c
    initialized false = Emits-refl
