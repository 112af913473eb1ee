-- ===== src/Compiler/Program.antt =====
-- src/compiler.rs: the globals, the functions, and `compile`.
use minilang_rs.Prelude.{
  ℕ, ◌+◌, false, List, [], ◌∷◌, Option, none, some, String, length, ltb, insert, if◌then◌else◌,
}
use minilang_rs.Prelude.Int.{pos}
use minilang_rs.Prelude.Names.{find, put, values, same_name}
use minilang_rs.Limits.{usize_max}
use minilang_rs.Word.{as_usize}
use minilang_rs.Bytecode.{Opcode, CompiledProgram}
use minilang_rs.Ast.{Param, Function, GlobalVar, Program}
use minilang_rs.Compiler.{LocalVar, Compiler, new, as_i32, current_pc, emit, emit_simple, bind}
use minilang_rs.Compiler.Expression.{compile_expr}
use minilang_rs.Compiler.Statement.{
  is_some, size_of, collect_stmt, collect_local_decls, compile_stmt, compile_block,
}

-- The slots of the parameters.
unfoldable pub declare_params : List Param → Compiler → Compiler
declare_params [] c = c
declare_params (param ∷ params) c = declare_params params (record c {
  current_locals =
      put param.name (record { slot = c.next_local_slot; is_array = false; array_size = 0 })
        c.current_locals;
  next_local_slot = c.next_local_slot + 1;
})

-- `retain(|_, v| v.slot < count)`
unfoldable pub retain_below : ℕ → List (String × LocalVar) → List (String × LocalVar)
retain_below count [] = []
retain_below count ((name, local) ∷ locals) =
    let rest = retain_below count locals in
    if ltb local.slot count then (name, local) ∷ rest else rest

-- The initializers of the globals, at the start of main.
unfoldable pub compile_initializers : List GlobalVar → Compiler → Option Compiler
unfolding compile_expr emit bind
compile_initializers [] c = some c
compile_initializers (glob ∷ globals) c = elim glob.init_expr [
  | none ↦ compile_initializers globals c
  | some init ↦ bind (compile_expr init c) λ c₁. elim (find glob.name c₁.globals) [
    | none ↦ none
    | some info ↦
        compile_initializers globals (emit Opcode.store_global (as_i32 info.slot) (pos 0) c₁)
  ]
]

-- The locals of a function: the slots of all its declarations, and the state that its body is
-- compiled in.
unfoldable pub enter_function : Function → Compiler → ℕ × Compiler
unfolding declare_params collect_stmt retain_below
enter_function func c =
    let c₁ = declare_params func.params (record c { current_locals = []; next_local_slot = 0 }) in
    let c₂ = collect_local_decls func.body c₁ in
    (
      c₂.next_local_slot,
      record c₂ {
        current_locals = retain_below (length func.params) c₂.current_locals;
        next_local_slot = length func.params;
      },
    )

-- The code of a function, in that state.
unfoldable pub compile_body : Function → Program → Compiler → Option Compiler
unfolding compile_initializers compile_stmt emit emit_simple bind
compile_body func program c =
    bind (if same_name func.name "main" then compile_initializers program.globals c else some c)
      λ c₁.
        bind (compile_block func.body c₁)
          λ c₂. some (emit_simple Opcode.return (emit Opcode.load_const (pos 0) (pos 0) c₂))

unfoldable pub compile_function : Function → Program → Compiler → Option Compiler
unfolding enter_function compile_body current_pc bind
compile_function func program c = elim (find func.name c.func_name_to_id) [
  | none ↦ none
  | some func_id ↦ bind (compile_body func program (enter_function func c).1) λ c₁.
      some (record c₁ {
        functions =
            insert func_id
              (record {
                name = func.name;
                id = func_id;
                entry_pc = current_pc c;
                param_count = length func.params;
                local_count = (enter_function func c).0;
              })
              c₁.functions;
      })
]

unfoldable pub compile_functions : List Function → Program → Compiler → Option Compiler
unfolding compile_function bind
compile_functions [] program c = some c
compile_functions (func ∷ functions) program c =
    bind (compile_function func program c) λ c₁. compile_functions functions program c₁

unfoldable pub collect_globals : List GlobalVar → Compiler → Option Compiler
collect_globals [] c = some c
collect_globals (glob ∷ globals) c =
    let width : ℕ = elim glob.array_size [ some n ↦ as_usize n | none ↦ 1 ] in
    let rest = collect_globals globals (record c {
      globals =
          put glob.name
            (record {
              name = glob.name;
              slot = c.next_global_slot;
              is_array = is_some glob.array_size;
              array_size = size_of glob.array_size;
            })
            c.globals;
      next_global_slot = c.next_global_slot + width;
    }) in
    if ltb usize_max (c.next_global_slot + width) then none else rest

unfoldable pub register_functions : List Function → Compiler → Compiler
register_functions [] c = c
register_functions (func ∷ functions) c = register_functions functions (record c {
  next_func_id = c.next_func_id + 1;
  func_name_to_id = put func.name c.next_func_id c.func_name_to_id;
  main_func_id = if same_name func.name "main" then some c.next_func_id else c.main_func_id;
})

-- The fields of the compiler that make the program.
unfoldable pub program_of : Compiler → CompiledProgram
program_of c = record {
  instructions = c.instructions;
  functions = c.functions;
  globals = values c.globals;
  main_func_id = elim c.main_func_id [ some id ↦ id | none ↦ 0 ];
  constants = [];
}

unfoldable pub compile : Program → Option CompiledProgram
unfolding collect_globals register_functions compile_functions program_of bind new
compile program =
    elim (bind (collect_globals program.globals new)
      λ c. compile_functions program.functions program (register_functions program.functions c)) [
        | none ↦ none
        | some c ↦ some (program_of c)
      ]
