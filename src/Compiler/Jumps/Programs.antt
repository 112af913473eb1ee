-- ===== src/Compiler/Jumps/Programs.antt =====
-- src/compiler.rs: the functions of a compiled program.
use minilang_rs.Prelude.{
  ℕ, ◌+◌, ◌≡◌, ◌∙◌, sym, refl, Bool, true, false, List, [], ◌∷◌, Option, none, some, some-injective,
  length, lookup, insert, lookup-insert, ◌==◌, ==_iff, Bool-cases, inl, inr, if◌then◌else◌, ltb,
}
use mathlib.Core.Path.{subst}
use minilang_rs.Prelude.Names.{find, has_key, same_name}
use minilang_rs.Word.{as_usize}
use minilang_rs.Limits.{usize_max}
use minilang_rs.Bytecode.{Instruction, FunctionInfo, CompiledProgram}
use minilang_rs.Ast.{Function, GlobalVar, Program}
use minilang_rs.Compiler.{Compiler, new, current_pc, emit, emit_simple, patch}
use minilang_rs.Compiler.Statement.{declare_local}
use minilang_rs.Compiler.Program.{
  enter_function, compile_body, compile_function, compile_functions, collect_globals,
  register_functions, program_of, compile, compile_initializers,
}
use minilang_rs.Compiler.Statement.{compile_block}
use minilang_rs.Compiler.Closed.{Gives, Gives-bind, IsClosed, by_block, by_initializers}
use minilang_rs.Compiler.Jumps.{Emits}
use minilang_rs.Compiler.Jumps.Expressions.{Extends}
use minilang_rs.Compiler.Jumps.Functions.{
  IsPlaced, IsPlaced-more, enter_function-same, compile_body-IsPlaced,
}

-- The table of functions is left alone by the code of a body.
functions_closed : (table : List (ℕ × FunctionInfo)) → IsClosed (λ c. c.functions ≡ table)
unfolding emit patch declare_local
functions_closed table = record {
  by_emit = λ o a b c h. h;
  by_patch = λ pc a c h. h;
  by_declare = λ name size c h. elim (Bool-cases (has_key name c.current_locals)) [
    | inl e ↦ rw (e, declare_local) h
    | inr e ↦ rw (e, declare_local) h
  ];
}

compile_body-functions :
    (func : Function) (program : Program) (c : Compiler)
    → Gives (λ c'. c'.functions ≡ c.functions) (compile_body func program c)
unfolding compile_body emit emit_simple
compile_body-functions func program c =
    let Q : Compiler → Type 0 = λ c'. c'.functions ≡ c.functions in
    let closed = functions_closed c.functions in
    Gives-bind Q Q _ _ (initialized (same_name func.name "main")) λ c₁ h₁.
      Gives-bind Q Q (compile_block func.body c₁) _ (by_block Q closed func.body c₁ h₁) λ c₂ h₂. h₂
  where
    initialized :
        (b : Bool)
        → Gives
            (λ c'. c'.functions ≡ c.functions)
            (if b then compile_initializers program.globals c else some c)
    initialized true =
        by_initializers (λ c'. c'.functions ≡ c.functions) (functions_closed c.functions)
          program.globals c refl
    initialized false = refl

-- Every function has its own number, and is placed in the code.
abbrev pub AllPlaced : List Instruction → List (ℕ × FunctionInfo) → Type 0
AllPlaced code functions =
    (id : ℕ) (info : FunctionInfo)
    → lookup id functions ≡ some info
    → (info.id ≡ id) × (stop : ℕ) × IsPlaced code info.entry_pc stop

AllPlaced-insert :
    (code code' : List Instruction) (functions : List (ℕ × FunctionInfo)) (info : FunctionInfo)
    → AllPlaced code functions
    → Emits [] code code'
    → IsPlaced code' info.entry_pc (length code')
    → AllPlaced code' (insert info.id info functions)
AllPlaced-insert code code' functions info old f new id info' found =
    elim (Bool-cases (info.id == id)) [
      | inl e ↦
          mine e
            (some-injective info info' (rw (lookup-insert info.id id info functions, e) at found))
      | inr e ↦ other (old id info' (rw (lookup-insert info.id id info functions, e) at found))
    ]
  where
    mine :
        info.id == id ≡ true
        → info ≡ info'
        → (info'.id ≡ id) × (stop : ℕ) × IsPlaced code' info'.entry_pc stop
    mine e same = rw (← same) ((==_iff info.id id).0 e, length code', new)

    other :
        (info'.id ≡ id) × (stop : ℕ) × IsPlaced code info'.entry_pc stop
        → (info'.id ≡ id) × (stop : ℕ) × IsPlaced code' info'.entry_pc stop
    other (i, stop, p) = (i, stop, IsPlaced-more code code' info'.entry_pc stop f p)

Gives-both :
    (Q R : Compiler → Type 0) (o : Option Compiler)
    → Gives Q o
    → Gives R o
    → Gives (λ c. Q c × R c) o
Gives-both Q R none q r = tt
Gives-both Q R (some c) q r = (q, r)

-- The functions of the compiler are in place.
abbrev Placed : Compiler → Type 0
Placed c = AllPlaced c.instructions c.functions

compile_function-Placed :
    (func : Function) (program : Program) (c : Compiler)
    → Placed c
    → Gives Placed (compile_function func program c)
unfolding compile_function current_pc
compile_function-Placed func program c placed = go (find func.name c.func_name_to_id) refl
  where
    entered : Compiler
    entered = (enter_function func c).1

    same_code : entered.instructions ≡ c.instructions
    same_code = enter_function-same (λ c. c.instructions) (λ locals n c. refl) func c

    same_functions : entered.functions ≡ c.functions
    same_functions = enter_function-same (λ c. c.functions) (λ locals n c. refl) func c

    info : ℕ → FunctionInfo
    info id = record {
      name = func.name;
      id = id;
      entry_pc = length c.instructions;
      param_count = length func.params;
      local_count = (enter_function func c).0;
    }

    go :
        (id : Option ℕ)
        → find func.name c.func_name_to_id ≡ id
        → Gives Placed (compile_function func program c)
    go none e = rw (e, compile_function) tt
    go (some func_id) e =
        rw (e, compile_function)
          (Gives-bind
            (λ c'.
              (Extends entered.instructions c'
                × IsPlaced c'.instructions (length entered.instructions) (length c'.instructions))
              × (c'.functions ≡ entered.functions))
            Placed (compile_body func program entered) _
            (Gives-both _ _ _ (compile_body-IsPlaced func program entered)
              (compile_body-functions func program entered))
            λ c₁ h.
              subst (λ table. AllPlaced c₁.instructions (insert func_id (info func_id) table))
                (sym (h.1 ∙ same_functions))
                (AllPlaced-insert c.instructions c₁.instructions c.functions (info func_id) placed
                  (subst (λ code. Emits [] code c₁.instructions) same_code h.0.0)
                  (subst (λ code. IsPlaced c₁.instructions (length code) (length c₁.instructions))
                    same_code h.0.1)))

compile_functions-Placed :
    (functions : List Function) (program : Program) (c : Compiler)
    → Placed c
    → Gives Placed (compile_functions functions program c)
unfolding compile_functions
compile_functions-Placed [] program c placed = placed
compile_functions-Placed (func ∷ functions) program c placed =
    Gives-bind Placed Placed (compile_function func program c) _
      (compile_function-Placed func program c placed)
      λ c₁ h₁. compile_functions-Placed functions program c₁ h₁

-- Before the functions are compiled there is no code.
abbrev IsFresh : Compiler → Type 0
IsFresh c = (c.instructions ≡ []) × (c.functions ≡ [])

collect_globals-IsFresh :
    (globals : List GlobalVar) (c : Compiler)
    → IsFresh c
    → Gives IsFresh (collect_globals globals c)
unfolding collect_globals
collect_globals-IsFresh [] c h = h
collect_globals-IsFresh (glob ∷ globals) c h =
    elim (Bool-cases (
      ltb usize_max
        (c.next_global_slot + elim glob.array_size [ some n ↦ as_usize n | none ↦ 1 ]))) [
          | inl e ↦ rw (e, collect_globals) tt
          | inr e ↦ rw (e, collect_globals) (collect_globals-IsFresh globals _ h)
        ]

register_functions-IsFresh :
    (functions : List Function) (c : Compiler)
    → IsFresh c
    → IsFresh (register_functions functions c)
unfolding register_functions
register_functions-IsFresh [] c h = h
register_functions-IsFresh (func ∷ functions) c h = register_functions-IsFresh functions _ h

-- In a compiled program every function carries the number under which it is found, and has a
-- stretch of the code, from its entry on, that ends with a return and that its jumps do not leave.
pub compile-AllPlaced :
    (program : Program) (compiled : CompiledProgram)
    → compile program ≡ some compiled
    → AllPlaced compiled.instructions compiled.functions
unfolding compile program_of new
compile-AllPlaced program compiled result =
    from _
      (Gives-bind IsFresh Placed (collect_globals program.globals new) _
        (collect_globals-IsFresh program.globals new (refl, refl))
        λ c fresh.
          let (code, table) = register_functions-IsFresh program.functions c fresh in
          compile_functions-Placed program.functions program
            (register_functions program.functions c)
            (empty (register_functions program.functions c) table))
      result
  where
    empty : (c : Compiler) → c.functions ≡ [] → Placed c
    empty c e id info found = absurd (cc (rw e at found))

    from :
        (o : Option Compiler)
        → Gives Placed o
        → elim o [ none ↦ none | some c ↦ some (program_of c) ] ≡ some compiled
        → AllPlaced compiled.instructions compiled.functions
    from none h e = absurd (cc e)
    from (some c) h e = rw (← some-injective (program_of c) compiled e) h
