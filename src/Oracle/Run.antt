-- ===== src/Oracle/Run.antt =====
-- src/oracle.rs: calls, the recursion, and `run`. The three functions that recur on the tree recur on
-- fuel here, one unit for each nested call.
use minilang_rs.Prelude.{
  ℕ, zero, suc, ◌*◌, Bool, true, false, List, [], ◌∷◌, Option, none, some, String, length, leb,
  ◌==◌, not, if◌then◌else◌,
}
use minilang_rs.Prelude.Int.{ℤ, pos, ◌==ℤ◌}
use minilang_rs.Prelude.Names.{find, put}
use minilang_rs.Word.{normalize_i32}
use minilang_rs.Limits.{max_frames, max_cycles}
use minilang_rs.Vm.State.{
  TrapCode, none_trap, stack_overflow, undefined_function, invalid_instruction,
}
use minilang_rs.Ast.{Expr, Block, Param, Function, GlobalVar, Program}
use minilang_rs.Oracle.{
  scalar, array, Scope, Control, continue, returned, Answer, ok, trap, panic, starved, O, pure,
  ◌>>=◌, ◌>>◌, fail, tick, assign_global_scalar, zeros,
}
use minilang_rs.Oracle.Nodes.{Eval, CallFn, Exec, eval_node, exec_block, exec_node}

-- `HashMap::get` on the functions by name, where a later one replaces an earlier one.
unfoldable pub function_table : List Function → List (String × Function) → List (String × Function)
function_table [] table = table
function_table (f ∷ functions) table = function_table functions (put f.name f table)

unfoldable pub root_scope : List Param → List ℤ → Scope → Scope
unfolding normalize_i32
root_scope [] values scope = scope
root_scope (p ∷ params) [] scope = scope
root_scope (p ∷ params) (v ∷ values) scope =
    root_scope params values (put p.name (scalar (some (normalize_i32 v))) scope)

unfoldable pub open_frame : Scope → O (Unit {0})
open_frame scope o = ok tt (record o { frames = record { scopes = scope ∷ [] } ∷ o.frames })

unfoldable pub close_frame : O (Unit {0})
close_frame o = elim o.frames [
  | [] ↦ ok tt o
  | frame ∷ frames ↦ ok tt (record o { frames = frames })
]

-- A call behind the tick and the lookup.
unfoldable pub run_body : Exec → Function → List ℤ → O ℤ
unfolding pure fail ◌>>=◌ ◌>>◌ root_scope open_frame close_frame exec_block normalize_i32
run_body ex function args =
    if not (length args == length function.params)
    then fail invalid_instruction
    else (open_frame (root_scope function.params args [])
        >> (exec_block ex function.body >>= λ control.
            close_frame
            >> pure (normalize_i32 (elim control [ returned v ↦ v | continue ↦ pos 0 ]))))

unfoldable pub call_node : Program → Exec → CallFn
unfolding function_table run_body
call_node program ex name args o =
    if leb max_frames (length o.frames)
    then trap stack_overflow o
    else elim (find name (function_table program.functions [])) [
      | none ↦ trap undefined_function o
      | some function ↦ run_body ex function args o
    ]

unfoldable mutual
  unfolding pure ◌>>=◌ ◌>>◌ tick eval_node exec_node call_node exec_block

  pub eval_expr : Program → ℕ → Eval
  eval_expr program zero e = λ _. starved
  eval_expr program (suc n) e = tick >> eval_node (eval_expr program n) (call_function program n) e

  pub exec_stmt : Program → ℕ → Exec
  exec_stmt program zero s = λ _. starved
  exec_stmt program (suc n) s =
      tick >> exec_node (eval_expr program n) (exec_stmt program n) (while_loop program n) s

  pub while_loop : Program → ℕ → Expr → Block → O Control
  while_loop program zero condition body = λ _. starved
  while_loop program (suc n) condition body = eval_expr program n condition >>= λ v.
      if not (v ==ℤ pos 0)
      then (exec_block (exec_stmt program n) body >>= λ control. elim control [
        | continue ↦ while_loop program n condition body
        | returned r ↦ pure (returned r)
      ])
      else pure continue

  pub call_function : Program → ℕ → CallFn
  call_function program zero name args = λ _. starved
  call_function program (suc n) name args =
      tick >> call_node program (exec_stmt program n) name args

-- Loops on the globals: the slots they start with, and their initialisers.
unfoldable pub global_slots : List GlobalVar → Scope → Option Scope
unfolding zeros
global_slots [] scope = some scope
global_slots (g ∷ globals) scope = elim g.array_size [
  | none ↦ global_slots globals (put g.name (scalar (some (pos 0))) scope)
  | some size ↦ elim (zeros size) [
    | none ↦ none
    | some values ↦ global_slots globals (put g.name (array values) scope)
  ]
]

unfoldable pub initialize_globals : Eval → List GlobalVar → O (Unit {0})
unfolding pure ◌>>=◌ ◌>>◌ assign_global_scalar
initialize_globals ev [] = pure tt
initialize_globals ev (g ∷ globals) = elim g.init_expr [
  | none ↦ initialize_globals ev globals
  | some e ↦ ev e >>= λ v. assign_global_scalar g.name v >> initialize_globals ev globals
]

-- One unit more than twice the limit of cycles.
abbrev pub fuel : ℕ
fuel = suc (2 * max_cycles)

unfoldable pub run_main : Program → O ℤ
unfolding ◌>>◌ initialize_globals eval_expr call_function
run_main program =
    initialize_globals (eval_expr program fuel) program.globals
    >> call_function program fuel "main" []

-- `AstOracle::new` and `run`, to the result that `run` turns into an outcome.
unfoldable pub interpret : Program → Answer ℤ
unfolding global_slots run_main
interpret program = elim (global_slots program.globals []) [
  | none ↦ panic
  | some globals ↦
      run_main program (record { globals = globals; frames = []; output = []; cycles = 0 })
]

-- Without the text of the trap.
pub record OracleOutcome : Type 0 where
  pub success : Bool
  pub return_value : ℤ
  pub trap_code : TrapCode
  pub output : List ℤ

unfoldable pub outcome : Answer ℤ → Option OracleOutcome
outcome (ok value o) =
    some (record { success = true; return_value = value; trap_code = none_trap; output = o.output })
outcome (trap code o) =
    some (record { success = false; return_value = pos 0; trap_code = code; output = o.output })
outcome panic = none
outcome starved = none

unfoldable pub run_ast_oracle : Program → Option OracleOutcome
unfolding outcome interpret
run_ast_oracle program = outcome (interpret program)
