-- ===== src/Oracle/Total/Run.antt =====
-- src/oracle.rs: the end of `run`.
use minilang_rs.Prelude.{
  ℕ, zero, suc, ◌+◌, ◌*◌, ◌≤◌, ◌≢◌, refl, arith, List, [], ◌∷◌, Option, none, some, String, not,
}
use minilang_rs.Prelude.Int.{ℤ, pos, ◌==ℤ◌}
use minilang_rs.Prelude.Names.{put}
use minilang_rs.Word.{IsI32}
use minilang_rs.Limits.{max_cycles}
use minilang_rs.Ast.{Expr, Stmt, Block, GlobalVar, Program}
use minilang_rs.Oracle.{
  O, pure, Slot, Scope, Control, continue, returned, panic, array, scalar, zeros,
}
use minilang_rs.Oracle.Run.{
  eval_expr, exec_stmt, while_loop, call_function, global_slots, fuel, run_main, interpret,
}
use minilang_rs.Oracle.Fits.{
  AllOf, IfAny, Values, SlotFits, ControlFits, IsSize, ExprFits, StmtFits, BlockFits, GlobalFits,
  ProgramFits,
}
use minilang_rs.Oracle.Fits.Keeps.{put_Fits}
use minilang_rs.Oracle.Total.{
  Ended, Leads, Ends, pure-Ends, if-Leads, bind-Leads, then-Leads, tick-Leads, weaken,
}
use minilang_rs.Oracle.Total.Values.{zeros-Fits, zeros_all}
use minilang_rs.Oracle.Total.Nodes.{
  eval_node-Ends, exec_block-Ends, exec_node-Ends, call_node-Ends, initialize_globals-Ends,
}

module _ (program : Program) (fits : ProgramFits program) where
  -- With the fuel `n` the parts end from the cycles on that leave enough of it.
  record AllEnd (n : ℕ) : Type 0 where
    expressions :
        (k d : ℕ)
        → 2 * max_cycles + 1 ≤ 2 * k + n
        → (e : Expr) → ExprFits e
        → Leads IsI32 k d (suc k) d (eval_expr program n e)
    statements :
        (k d : ℕ)
        → 2 * max_cycles + 1 ≤ 2 * k + n
        → (s : Stmt) → StmtFits s
        → Leads ControlFits k d (suc k) d (exec_stmt program n s)
    loops :
        (k d : ℕ)
        → 2 * max_cycles + 2 ≤ 2 * k + n
        → (e : Expr) (b : Block) → ExprFits e
        → BlockFits b
        → Ends ControlFits k d (while_loop program n e b)
    calls :
        (k d : ℕ)
        → 2 * max_cycles + 1 ≤ 2 * k + n
        → (name : String) (args : List ℤ)
        → Leads IsI32 k d (suc k) d (call_function program n name args)

  late :
      {A : Type 0} {P : A → Type 0} {k d k' d' : ℕ} {m : O A}
      → suc max_cycles ≤ k
      → Leads P k d k' d' m
  late h = record { ends = λ o l. absurd (omega (arith, h, l)) }

  none_left : AllEnd zero
  none_left = record {
    expressions = λ k d h e _. late (omega (arith, h));
    statements = λ k d h s _. late (omega (arith, h));
    loops = λ k d h e b _ _. late (omega (arith, h));
    calls = λ k d h name args. late (omega (arith, h));
  }

  module _ (n : ℕ) (rest : AllEnd n) where
    ev_later :
        (k d : ℕ)
        → 2 * max_cycles + 1 ≤ 2 * k + n
        → (e : Expr) → ExprFits e
        → Ends IsI32 k d (eval_expr program n e)
    ev_later k d h e he = weaken (omega arith) (rest.expressions k d h e he)

    ex_later :
        (k d : ℕ)
        → 2 * max_cycles + 1 ≤ 2 * k + n
        → (s : Stmt) → StmtFits s
        → Ends ControlFits k d (exec_stmt program n s)
    ex_later k d h s hs = weaken (omega arith) (rest.statements k d h s hs)

    fn_later :
        (k d : ℕ)
        → 2 * max_cycles + 1 ≤ 2 * k + n
        → (name : String) (args : List ℤ) → Ends IsI32 k d (call_function program n name args)
    fn_later k d h name args = weaken (omega arith) (rest.calls k d h name args)

    loop_Ends :
        (k d : ℕ)
        → 2 * max_cycles + 2 ≤ 2 * k + suc n
        → (e : Expr) (b : Block) → ExprFits e
        → BlockFits b
        → Ends ControlFits k d (while_loop program (suc n) e b)
    unfolding while_loop
    loop_Ends k d h e b he hb = weaken {k' = suc k} (omega arith) (
        bind-Leads (rest.expressions k d (omega (arith, h)) e he) (λ v _.
          if-Leads (not (v ==ℤ pos 0))
            (λ _.
              bind-Leads
                (exec_block-Ends (exec_stmt program n) (ex_later (suc k) d (omega (arith, h))) b hb)
                again)
            (λ _. pure-Ends continue tt)))
      where
        again :
            (control : Control)
            → ControlFits control
            → Ends ControlFits (suc k) d (elim control [
              | continue ↦ while_loop program n e b
              | returned r ↦ pure (returned r)
            ])
        again continue hc = rest.loops (suc k) d (omega (arith, h)) e b he hb
        again (returned r) hc = pure-Ends (returned r) hc

    one_more : AllEnd (suc n)
    unfolding eval_expr exec_stmt call_function
    one_more = record {
      expressions = λ k d h e he. then-Leads (tick-Leads k d) (
          eval_node-Ends (eval_expr program n) (ev_later (suc k) d (omega (arith, h)))
            (call_function program n) (fn_later (suc k) d (omega (arith, h))) e he);
      statements = λ k d h s hs. then-Leads (tick-Leads k d) (
          exec_node-Ends (exec_stmt program n) (ex_later (suc k) d (omega (arith, h)))
            (eval_expr program n) (ev_later (suc k) d (omega (arith, h))) (while_loop program n)
            (rest.loops (suc k) d (omega (arith, h))) s hs);
      loops = loop_Ends;
      calls = λ k d h name args.
          let (_, functions_fit) = fits in
          then-Leads (tick-Leads k d) (
            call_node-Ends (exec_stmt program n) (ex_later (suc k) (suc d) (omega (arith, h)))
              program name args functions_fit);
    }

  all_end : (n : ℕ) → AllEnd n
  all_end zero = none_left
  all_end (suc n) = one_more n (all_end n)

  run_main-Ends : Ends IsI32 0 0 (run_main program)
  unfolding run_main
  run_main-Ends =
      let (globals_fit, _) = fits in
      then-Leads
        (initialize_globals-Ends (eval_expr program fuel)
          (λ e he.
            weaken {k' = 1} (omega arith) ((all_end fuel).expressions 0 0 (omega arith) e he))
          program.globals globals_fit)
        (weaken {k' = 1} (omega arith) ((all_end fuel).calls 0 0 (omega arith) "main" []))

-- The slots of the globals, which there are.
abbrev Given : Option Scope → Type 0
Given none = ⊥
Given (some scope) = Values SlotFits scope

global_slots-Given :
    (globals : List GlobalVar) (scope : Scope)
    → AllOf GlobalFits globals
    → Values SlotFits scope
    → Given (global_slots globals scope)
unfolding global_slots
global_slots-Given [] scope h hs = hs
global_slots-Given (g ∷ globals) scope ((_, size_fits), h) hs =
    sized (λ slot hv. global_slots-Given globals _ h (put_Fits SlotFits g.name slot scope hv hs))
      g.array_size size_fits
  where
    Next : Type 0
    Next = (slot : Slot) → SlotFits slot → Given (global_slots globals (put g.name slot scope))

    made :
        Next
        → (found : Option (List ℤ)) → found ≢ none
        → IfAny (AllOf IsI32) found
        → Given (elim found [
          | none ↦ none
          | some values ↦ global_slots globals (put g.name (array values) scope)
        ])
    made next none ne h = absurd (ne refl)
    made next (some values) ne h = next (array values) h

    sized :
        Next
        → (size : Option ℤ) → IfAny IsSize size
        → Given (elim size [
          | none ↦ global_slots globals (put g.name (scalar (some (pos 0))) scope)
          | some size ↦ elim (zeros size) [
            | none ↦ none
            | some values ↦ global_slots globals (put g.name (array values) scope)
          ]
        ])
    sized next none h = next (scalar (some (pos 0))) (ground arith)
    sized next (some size) h = made next (zeros size) (zeros-Fits size h) (zeros_all size)

-- The interpreter of the syntax tree always ends on a program whose literals are 32-bit integers
-- and whose array sizes are non-negative ones: with a 32-bit value, where the cycles are within the
-- limit, every frame is closed and every slot holds 32-bit values, or with a trap.
pub interpret-Ended :
    (program : Program) → ProgramFits program → Ended IsI32 0 0 (interpret program)
unfolding interpret
interpret-Ended program fits =
    let (globals_fit, _) = fits in
    started (global_slots program.globals []) (global_slots-Given program.globals [] globals_fit tt)
  where
    started :
        (slots : Option Scope)
        → Given slots
        → Ended IsI32 0 0 (elim slots [
          | none ↦ panic
          | some globals ↦
              run_main program (record { globals = globals; frames = []; output = []; cycles = 0 })
        ])
    started none h = absurd h
    started (some globals) h =
        (run_main-Ends program fits).ends _ (omega arith, omega arith, refl, (h, tt))
