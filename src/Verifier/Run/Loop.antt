-- ===== src/Verifier/Run/Loop.antt =====
-- src/verifier.rs with src/vm.rs: the whole run of a program that `verify` accepts.
use minilang_rs.Prelude.{
  ℕ, zero, suc, ◌+◌, ◌<◌, ◌≡◌, refl, Bool, true, false, ◌⊎◌, inl, inr, List, [], ◌∷◌, Option, none,
  some, get_elem?, ltb, leb, ◌&&◌, Bool-cases,
}
use minilang_rs.Bytecode.{Instruction, CompiledProgram}
use minilang_rs.Vm.State.{TrapCode, Vm, Outcome, ok, trap, panic, CallFrame}
use minilang_rs.Vm.Execute.{execute_instruction}
use minilang_rs.Vm.Run.{
  VmResult, make_result, make_trap_result, Round, again, done, crash, after_instruction, settle,
  execute_at, round, finished, run_loop, validate_functions,
}
use minilang_rs.Vm.Post.{After, returns, traps as trapped}
use minilang_rs.Vm.Bounds.Helpers.{IsBounded}
use minilang_rs.Vm.Bounds.Loop.{IsRunning, RoundKeeps, round-Keeps}
use minilang_rs.Verifier.Program.Valid.{IsVerified}
use minilang_rs.Verifier.Run.Callers.{IsSafe, safe, Admitted, value, exhausted}
use minilang_rs.Verifier.Run.Instruction.{Continues, instruction-Continues, found_at}

finished_eq : (r r' : VmResult) → some (finished r) ≡ some (finished r') → r ≡ r'
finished_eq r r' e = cc e

module _ (program : CompiledProgram) (traps : List TrapCode) (verified : IsVerified program traps)
    (valid : validate_functions program.functions ≡ none) where
  -- A round keeps the machine safe, or ends as a verified program may.
  abbrev Leads : Round → Type 0
  Leads (again vm) = IsSafe program traps vm
  Leads (done r) = Admitted program traps r.trap_code
  Leads crash = Unit

  after_instruction-Leads :
      (frames : List CallFrame) (vm : Vm)
      → vm.call_stack ≡ frames
      → (vm.call_stack ≡ []) ⊎ IsSafe program traps vm
      → Leads (after_instruction frames vm)
  unfolding after_instruction make_result
  after_instruction-Leads [] vm e h = value
  after_instruction-Leads (f ∷ fs) vm e (inl none_left) = absurd (cc none_left)
  after_instruction-Leads (f ∷ fs) vm e (inr h) = h

  settle-Leads :
      (o : Outcome Bool)
      → After (Continues program traps) (λ code _. Admitted program traps code) Unit o
      → Leads (settle o)
  unfolding settle make_trap_result
  settle-Leads (ok true vm) (returns h) =
      after_instruction-Leads vm.call_stack (record vm { pc = vm.pc + 1 }) refl h
  settle-Leads (ok false vm) (returns h) = after_instruction-Leads vm.call_stack vm refl h
  settle-Leads (trap code vm) (trapped h) = h
  settle-Leads panic h = tt

  -- The machine with one cycle more is as safe.
  ticked :
      {vm : Vm}
      → IsSafe program traps vm
      → IsSafe program traps (record vm { cycles = vm.cycles + 1 })
  ticked (safe info frame frames depth below h there callers) =
      safe info frame frames depth below
        (record {
          at_pc = h.at_pc;
          calls = h.calls;
          known = h.known;
          frame_fits = h.frame_fits;
          locals_fit = h.locals_fit;
          globals_fit = h.globals_fit;
          depth_fits = h.depth_fits;
        })
        there callers

  execute_at-Leads :
      (vm : Vm) (instr : Option Instruction)
      → get_elem? program.instructions vm.pc ≡ instr
      → IsBounded vm
      → IsSafe program traps vm
      → Leads (execute_at program instr vm)
  unfolding execute_at make_trap_result
  execute_at-Leads vm none e bounded (safe info frame frames depth below h there callers) =
      let (instr, found) = found_at program traps info vm.pc depth there in absurd (cc (e, found))
  execute_at-Leads vm (some instr) e bounded h = from (ticked h)
    where
      from :
          IsSafe program traps (record vm { cycles = vm.cycles + 1 })
          → Leads (
              settle (
                execute_instruction program instr.opcode instr.arg1 instr.arg2
                  (record vm { cycles = vm.cycles + 1 })))
      from (safe info frame frames depth below h' there callers) = settle-Leads _ (
          instruction-Continues program traps verified info frame frames depth below
            (record vm { cycles = vm.cycles + 1 }) h' callers valid instr e
            (record {
              stack_fits = bounded.stack_fits;
              locals_fit = bounded.locals_fit;
              globals_fit = bounded.globals_fit;
              frames_fit = bounded.frames_fit;
            })
            there)

  round-Leads : (vm : Vm) → IsBounded vm → IsSafe program traps vm → Leads (round program vm)
  unfolding round make_trap_result
  round-Leads vm bounded h =
      elim (Bool-cases (ltb 0 vm.max_cycles && leb vm.max_cycles vm.cycles)) [
        | inl stop ↦ rw (stop, round) exhausted
        | inr go ↦ rw (go, round) (execute_at-Leads vm _ refl bounded h)
      ]

  pub run_loop-Admitted :
      (limit : ℕ)
      → 0 < limit
      → (fuel : ℕ) (vm : Vm) (r : VmResult) → IsRunning limit vm
      → IsSafe program traps vm
      → run_loop program fuel vm ≡ some (finished r)
      → Admitted program traps r.trap_code
  unfolding run_loop
  run_loop-Admitted limit pos_limit zero vm r running h e = absurd (cc e)
  run_loop-Admitted limit pos_limit (suc fuel) vm r running h e =
      go (λ vm'. run_loop-Admitted limit pos_limit fuel vm' r) (round program vm) refl
        (round-Keeps program valid limit vm pos_limit running) (round-Leads vm running.bounded h)
    where
      go :
          ((vm' : Vm)
            → IsRunning limit vm'
            → IsSafe program traps vm'
            → run_loop program fuel vm' ≡ some (finished r)
            → Admitted program traps r.trap_code)
          → (result : Round) → round program vm ≡ result
          → RoundKeeps program limit vm result
          → Leads result
          → Admitted program traps r.trap_code
      go rest (again vm') e' (kept, _) leads = rest vm' kept leads (rw (e', run_loop) at e)
      go rest (done r') e' kept leads = rw (← finished_eq r' r (rw (e', run_loop) at e)) leads
      go rest crash e' kept leads = absurd (cc (rw (e', run_loop) at e))
