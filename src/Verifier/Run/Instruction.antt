-- ===== src/Verifier/Run/Instruction.antt =====
-- src/verifier.rs with src/vm.rs: one instruction of a run of a verified program.
use minilang_rs.Prelude.{
  ℕ, suc, ◌+◌, ◌-◌, ◌≤◌, ◌≡◌, refl, sym, ◌∙◌, some-injective, ap, Bool, true, false, ◌⊎◌, inl, inr,
  List, [], ◌∷◌, length, some, none, arith, lookup, get_elem?, contains, ◌==◌, if◌then◌else◌,
}
use minilang_rs.Limits.{usize_max}
use minilang_rs.Bytecode.{Instruction, FunctionInfo, CompiledProgram}
use minilang_rs.Vm.State.{TrapCode, Vm, CallFrame}
use minilang_rs.Vm.Execute.{execute_instruction}
use minilang_rs.Vm.Run.{validate_functions}
use minilang_rs.Vm.Post.{After, After-both, After-weaken}
use minilang_rs.Vm.Bounds.Helpers.{IsBounded}
use minilang_rs.Vm.Bounds.Step.{execute_instruction-Steps}
use minilang_rs.Verifier.Report.{Step, Log}
use minilang_rs.Verifier.Rules.{Recorded}
use minilang_rs.Verifier.Step.{pc_in_range}
use minilang_rs.Verifier.Raised.{raise, raise_step, step_instruction-raise}
use minilang_rs.Verifier.Certified.States.{Checked, checked}
use minilang_rs.Verifier.Program.Valid.{IsVerified}
use minilang_rs.Verifier.Program.Certified.{IsCertifiedFunction, certified_function}
use minilang_rs.Verifier.Sound.Machine.{Site, Runs, Runs-weaken}
use minilang_rs.Verifier.Sound.Follows.{
  MayTrap, full, division, outside, unset, no_reference, stray_reference, Follows, falls, jumps,
  enters, leaves, halts,
}
use minilang_rs.Verifier.Sound.Step.{step_instruction-Sound}
use minilang_rs.Verifier.Run.Callers.{
  StandsAt, stands, Callers, bottom, caller, site_of, IsSafe, safe, Admitted, full_stack,
  listed_division, listed_index, no_value, no_array,
}

-- Where the machine has entered a function, the step leaves an operand for its value.
enters_above :
    {site : Site} {step : Step} {vm : Vm} {frame : CallFrame}
    → Follows site step false vm
    → vm.call_stack ≡ frame ∷ site.frame ∷ site.frames
    → 1 ≤ step.state.stack_depth
enters_above (jumps target c h) e = absurd (omega (arith, ap length e, ap length h.calls))
enters_above (enters callee frame depth found ret next same h) e = omega arith
enters_above (leaves calls pc fits) e = absurd (omega (arith, ap length e, ap length calls))
enters_above (halts calls) e = absurd (omega (arith, ap length e, ap length calls))

module _ (program : CompiledProgram) (traps : List TrapCode) where
  -- After an instruction: no frame is left, or the machine is safe where it goes on.
  abbrev pub Continues : Bool → Vm → Type 0
  Continues advance vm =
      (vm.call_stack ≡ [])
      ⊎ IsSafe program traps (if advance then record vm { pc = vm.pc + 1 } else vm)

  admitted :
      (pc : ℕ) (instr : Instruction) (log : Log)
      → get_elem? program.instructions pc ≡ some instr
      → Recorded log.possible_traps traps
      → (code : TrapCode) → MayTrap instr.opcode log code
      → Admitted program traps code
  admitted pc instr log found noted code full = full_stack
  admitted pc instr log found noted code (division e) = listed_division (noted _ e)
  admitted pc instr log found noted code (outside e) = listed_index (noted _ e)
  admitted pc instr log found noted code (unset e) = no_value
  admitted pc instr log found noted code (no_reference e) = no_value
  admitted pc instr log found noted code (stray_reference e) = no_array pc instr found e

  -- There is an instruction where the verifier has been.
  pub found_at :
      (info : FunctionInfo) (pc depth : ℕ)
      → StandsAt program traps info pc depth
      → (instr : Instruction) × (get_elem? program.instructions pc ≡ some instr)
  found_at info pc depth (stands range states own cert more same fits h) =
      from (cert.all_checked pc depth h)
    where
      from :
          Checked program range states own pc depth
          → (instr : Instruction) × (get_elem? program.instructions pc ≡ some instr)
      from (checked instr state log log' step found same' accepts room nexts noted) = (instr, found)

module _ (program : CompiledProgram) (traps : List TrapCode)
    (verified : IsVerified program traps) where
  -- A return address is a place in the code, not the mark of the first frame.
  return_pc-ne :
      {info : FunctionInfo} (pc depth : ℕ)
      → StandsAt program traps info pc depth
      → pc == usize_max ≡ false
  unfolding pc_in_range
  return_pc-ne pc depth (stands range states own cert noted same fits h) =
      ground (arith, cert.inside pc depth h, verified.code_fits)

  pub entry_StandsAt :
      (id : ℕ) (info : FunctionInfo)
      → lookup id program.functions ≡ some info
      → StandsAt program traps info info.entry_pc 0
  entry_StandsAt id info found = from (verified.functions_certified id info found)
    where
      from : IsCertifiedFunction program traps info → StandsAt program traps info info.entry_pc 0
      from (certified_function range states own cert noted same start fits) =
          stands range states own cert noted same fits (rw (← start) cert.entry)

  returned :
      (frame : CallFrame) (frames : List CallFrame) (below : ℕ) (pc : ℕ) (vm : Vm)
      → Callers program traps frame frames below
      → IsBounded vm
      → vm.call_stack ≡ frames
      → vm.pc ≡ (if frame.return_pc == usize_max then pc else frame.return_pc)
      → suc below ≤ length vm.stack
      → Continues program traps false vm
  returned frame frames below pc vm bottom bounded calls at_pc fits = inl calls
  returned frame frames below pc vm
        (caller {g = g} {frames = gs} info depth rest known frame_fits there callers) bounded calls
        at_pc fits =
      inr (
        safe info g gs (suc depth) rest
          (record {
            at_pc = refl;
            calls = calls;
            known = known;
            frame_fits = frame_fits;
            locals_fit = bounded.locals_fit;
            globals_fit = bounded.globals_fit;
            depth_fits = omega (arith, fits);
          })
          (rw here there) callers)
    where
      here : vm.pc ≡ frame.return_pc
      here = rw (return_pc-ne frame.return_pc (suc depth) there) at at_pc

module _ {program : CompiledProgram} {info : FunctionInfo} {frame : CallFrame}
    {frames : List CallFrame} {pc depth : ℕ} {vm : Vm} where
  -- A site has the machine's own counter.
  at_own_pc :
      Runs (site_of program info frame frames pc) depth vm
      → Runs (site_of program info frame frames vm.pc) depth vm
  at_own_pc h = record {
    at_pc = refl;
    calls = h.calls;
    known = h.known;
    frame_fits = h.frame_fits;
    locals_fit = h.locals_fit;
    globals_fit = h.globals_fit;
    depth_fits = h.depth_fits;
  }

  advanced :
      Runs (site_of program info frame frames pc) depth vm
      → Runs (site_of program info frame frames (vm.pc + 1)) depth (record vm { pc = vm.pc + 1 })
  advanced h = record {
    at_pc = refl;
    calls = h.calls;
    known = h.known;
    frame_fits = h.frame_fits;
    locals_fit = h.locals_fit;
    globals_fit = h.globals_fit;
    depth_fits = h.depth_fits;
  }

module _ (program : CompiledProgram) (traps : List TrapCode) (verified : IsVerified program traps)
    (info : FunctionInfo) (frame : CallFrame) (frames : List CallFrame) (depth below : ℕ) (vm : Vm)
    (h : Runs (site_of program info frame frames vm.pc) (depth + below) vm)
    (callers : Callers program traps frame frames below) where
  -- Where the step leads, the machine is safe.
  Follows-Continues :
      (step : Step)
      → ((s : ℕ)
          → contains s step.successors ≡ true
          → StandsAt program traps info s step.state.stack_depth)
      → (advance : Bool) (vm' : Vm)
      → Follows (site_of program info frame frames vm.pc) step advance vm'
      → Follows (site_of program info frame frames vm.pc) (raise_step below step) advance vm'
      → IsBounded vm'
      → Continues program traps advance vm'
  Follows-Continues step nexts advance vm' low (falls c h') bounded = inr (
      safe info frame frames step.state.stack_depth below (advanced h')
        (rw h'.at_pc (nexts (vm.pc + 1) c)) callers)
  Follows-Continues step nexts advance vm' low (jumps target c h') bounded = inr (
      safe info frame frames step.state.stack_depth below (at_own_pc h')
        (rw h'.at_pc (nexts target c)) callers)
  Follows-Continues step nexts advance vm' low (enters callee frame' d found ret c same h')
        bounded =
      inr (
        safe callee frame' (frame ∷ frames) 0 (step.state.stack_depth - 1 + below)
          (Runs-weaken d (0 + (step.state.stack_depth - 1 + below)) (at_own_pc h')
            (ground (arith, above)))
          (rw h'.at_pc (entry_StandsAt program traps verified frame'.func_id callee found))
          (caller info (step.state.stack_depth - 1) below h.known h.frame_fits
            (rw (ret, whole) (nexts (vm.pc + 1) c)) callers))
    where
      above : 1 ≤ step.state.stack_depth
      above = enters_above low h'.calls

      whole : suc (step.state.stack_depth - 1) ≡ step.state.stack_depth
      whole = omega (arith, above)
  Follows-Continues step nexts advance vm' low (leaves calls pc fits) bounded =
      returned program traps verified frame frames below vm.pc vm' callers bounded calls pc
        (omega arith)
  Follows-Continues step nexts advance vm' low (halts calls) bounded = inl calls

  -- One instruction of a safe machine.
  pub instruction-Continues :
      (valid : validate_functions program.functions ≡ none) (instr : Instruction)
      → get_elem? program.instructions vm.pc ≡ some instr
      → IsBounded vm
      → StandsAt program traps info vm.pc depth
      → After
          (Continues program traps)
          (λ code _. Admitted program traps code)
          Unit
          (execute_instruction program instr.opcode instr.arg1 instr.arg2 vm)
  instruction-Continues valid instr found bounded
        (stands range states own cert more same_info fits here) =
      from (cert.all_checked vm.pc depth here)
    where
      from :
          Checked program range states own vm.pc depth
          → After
              (Continues program traps)
              (λ code _. Admitted program traps code)
              Unit
              (execute_instruction program instr.opcode instr.arg1 instr.arg2 vm)
      from (checked instr' state log log' step found' same accepts room nexts noted) =
          rw (← instr_eq) outcome
        where
          instr_eq : instr' ≡ instr
          instr_eq = some-injective _ _ (sym found' ∙ found)

          outcome :
              After
                (Continues program traps)
                (λ code _. Admitted program traps code)
                Unit
                (execute_instruction program instr'.opcode instr'.arg1 instr'.arg2 vm)
          outcome =
              After-weaken
                (After-both
                  (After-both
                    (step_instruction-Sound (site_of program info frame frames vm.pc) range
                      instr'.opcode instr'.arg1 instr'.arg2 state log log' step vm same_info valid
                      accepts
                      (Runs-weaken (depth + below) state.stack_depth h (omega (arith, same))))
                    (step_instruction-Sound (site_of program info frame frames vm.pc) range
                      instr'.opcode instr'.arg1 instr'.arg2 (raise below state) log log'
                      (raise_step below step) vm same_info valid
                      (step_instruction-raise below program range vm.pc instr'.opcode instr'.arg1
                        instr'.arg2 state log log' step accepts)
                      (rw same h)))
                  (execute_instruction-Steps program instr'.opcode instr'.arg1 instr'.arg2 vm valid
                    bounded (λ e. cc (h.calls))))
                (λ advance vm' q.
                  Follows-Continues step
                    (λ s c. stands range states own cert more same_info fits (nexts s c).1) advance
                    vm' q.0.0 q.0.1 q.1.bounded)
                (λ code vm' q.
                  admitted program traps vm.pc instr' log' found' (λ t e. more t (noted t e)) code
                    q.0.0)
                (λ _. tt)
