-- ===== src/Verifier/Run/Verified.antt =====
-- src/verifier.rs with src/vm.rs: `verify`, then `run`.
use minilang_rs.Prelude.{
  ℕ, ◌+◌, ◌<◌, ◌≡◌, refl, sym, ◌∙◌, true, ◌⊎◌, inl, inr, List, [], none, some, some-injective,
  arith, lookup, ltb, Bool-cases, length-replicate,
}
use mathlib.Core.Path.{subst}
use minilang_rs.Limits.{max_local_slots, max_global_slots, usize_max}
use minilang_rs.Prelude.Int.{pos}
use minilang_rs.Bytecode.{FunctionInfo, CompiledProgram}
use minilang_rs.Vm.State.{TrapCode, new}
use minilang_rs.Vm.Run.{
  VmResult, make_trap_result, Ending, finished, panicked, initial_frame, start_main,
  with_max_cycles, run, validate_functions,
}
use minilang_rs.Vm.Bounds.Calls.{validate_functions-lookup}
use minilang_rs.Vm.Bounds.Total.{
  initial_frame-IsRunning, validate_functions-of_program, RunEnds, run_total,
}
use minilang_rs.Verifier.Metadata.{function_ranges}
use minilang_rs.Verifier.Program.Certified.{Oversized}
use minilang_rs.Verifier.Program.{VerificationReport, verify, program_errors}
use minilang_rs.Verifier.Program.Valid.{IsVerified, verify_total}
use minilang_rs.Verifier.Run.Callers.{bottom, IsSafe, safe, Admitted}
use minilang_rs.Verifier.Run.Instruction.{entry_StandsAt}
use minilang_rs.Verifier.Run.Loop.{run_loop-Admitted}

pub verify-IsVerified :
    (program : CompiledProgram) (report : VerificationReport)
    → verify program ≡ some report
    → report.valid ≡ true
    → IsVerified program report.possible_traps
verify-IsVerified program report e valid = from (verify_total program)
  where
    from :
        (Oversized (function_ranges program (program_errors program)).0 × (verify program ≡ none))
          ⊎ ((report' : VerificationReport) × (verify program ≡ some report')
              × (report'.valid ≡ true → IsVerified program report'.possible_traps))
        → IsVerified program report.possible_traps
    from (inl (big, panics)) = absurd (cc (sym panics ∙ e))
    from (inr (report', e', means)) = pass (some-injective _ _ (sym e' ∙ e)) means
      where
        pass :
            report' ≡ report
            → (report'.valid ≡ true → IsVerified program report'.possible_traps)
            → IsVerified program report.possible_traps
        pass same m = (rw same at m) valid

module _ (program : CompiledProgram) (traps : List TrapCode) (verified : IsVerified program traps)
    (main_func : FunctionInfo)
    (found : lookup program.main_func_id program.functions ≡ some main_func)
    (same_id : main_func.id ≡ program.main_func_id) (limit : ℕ) where
  valid : validate_functions program.functions ≡ none
  valid = validate_functions-of_program program verified.validated

  -- The first frame of main.
  initial_frame-IsSafe : IsSafe program traps (initial_frame main_func (with_max_cycles limit new))
  unfolding initial_frame with_max_cycles new
  initial_frame-IsSafe =
      safe main_func (record { return_pc = usize_max; base_ptr = 0; func_id = main_func.id }) [] 0 0
        (record {
          at_pc = refl;
          calls = refl;
          known = subst (λ i. lookup i program.functions ≡ some main_func) (sym same_id) found;
          frame_fits = omega (
            arith,
            (validate_functions-lookup program.main_func_id program.functions main_func valid
                found).1,
          );
          locals_fit = rw length-replicate (omega arith);
          globals_fit = length-replicate max_global_slots (pos 0);
          depth_fits = omega arith;
        })
        (entry_StandsAt program traps verified program.main_func_id main_func found) bottom

  start_main-Admitted :
      (r : VmResult)
      → 0 < limit
      → start_main program (some main_func) (with_max_cycles limit new) ≡ some (finished r)
      → Admitted program traps r.trap_code
  unfolding start_main make_trap_result with_max_cycles
  start_main-Admitted r positive e = elim (Bool-cases (ltb max_local_slots main_func.local_count)) [
    | inl big ↦ absurd (
        ground (
          arith,
          (validate_functions-lookup program.main_func_id program.functions main_func valid
              found).1,
        ))
    | inr fits ↦
        run_loop-Admitted program traps verified valid limit positive (limit + 1)
          (initial_frame main_func (with_max_cycles limit new)) r
          (initial_frame-IsRunning limit main_func) initial_frame-IsSafe
          (rw (fits, start_main) at e)
  ]

-- What the end of a run is where the program is verified.
abbrev pub EndsAdmitted : CompiledProgram → List TrapCode → Ending → Type 0
EndsAdmitted program traps (finished r) = Admitted program traps r.trap_code
EndsAdmitted program traps panicked = Unit

-- A program with a valid report, whose main function carries the number under which it is found,
-- runs to an end under every positive cycle limit. It ends with a result within the limits whose
-- trap is the cycle limit, a full stack, a division or an index that the report lists, a local
-- without a value, or a local that holds no array at an instruction for arrays in locals; never
-- with a missing operand, function or instruction. Or it panics where an instruction overflows.
pub verified_run :
    (program : CompiledProgram) (report : VerificationReport) (main_func : FunctionInfo) (limit : ℕ)
    → verify program ≡ some report
    → report.valid ≡ true
    → lookup program.main_func_id program.functions ≡ some main_func
    → main_func.id ≡ program.main_func_id
    → 0 < limit
    → (e : Ending) × (run program (with_max_cycles limit new) ≡ some e)
      × RunEnds program limit e
      × EndsAdmitted program report.possible_traps e
unfolding run
verified_run program report main_func limit verifies valid_report found same_id positive =
    let (e, ran, ends) = run_total program limit positive in (e, ran, ends, admitted e ran)
  where
    verified : IsVerified program report.possible_traps
    verified = verify-IsVerified program report verifies valid_report

    admitted :
        (e : Ending)
        → run program (with_max_cycles limit new) ≡ some e
        → EndsAdmitted program report.possible_traps e
    admitted panicked ran = tt
    admitted (finished r) ran =
        start_main-Admitted program report.possible_traps verified main_func found same_id limit r
          positive (rw (verified.validated, found, run) at ran)
