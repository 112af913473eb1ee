-- ===== src/Verifier/Program/Valid.antt =====
-- src/verifier.rs: the end of `verify`, and the meaning of a valid report.
use minilang_rs.Prelude.{
  ℕ, ◌≤◌, ◌≡◌, ◌≢◌, refl, true, false, List, [], ◌∷◌, Option, none, some, arith, length, ltb,
  lookup, Bool-cases, inl, inr, ◌⊎◌,
}
use minilang_rs.Limits.{max_instructions}
use minilang_rs.Bytecode.{FunctionInfo, CompiledProgram}
use minilang_rs.Vm.State.{TrapCode}
use minilang_rs.Verifier.Rules.{Recorded}
use minilang_rs.Verifier.Metadata.Coverage.{HasRange, function_ranges-HasRange}
use minilang_rs.Verifier.Report.{VerificationError}
use minilang_rs.Verifier.Reports.{append-ne-nil}
use minilang_rs.Verifier.Metadata.{function_ranges}
use minilang_rs.Verifier.Metadata.Layout.{IsLaidOut, verify_global_metadata-IsLaidOut}
use minilang_rs.Verifier.Metadata.Ranges.{AllWithin, Consecutive}
use minilang_rs.Verifier.Metadata.Functions.{
  function_ranges-AllWithin, function_ranges-clean, function_ranges-Consecutive,
}
use minilang_rs.Verifier.Frames.{max_frame_depth}
use minilang_rs.Verifier.Frames.Ends.{max_frame_depth_total}
use minilang_rs.Verifier.Program.{
  VerificationReport, Checks, verify_ranges, program_errors, report_of, finish, verify, is_empty,
  is_none,
}
use minilang_rs.Verifier.Program.Ends.{function_ranges-AllEnd}
use minilang_rs.Verifier.Program.Certified.{
  AllCertified, AllCertified-more, Allocatable, Oversized, Allocatable-or_not, verify_ranges-panics,
  frame_traps-old, verify_ranges-ends, IsCertifiedFunction, certified_range,
}
use minilang_rs.Verifier.Program.Validated.{verified_valid}
use minilang_rs.Vm.Run.{validate_program}

is_empty_eq : (xs : List VerificationError) → is_empty xs ≡ true → xs ≡ []
is_empty_eq [] e = refl
is_empty_eq (x ∷ xs) e = absurd (cc e)

module _ (program : CompiledProgram) where
  program_errors-clean :
      program_errors program ≡ []
      → IsLaidOut program.globals
        × (lookup program.main_func_id program.functions ≢ none)
        × (length program.instructions ≤ max_instructions)
  unfolding program_errors
  program_errors-clean clean =
      go (Bool-cases (ltb max_instructions (length program.instructions)))
        (Bool-cases (is_none (lookup program.main_func_id program.functions)))
        (Bool-cases (is_empty program.functions))
    where
      go :
          (ltb max_instructions (length program.instructions) ≡ true)
            ⊎ (ltb max_instructions (length program.instructions) ≡ false)
          → (is_none (lookup program.main_func_id program.functions) ≡ true)
            ⊎ (is_none (lookup program.main_func_id program.functions) ≡ false)
          → (is_empty program.functions ≡ true) ⊎ (is_empty program.functions ≡ false)
          → IsLaidOut program.globals
            × (lookup program.main_func_id program.functions ≢ none)
            × (length program.instructions ≤ max_instructions)
      go (inl a) b c = absurd (append-ne-nil _ _ (rw (a, program_errors) at clean))
      go (inr a) (inl b) c = absurd (append-ne-nil _ _ (rw (a, b, program_errors) at clean))
      go (inr a) (inr b) (inl c) =
          absurd (append-ne-nil _ _ (rw (a, b, c, program_errors) at clean))
      go (inr a) (inr b) (inr c) = (
        verify_global_metadata-IsLaidOut program.globals [] (rw (a, b, c, program_errors) at clean),
        λ gone. ground (arith),
        ground arith,
      )

  -- What a valid report with the given traps says of the program.
  pub record IsVerified (traps : List TrapCode) : Type 0 where
    pub globals_laid_out : IsLaidOut program.globals
    pub has_main : lookup program.main_func_id program.functions ≢ none
    pub code_fits : length program.instructions ≤ max_instructions
    pub ranges_within :
        AllWithin (length program.instructions) (function_ranges program (program_errors program)).0
    pub ranges_consecutive :
        Consecutive
          (length program.instructions)
          (function_ranges program (program_errors program)).0
    pub functions_ranged :
        (id : ℕ) (info : FunctionInfo)
        → lookup id program.functions ≡ some info
        → HasRange info (function_ranges program (program_errors program)).0
    pub all_certified :
        AllCertified program traps (function_ranges program (program_errors program)).0
    pub validated : validate_program program ≡ none
    pub functions_certified :
        (id : ℕ) (info : FunctionInfo)
        → lookup id program.functions ≡ some info
        → IsCertifiedFunction program traps info

  abbrev Reported : Type 0
  Reported =
      (report : VerificationReport) × (verify program ≡ some report)
      × (report.valid ≡ true → IsVerified report.possible_traps)

  verify-Reported : Allocatable (function_ranges program (program_errors program)).0 → Reported
  unfolding verify finish report_of
  verify-Reported fits =
      let (final, ran, _, certified) =
        verify_ranges-ends program (function_ranges program (program_errors program)).0
          (record {
            errors = (function_ranges program (program_errors program)).1;
            possible_traps = [];
            call_edges = [];
            functions = [];
          })
          fits (function_ranges-AllEnd program (program_errors program)) in
      let (depth, found, _) = max_frame_depth_total program.main_func_id final.call_edges in
      (
        report_of program depth final,
        joined final depth ran found,
        λ valid.
            of_clean final.possible_traps _ (frame_traps-old depth final.possible_traps)
              (certified (is_empty_eq final.errors valid)),
      )
    where
      joined :
          (final : Checks) (depth : Option ℕ)
          → verify_ranges program (function_ranges program (program_errors program)).0 (record {
            errors = (function_ranges program (program_errors program)).1;
            possible_traps = [];
            call_edges = [];
            functions = [];
          })
            ≡ some final
          → max_frame_depth program.main_func_id final.call_edges ≡ some depth
          → verify program ≡ some (report_of program depth final)
      joined final depth ran found = rw (ran, verify, finish, found) refl

      of_clean :
          (traps traps' : List TrapCode)
          → Recorded traps traps'
          → ((function_ranges program (program_errors program)).1 ≡ [])
            × (AllWithin
                  (length program.instructions)
                  (function_ranges program (program_errors program)).0
                → AllCertified program traps (function_ranges program (program_errors program)).0)
          → IsVerified traps'
      of_clean traps traps' more (clean, certify) =
          let (laid, main, fits) =
            program_errors-clean (function_ranges-clean program (program_errors program) clean) in
          let within = function_ranges-AllWithin program (program_errors program) clean in
          let all = AllCertified-more program traps traps' more _ (certify within) in
          record {
            globals_laid_out = laid;
            has_main = main;
            code_fits = fits;
            ranges_within = within;
            ranges_consecutive = function_ranges-Consecutive program (program_errors program);
            functions_ranged = λ id info found.
                function_ranges-HasRange program (program_errors program) id info clean found;
            all_certified = all;
            validated = verified_valid program (program_errors program) fits laid clean;
            functions_certified = λ id info found.
                certified_range program traps' _ info within all
                  (function_ranges-HasRange program (program_errors program) id info clean found);
          }

  -- `verify` panics where a function that starts within the code has more locals than a vector can
  -- hold, and gives a report for every other program. Where the report is valid, the globals are
  -- laid out without overlap, the main function is there, the code is within its limit, each
  -- function has a range that starts at its entry, the ranges follow each other up to the end of
  -- the code without being empty or overlapping, and each function is certified by its own run of
  -- the worklist, with its traps among those of the report.
  pub verify_total :
      (Oversized (function_ranges program (program_errors program)).0 × (verify program ≡ none))
      ⊎ ((report : VerificationReport) × (verify program ≡ some report)
          × (report.valid ≡ true → IsVerified report.possible_traps))
  unfolding verify
  verify_total = elim (Allocatable-or_not (function_ranges program (program_errors program)).0) [
    | inl big ↦ inl (big, rw (verify, verify_ranges-panics program _ _ big) refl)
    | inr fits ↦ inr (verify-Reported fits)
  ]
