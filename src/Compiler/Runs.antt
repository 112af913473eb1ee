-- ===== src/Compiler/Runs.antt =====
-- src/compiler.rs with src/verifier.rs and src/vm.rs: the run of a compiled program.
use minilang_rs.Prelude.{ℕ, ◌<◌, ◌≡◌, true, Option, none, some, refl, lookup}
use minilang_rs.Bytecode.{FunctionInfo, CompiledProgram}
use minilang_rs.Ast.{Program}
use minilang_rs.Vm.State.{new}
use minilang_rs.Vm.Run.{Ending, run, with_max_cycles}
use minilang_rs.Vm.Bounds.Total.{RunEnds}
use minilang_rs.Verifier.Program.{VerificationReport, verify}
use minilang_rs.Verifier.Run.Verified.{EndsAdmitted, verified_run, verify-IsVerified}
use minilang_rs.Compiler.Program.{compile}
use minilang_rs.Compiler.Jumps.Programs.{compile-AllPlaced}

-- A compiled program with a valid report runs to an end under every positive cycle limit: with a
-- result within the limits, whose trap is one that a verified program may end with, or with a
-- panic where an instruction overflows.
pub compiled_run :
    (program : Program) (compiled : CompiledProgram) (report : VerificationReport) (limit : ℕ)
    → compile program ≡ some compiled
    → verify compiled ≡ some report
    → report.valid ≡ true
    → 0 < limit
    → (e : Ending) × (run compiled (with_max_cycles limit new) ≡ some e)
      × RunEnds compiled limit e
      × EndsAdmitted compiled report.possible_traps e
compiled_run program compiled report limit compiles verifies valid positive =
    go (lookup compiled.main_func_id compiled.functions) refl
  where
    go :
        (f : Option FunctionInfo)
        → lookup compiled.main_func_id compiled.functions ≡ f
        → (e : Ending) × (run compiled (with_max_cycles limit new) ≡ some e)
          × RunEnds compiled limit e
          × EndsAdmitted compiled report.possible_traps e
    go none gone = absurd ((verify-IsVerified compiled report verifies valid).has_main gone)
    go (some main_func) found =
        verified_run compiled report main_func limit verifies valid found
          (compile-AllPlaced program compiled compiles compiled.main_func_id main_func found).0
          positive
