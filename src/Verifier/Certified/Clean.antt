-- ===== src/Verifier/Certified/Clean.antt =====
-- src/verifier.rs: the errors of a run of the worklist.
use minilang_rs.Prelude.{some-injective, ℕ, zero, suc, ◌≡◌, refl, List, [], ◌∷◌, Option, none, some}
use minilang_rs.Bytecode.{CompiledProgram}
use minilang_rs.Verifier.Report.{FunctionRange}
use minilang_rs.Verifier.Function.{Work, process, run_worklist}
use minilang_rs.Verifier.Certified.Loop.{process-Processed, Processed-clean}

module _ (program : CompiledProgram) (range : FunctionRange) where
  -- A run without an error at its end had none before.
  pub run_worklist-clean :
      (fuel : ℕ) (work final : Work)
      → run_worklist program range fuel work ≡ some final
      → final.log.errors ≡ []
      → work.log.errors ≡ []
  unfolding run_worklist
  run_worklist-clean zero work final result clean = absurd (cc result)
  run_worklist-clean (suc fuel) work final result clean =
      go (λ w r. run_worklist-clean fuel w final r clean) work.worklist refl
    where
      Later : Type 0
      Later = (w : Work) → run_worklist program range fuel w ≡ some final → w.log.errors ≡ []

      go : Later → (todo : List ℕ) → work.worklist ≡ todo → work.log.errors ≡ []
      go later [] e = rw (some-injective _ _ (rw (e, run_worklist) at result)) clean
      go later (pc ∷ rest) e =
          next (process program range pc (record work { worklist = rest })) refl
        where
          next :
              (r : Option Work)
              → process program range pc (record work { worklist = rest }) ≡ r
              → work.log.errors ≡ []
          next none e₂ = absurd (cc (rw (e, e₂, run_worklist) at result))
          next (some work') e₂ = Processed-clean program range (
              process-Processed program range pc (record work { worklist = rest }) work' e₂
                (later work' (rw (e, e₂, run_worklist) at result)))
