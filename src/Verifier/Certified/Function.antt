-- ===== src/Verifier/Certified/Function.antt =====
-- src/verifier.rs: the certificate from a run of the worklist of `verify_function`.
use minilang_rs.Prelude.{
  some-injective, ℕ, zero, suc, ◌≡◌, refl, true, false, ◌⊎◌, inl, inr, List, [], ◌∷◌, ◌==◌, ltb,
  Option, none, some, arith, contains, Bool-cases, ==_iff, ==_refl,
}
use mathlib.Core.Path.{subst}
use minilang_rs.Limits.{isize_max}
use minilang_rs.Bytecode.{CompiledProgram}
use minilang_rs.Verifier.Report.{FunctionRange}
use minilang_rs.Verifier.Step.{pc_in_range}
use minilang_rs.Verifier.Function.{
  Work, process, run_worklist, initial_work, start_work, verify_function, worklist_fuel,
  FunctionCheck, summarize, mark_params,
}
use minilang_rs.Verifier.Certified.States.{HasState, has, Checked, IsCertified}
use minilang_rs.Verifier.Certified.Clean.{run_worklist-clean}
use minilang_rs.Verifier.Certified.Locals.{AllFlow}
use minilang_rs.Verifier.Certified.Flow.{run_worklist-AllFlow, start_work-Flows}
use minilang_rs.Verifier.Certified.Loop.{
  Covers, Covers-IsCertified, process-Processed, Processed-Covers,
}

module _ (program : CompiledProgram) (range : FunctionRange) where
  pub run_worklist-IsCertified :
      (fuel : ℕ) (work final : Work)
      → Covers program range work.worklist work
      → run_worklist program range fuel work ≡ some final
      → final.log.errors ≡ []
      → IsCertified program range final.states final.log.possible_traps
  unfolding run_worklist
  run_worklist-IsCertified zero work final covers result clean = absurd (cc result)
  run_worklist-IsCertified (suc fuel) work final covers result clean =
      go (λ w c r. run_worklist-IsCertified fuel w final c r clean) work.worklist refl
    where
      Later : Type 0
      Later =
          (w : Work)
          → Covers program range w.worklist w
          → run_worklist program range fuel w ≡ some final
          → IsCertified program range final.states final.log.possible_traps

      go :
          Later
          → (todo : List ℕ) → work.worklist ≡ todo
          → IsCertified program range final.states final.log.possible_traps
      go later [] e =
          rw (← some-injective _ _ (rw (e, run_worklist) at result))
            (Covers-IsCertified program range work (rw (← e) covers))
      go later (pc ∷ rest) e =
          next (process program range pc (record work { worklist = rest })) refl
        where
          before : Covers program range (pc ∷ rest) (record work { worklist = rest })
          before = record {
            entry = covers.entry;
            inside = covers.inside;
            covered = λ q d h.
                subst
                  (λ l.
                    (contains q l ≡ true)
                    ⊎ Checked program range work.states work.log.possible_traps q d)
                  e (covers.covered q d h);
          }

          next :
              (r : Option Work)
              → process program range pc (record work { worklist = rest }) ≡ r
              → IsCertified program range final.states final.log.possible_traps
          next none e₂ = absurd (cc (rw (e, e₂, run_worklist) at result))
          next (some work') e₂ =
              let left = rw (e, e₂, run_worklist) at result in
              later work'
                (Processed-Covers program range
                  (process-Processed program range pc (record work { worklist = rest }) work' e₂
                    (run_worklist-clean program range fuel work' final left clean))
                  before)
                left

-- The map starts with the entry only.
initial_work-Covers :
    (program : CompiledProgram) (range : FunctionRange)
    → pc_in_range range range.start ≡ true
    → Covers program range (range.start ∷ []) (start_work range)
unfolding initial_work
initial_work-Covers program range inside = record {
  entry =
      has
        (record {
          stack_depth = 0;
          initialized_locals = mark_params range.info.local_count range.info.param_count;
        })
        (ground (arith, ==_refl range.start)) refl;
  inside = λ q d h. start_only q d h;
  covered = λ q d h. inl (at_start q d h);
}
  where
    at_start :
        (q d : ℕ) → HasState (start_work range).states q d → contains q (range.start ∷ []) ≡ true
    at_start q d (has st found same) = ground (arith)

    start_only : (q d : ℕ) → HasState (start_work range).states q d → pc_in_range range q ≡ true
    start_only q d h = go (Bool-cases (range.start == q))
      where
        go : (range.start == q ≡ true) ⊎ (range.start == q ≡ false) → pc_in_range range q ≡ true
        go (inl e) = rw (← (==_iff range.start q).0 e) inside
        go (inr e) = absurd (ground (arith, at_start q d h))

-- The check sums up the run of the worklist, whose state map is a certificate and whose states
-- agree along the steps on the locals that are initialized.
pub data Certifies (program : CompiledProgram) (range : FunctionRange) (check : FunctionCheck)
    : Type 0 where
  certifies :
      (work : Work)
      → run_worklist program range (worklist_fuel range) (start_work range) ≡ some work
      → summarize range work ≡ check
      → IsCertified program range work.states work.log.possible_traps
      → AllFlow program range work.states
      → Certifies program range check

-- A function that `verify_function` accepts has a certificate.
pub verify_function-Certifies :
    (program : CompiledProgram) (range : FunctionRange) (check : FunctionCheck)
    → pc_in_range range range.start ≡ true
    → verify_function program range ≡ some check
    → check.errors ≡ []
    → Certifies program range check
unfolding verify_function summarize
verify_function-Certifies program range check inside result clean =
    go (Bool-cases (ltb isize_max range.info.local_count))
      (run_worklist program range (worklist_fuel range) (start_work range)) refl
  where
    go :
        (ltb isize_max range.info.local_count ≡ true)
          ⊎ (ltb isize_max range.info.local_count ≡ false)
        → (r : Option Work)
        → run_worklist program range (worklist_fuel range) (start_work range) ≡ r
        → Certifies program range check
    go (inl a) r e = absurd (cc (rw (a, verify_function) at result))
    go (inr a) none e = absurd (cc (rw (a, e, verify_function) at result))
    go (inr a) (some final) e = from (some-injective _ _ (rw (a, e, verify_function) at result))
      where
        from : summarize range final ≡ check → Certifies program range check
        from same =
            certifies final e same
              (run_worklist-IsCertified program range (worklist_fuel range) (start_work range) final
                (initial_work-Covers program range inside) e (ground (arith, clean, same)))
              (run_worklist-AllFlow program range (worklist_fuel range) (start_work range) final
                (start_work-Flows program range) e (ground (arith, clean, same)))
