-- ===== src/Verifier/Program/Certified.antt =====
-- src/verifier.rs: the certificates from the loop of `verify` over the ranges.
use minilang_rs.Prelude.{
  ℕ, ◌≤◌, ◌<◌, ◌⊎◌, ltb→lt, lt→ltb, ◌≡◌, refl, List, [], ◌∷◌, ◌++◌, Option, none, some, arith,
  length, ltb, ◌==◌, Bool-cases, inl, inr,
}
use minilang_rs.Limits.{max_frames, isize_max}
use minilang_rs.Bytecode.{FunctionInfo, CompiledProgram}
use minilang_rs.Vm.State.{TrapCode, stack_overflow}
use minilang_rs.Verifier.Rules.{Recorded, contains_trap-push_trap, contains_trap-push_trap_same}
use minilang_rs.Verifier.Certified.States.{States, IsCertified}
use minilang_rs.Verifier.Metadata.Coverage.{HasRange, range_here, range_there}
use minilang_rs.Verifier.Report.{
  VerificationError, FunctionRange, discriminant, contains_trap, push_trap,
}
use minilang_rs.Verifier.Step.{pc_in_range}
use minilang_rs.Verifier.Function.{FunctionCheck, verify_function, summarize}
use minilang_rs.Verifier.Certified.Function.{Certifies, certifies, verify_function-Certifies}
use minilang_rs.Verifier.Total.Function.{verify_function-ends}
use minilang_rs.Verifier.Metadata.Ranges.{AllWithin}
use minilang_rs.Verifier.Program.{Checks, add_check, verify_ranges, push_traps, frame_traps}
use minilang_rs.Verifier.Program.Ends.{AllEnd}

append-eq-nil : (xs ys : List VerificationError) → xs ++ ys ≡ [] → (xs ≡ []) × (ys ≡ [])
append-eq-nil [] ys e = (refl, e)
append-eq-nil (x ∷ xs) ys e = absurd (cc e)

-- Every range has a certificate, whose traps are among `traps`.
abbrev pub AllCertified : CompiledProgram → List TrapCode → List FunctionRange → Type 0
AllCertified program traps [] = Unit
AllCertified program traps (r ∷ ranges) =
    ((check : FunctionCheck) × Certifies program r check × Recorded check.possible_traps traps)
    × AllCertified program traps ranges

pub push_traps-old : (new traps : List TrapCode) → Recorded traps (push_traps new traps)
unfolding push_traps
push_traps-old [] traps t h = h
push_traps-old (u ∷ new) traps t h =
    push_traps-old new (push_trap u traps) t (contains_trap-push_trap t u traps h)

push_traps-new : (new traps : List TrapCode) → Recorded new (push_traps new traps)
unfolding push_traps contains_trap
push_traps-new [] traps t h = absurd (cc h)
push_traps-new (u ∷ new) traps t h = elim (Bool-cases (discriminant u == discriminant t)) [
  | inl e ↦ push_traps-old new (push_trap u traps) t (contains_trap-push_trap_same t u traps e)
  | inr e ↦ push_traps-new new (push_trap u traps) t (ground (arith, h))
]

pub frame_traps-old :
    (depth : Option ℕ) (traps : List TrapCode) → Recorded traps (frame_traps depth traps)
unfolding frame_traps
frame_traps-old none traps t h = contains_trap-push_trap t stack_overflow traps h
frame_traps-old (some depth) traps t h = elim (Bool-cases (ltb max_frames depth)) [
  | inl e ↦ rw (e, frame_traps) (contains_trap-push_trap t stack_overflow traps h)
  | inr e ↦ rw (e, frame_traps) h
]

pub AllCertified-more :
    (program : CompiledProgram) (traps traps' : List TrapCode)
    → Recorded traps traps'
    → (ranges : List FunctionRange) → AllCertified program traps ranges
    → AllCertified program traps' ranges
AllCertified-more program traps traps' more [] h = tt
AllCertified-more program traps traps' more (r ∷ ranges) ((check, cert, noted), rest) = (
  (check, cert, λ t e. more t (noted t e)),
  AllCertified-more program traps traps' more ranges rest,
)

-- The locals of every function fit a vector.
abbrev pub Allocatable : List FunctionRange → Type 0
Allocatable [] = Unit
Allocatable (r ∷ ranges) = (r.info.local_count ≤ isize_max) × Allocatable ranges

-- The locals of some function do not.
pub data Oversized : List FunctionRange → Type 0 where
  too_big :
      {r : FunctionRange} {ranges : List FunctionRange}
      → isize_max < r.info.local_count
      → Oversized (r ∷ ranges)
  later_too_big :
      {r : FunctionRange} {ranges : List FunctionRange} → Oversized ranges → Oversized (r ∷ ranges)

pub Allocatable-or_not : (ranges : List FunctionRange) → Oversized ranges ⊎ Allocatable ranges
Allocatable-or_not [] = inr tt
Allocatable-or_not (r ∷ ranges) = elim (Bool-cases (ltb isize_max r.info.local_count)) [
  | inl big ↦ inl (too_big (ltb→lt _ _ big))
  | inr fits ↦ elim (Allocatable-or_not ranges) [
    | inl h ↦ inl (later_too_big h)
    | inr h ↦ inr (ground (arith, fits), h)
  ]
]

module _ (program : CompiledProgram) where
  -- The loop panics at a function whose locals do not fit a vector.
  pub verify_ranges-panics :
      (ranges : List FunctionRange) (checks : Checks)
      → Oversized ranges
      → verify_ranges program ranges checks ≡ none
  unfolding verify_ranges verify_function
  verify_ranges-panics [] checks h = elim h [ ]
  verify_ranges-panics (r ∷ ranges) checks (too_big big) =
      rw (lt→ltb isize_max r.info.local_count big, verify_ranges, verify_function) refl
  verify_ranges-panics (r ∷ ranges) checks (later_too_big h) =
      go (λ c. verify_ranges-panics ranges c h) (verify_function program r) refl
    where
      go :
          ((c : Checks) → verify_ranges program ranges c ≡ none)
          → (found : Option FunctionCheck) → verify_function program r ≡ found
          → verify_ranges program (r ∷ ranges) checks ≡ none
      go later none e = rw (e, verify_ranges) refl
      go later (some check) e = rw (e, verify_ranges) (later (add_check check checks))

  -- The loop over the ranges ends; without errors at its end, there were none, and the ranges
  -- are certified.
  pub verify_ranges-ends :
      (ranges : List FunctionRange) (checks : Checks)
      → Allocatable ranges
      → AllEnd (length program.instructions) ranges
      → (final : Checks) × (verify_ranges program ranges checks ≡ some final)
        × Recorded checks.possible_traps final.possible_traps
        × (final.errors ≡ []
            → (checks.errors ≡ [])
              × (AllWithin (length program.instructions) ranges
                  → AllCertified program final.possible_traps ranges))
  unfolding verify_ranges add_check pc_in_range
  verify_ranges-ends [] checks fits ends = (checks, refl, λ t h. h, λ clean. (clean, λ _. tt))
  verify_ranges-ends (r ∷ ranges) checks fits ends =
      let (check, e) = verify_function-ends program r fits.0 ends.0 in
      let (final, e', later, certified) =
        verify_ranges-ends ranges (add_check check checks) fits.1 ends.1 in
      (
        final,
        joined check e e',
        λ t h. later t (push_traps-old check.possible_traps checks.possible_traps t h),
        λ clean.
            of_clean final.possible_traps check e
              (λ t h. later t (push_traps-new check.possible_traps checks.possible_traps t h))
              (certified clean),
      )
    where
      joined :
          {final : Checks} (check : FunctionCheck)
          → verify_function program r ≡ some check
          → verify_ranges program ranges (add_check check checks) ≡ some final
          → verify_ranges program (r ∷ ranges) checks ≡ some final
      joined check e e' = rw (e, verify_ranges) e'

      of_clean :
          (traps : List TrapCode) (check : FunctionCheck)
          → verify_function program r ≡ some check
          → Recorded check.possible_traps traps
          → ((add_check check checks).errors ≡ [])
            × (AllWithin (length program.instructions) ranges → AllCertified program traps ranges)
          → (checks.errors ≡ [])
            × (AllWithin (length program.instructions) (r ∷ ranges)
                → AllCertified program traps (r ∷ ranges))
      of_clean traps check e noted (clean, rest) =
          let (before, here) = append-eq-nil checks.errors check.errors clean in
          (
            before,
            λ within. (
              (
                check,
                verify_function-Certifies program r check (ground (arith, within.0)) e here,
                noted,
              ),
              rest within.2,
            ),
          )

  -- A function has a certificate: its range starts at its entry, is within the code, and the
  -- traps that its instructions may raise are among `traps`.
  pub data IsCertifiedFunction (traps : List TrapCode) (info : FunctionInfo) : Type 0 where
    certified_function :
        (range : FunctionRange) (states : States) (own : List TrapCode)
        → IsCertified program range states own
        → Recorded own traps
        → range.info ≡ info
        → range.start ≡ info.entry_pc
        → range.end ≤ length program.instructions
        → IsCertifiedFunction traps info

  pub certified_range :
      (traps : List TrapCode) (ranges : List FunctionRange) (info : FunctionInfo)
      → AllWithin (length program.instructions) ranges
      → AllCertified program traps ranges
      → HasRange info ranges
      → IsCertifiedFunction traps info
  unfolding summarize
  certified_range traps [] info within certified h = elim h [ ]
  certified_range traps (r ∷ ranges) info within certified (range_here same start) =
      from certified.0.1 certified.0.2
    where
      from :
          {check : FunctionCheck}
          → Certifies program r check
          → Recorded check.possible_traps traps
          → IsCertifiedFunction traps info
      from (certifies work ran sums cert flow) noted =
          certified_function r work.states work.log.possible_traps cert (rw (← sums) at noted) same
            start within.1
  certified_range traps (r ∷ ranges) info within certified (range_there h) =
      certified_range traps ranges info within.2 certified.1 h
