-- ===== src/Verifier/Program/Jit.antt =====
-- src/verifier.rs: what the eligibility for the native code generator says.
use minilang_rs.Prelude.{
  some-injective, ℕ, sym, ◌∙◌, arith, ◌↔◌, ◌≡◌, refl, Bool, true, false, List, [], ◌∷◌, Option,
  none, some, length, lookup, drop, ◌==◌, ==_iff, Bool-cases, inl, inr, ◌⊎◌,
}
use minilang_rs.Bytecode.{Opcode, Instruction, FunctionInfo, CompiledProgram}
use minilang_rs.Vm.State.{TrapCode}
use minilang_rs.Verifier.Metadata.{function_ranges}
use minilang_rs.Verifier.Frames.{max_frame_depth}
use minilang_rs.Verifier.Program.{
  yes, jit_supports_opcode, is_return, scan_main, jit_status, backend_eligibility,
  VerificationReport, Checks, verify_ranges, program_errors, frame_traps, report_of, finish, verify,
  is_empty,
}

-- The opcodes that docs/spec.md lists for the native code generator: constants, scalar locals,
-- arithmetic without division, comparisons, `not`, `pop`, `dup` and `return`.
abbrev pub IsSupported : Opcode → Type 0
IsSupported Opcode.load_const = Unit
IsSupported Opcode.load_local = Unit
IsSupported Opcode.store_local = Unit
IsSupported Opcode.add = Unit
IsSupported Opcode.sub = Unit
IsSupported Opcode.mul = Unit
IsSupported Opcode.neg = Unit
IsSupported Opcode.eq = Unit
IsSupported Opcode.ne = Unit
IsSupported Opcode.lt = Unit
IsSupported Opcode.gt = Unit
IsSupported Opcode.le = Unit
IsSupported Opcode.ge = Unit
IsSupported Opcode.not = Unit
IsSupported Opcode.pop = Unit
IsSupported Opcode.dup = Unit
IsSupported Opcode.return = Unit
IsSupported o = ⊥

-- Code that reaches a return by these opcodes alone.
pub data ReachesReturn : List Instruction → Type 0 where
  returns :
      {instr : Instruction} {rest : List Instruction}
      → instr.opcode ≡ Opcode.return
      → ReachesReturn (instr ∷ rest)
  supported :
      {instr : Instruction} {rest : List Instruction}
      → IsSupported instr.opcode
      → ReachesReturn rest
      → ReachesReturn (instr ∷ rest)

is_return_iff : (o : Opcode) → (is_return o ≡ true) ↔ (o ≡ Opcode.return)
is_return_iff o = ground arith

supports_iff : (o : Opcode) → (jit_supports_opcode o ≡ true) ↔ IsSupported o
unfolding jit_supports_opcode
supports_iff Opcode.load_const = (λ _. tt, λ _. refl)
supports_iff Opcode.load_local = (λ _. tt, λ _. refl)
supports_iff Opcode.store_local = (λ _. tt, λ _. refl)
supports_iff Opcode.add = (λ _. tt, λ _. refl)
supports_iff Opcode.sub = (λ _. tt, λ _. refl)
supports_iff Opcode.mul = (λ _. tt, λ _. refl)
supports_iff Opcode.neg = (λ _. tt, λ _. refl)
supports_iff Opcode.eq = (λ _. tt, λ _. refl)
supports_iff Opcode.ne = (λ _. tt, λ _. refl)
supports_iff Opcode.lt = (λ _. tt, λ _. refl)
supports_iff Opcode.gt = (λ _. tt, λ _. refl)
supports_iff Opcode.le = (λ _. tt, λ _. refl)
supports_iff Opcode.ge = (λ _. tt, λ _. refl)
supports_iff Opcode.not = (λ _. tt, λ _. refl)
supports_iff Opcode.pop = (λ _. tt, λ _. refl)
supports_iff Opcode.dup = (λ _. tt, λ _. refl)
supports_iff Opcode.return = (λ _. tt, λ _. refl)
supports_iff o = (λ e. absurd (cc e), λ h. absurd h)

module _ (instr : Instruction) (rest : List Instruction) where
  scan_more :
      (scan_main rest ≡ yes) ↔ ReachesReturn rest
      → (jit_supports_opcode instr.opcode ≡ true) ⊎ (jit_supports_opcode instr.opcode ≡ false)
      → (is_return instr.opcode ≡ true) ⊎ (is_return instr.opcode ≡ false)
      → (scan_main (instr ∷ rest) ≡ yes) ↔ ReachesReturn (instr ∷ rest)
  unfolding scan_main
  scan_more later (inr s) r =
      (λ e. absurd (cc (rw (s, scan_main) at e)), λ h. absurd (unsupported h))
    where
      unsupported : ReachesReturn (instr ∷ rest) → ⊥
      unsupported (returns e) = cc (rw e at s)
      unsupported (supported h later) = cc ((supports_iff instr.opcode).1 h)
  scan_more later (inl s) (inl r) =
      (λ _. returns ((is_return_iff instr.opcode).0 r), λ _. rw (s, r, scan_main) refl)
  scan_more (reaches, scans) (inl s) (inr r) = (
    λ e. supported ((supports_iff instr.opcode).0 s) (reaches (rw (s, r, scan_main) at e)),
    λ h. rw (s, r, scan_main) (back h),
  )
    where
      back : ReachesReturn (instr ∷ rest) → scan_main rest ≡ yes
      back (returns e) = absurd (cc ((is_return_iff instr.opcode).1 e))
      back (supported h more) = scans more

scan_main_iff : (code : List Instruction) → (scan_main code ≡ yes) ↔ ReachesReturn code
unfolding scan_main
scan_main_iff [] = (λ e. absurd (cc e), λ h. elim h [ ])
scan_main_iff (instr ∷ rest) =
    scan_more instr rest (scan_main_iff rest) (Bool-cases (jit_supports_opcode instr.opcode))
      (Bool-cases (is_return instr.opcode))

-- One function, and straight code from the entry of main to a return.
abbrev pub IsStraight : CompiledProgram → Type 0
IsStraight program =
    (length program.functions ≡ 1)
    × (main_func : FunctionInfo) × (lookup program.main_func_id program.functions ≡ some main_func)
    × ReachesReturn (drop main_func.entry_pc program.instructions)

module _ (program : CompiledProgram) where
  jit_status_iff : (jit_status program [] ≡ yes) ↔ IsStraight program
  unfolding jit_status
  jit_status_iff =
      go (Bool-cases (length program.functions == 1))
        (lookup program.main_func_id program.functions) refl
    where
      go :
          (length program.functions == 1 ≡ true) ⊎ (length program.functions == 1 ≡ false)
          → (found : Option FunctionInfo) → lookup program.main_func_id program.functions ≡ found
          → (jit_status program [] ≡ yes) ↔ IsStraight program
      go (inr many) found f = (
        λ e. absurd (cc (rw (many, jit_status) at e)),
        λ straight. absurd (cc ((==_iff _ _).1 straight.0)),
      )
      go (inl single) none f = (
        λ e. absurd (cc (rw (single, f, jit_status) at e)),
        λ (_, main_func, found, _). absurd (cc found),
      )
      go (inl single) (some main_func) f = (
        λ e. (
          (==_iff _ _).0 single,
          main_func,
          f,
          (scan_main_iff _).0 (rw (single, f, jit_status) at e),
        ),
        λ (_, main', found, reaches).
            rw (single, f, jit_status)
              ((scan_main_iff (drop main_func.entry_pc program.instructions)).1
                (rw (some-injective main' main_func (sym found ∙ f)) at reaches)),
      )

  eligible_iff :
      (valid : Bool) (traps : List TrapCode)
      → ((backend_eligibility program valid traps).jit ≡ yes)
        ↔ ((valid ≡ true) × (traps ≡ []) × IsStraight program)
  unfolding backend_eligibility jit_status
  eligible_iff false traps = (λ e. absurd (cc e), λ h. absurd (cc h.0))
  eligible_iff true (trap ∷ traps) =
      (λ e. absurd (cc e), λ (_, none_left, straight). absurd (cc none_left))
  eligible_iff true [] =
      (λ e. (refl, refl, jit_status_iff.0 e), λ (_, _, straight). jit_status_iff.1 straight)

  -- The report of `verify` offers the program to the native code generator exactly where it is
  -- valid and lists no trap, the program has one function, and the code from the entry of main
  -- reaches a return by the opcodes that the documentation lists.
  pub verify-jit :
      (report : VerificationReport)
      → verify program ≡ some report
      → (report.backends.jit ≡ yes)
        ↔ ((report.valid ≡ true) × (report.possible_traps ≡ []) × IsStraight program)
  unfolding verify finish report_of
  verify-jit report result =
      go (verify_ranges program (function_ranges program (program_errors program)).0 start) refl
    where
      start : Checks
      start = record {
        errors = (function_ranges program (program_errors program)).1;
        possible_traps = [];
        call_edges = [];
        functions = [];
      }

      Says : Type 0
      Says =
          (report.backends.jit ≡ yes)
          ↔ ((report.valid ≡ true) × (report.possible_traps ≡ []) × IsStraight program)

      from : (depth : Option ℕ) (checks : Checks) → report_of program depth checks ≡ report → Says
      from depth checks e =
          rw (← e) (eligible_iff (is_empty checks.errors) (frame_traps depth checks.possible_traps))

      finished :
          (checks : Checks)
          → finish program checks ≡ some report
          → (depth : Option (Option ℕ))
          → max_frame_depth program.main_func_id checks.call_edges ≡ depth
          → Says
      finished checks e none d = absurd (cc (rw (d, finish) at e))
      finished checks e (some depth) d =
          from depth checks (some-injective _ _ (rw (d, finish) at e))

      go :
          (r : Option Checks)
          → verify_ranges program (function_ranges program (program_errors program)).0 start ≡ r
          → Says
      go none e = absurd (cc (rw (e, verify) at result))
      go (some checks) e =
          finished checks (rw (e, verify) at result)
            (max_frame_depth program.main_func_id checks.call_edges) refl
