-- ===== src/Verifier/Program.antt =====
-- src/verifier.rs: the eligibility of the backends, and `verify`.
pub mod Ends
pub mod Validated
pub mod Certified
pub mod Valid
pub mod Jit
use minilang_rs.Prelude.{
  ℕ, zero, suc, ◌+◌, Bool, true, false, not, ◌||◌, List, [], ◌∷◌, ◌++◌, Option, none, some, lookup,
  drop, length, max, ltb, ◌==◌, if◌then◌else◌,
}
use minilang_rs.Limits.{max_instructions, max_frames}
use minilang_rs.Bytecode.{Opcode, Instruction, FunctionInfo, CompiledProgram}
use minilang_rs.Vm.State.{TrapCode, stack_overflow}
use minilang_rs.Verifier.Report.{
  VerificationError, FunctionVerification, FunctionRange, push_trap, no_functions, missing_main,
  too_many_instructions,
}
use minilang_rs.Verifier.Function.{FunctionCheck, verify_function}
use minilang_rs.Verifier.Metadata.{error_at, verify_global_metadata, function_ranges}
use minilang_rs.Verifier.Frames.{CallEdges, add_edges, max_frame_depth}

-- Why a backend is not eligible: the kind of the text.
pub data Reason : Type 0 where
  verification_errors trap_free_only one_function_only missing_main_metadata : Reason
  unsupported_opcode : Opcode → Reason
  no_return : Reason

-- `BackendStatus::yes` and `BackendStatus::no`.
pub data BackendStatus : Type 0 where
  yes : BackendStatus
  no : Reason → BackendStatus

pub record BackendEligibility : Type 0 where
  pub vm : BackendStatus
  pub gc_vm : BackendStatus
  pub optimized_vm : BackendStatus
  pub jit : BackendStatus

unfoldable pub jit_supports_opcode : Opcode → Bool
jit_supports_opcode Opcode.load_const = true
jit_supports_opcode Opcode.load_local = true
jit_supports_opcode Opcode.store_local = true
jit_supports_opcode Opcode.add = true
jit_supports_opcode Opcode.sub = true
jit_supports_opcode Opcode.mul = true
jit_supports_opcode Opcode.neg = true
jit_supports_opcode Opcode.eq = true
jit_supports_opcode Opcode.ne = true
jit_supports_opcode Opcode.lt = true
jit_supports_opcode Opcode.gt = true
jit_supports_opcode Opcode.le = true
jit_supports_opcode Opcode.ge = true
jit_supports_opcode Opcode.not = true
jit_supports_opcode Opcode.pop = true
jit_supports_opcode Opcode.dup = true
jit_supports_opcode Opcode.return = true
jit_supports_opcode o = false

abbrev pub is_return : Opcode → Bool
is_return Opcode.return = true
is_return o = false

-- The loop over the code from the entry of main, up to its first return.
unfoldable pub scan_main : List Instruction → BackendStatus
unfolding jit_supports_opcode
scan_main [] = no no_return
scan_main (instr ∷ rest) =
    let later = scan_main rest in
    if not (jit_supports_opcode instr.opcode)
    then no (unsupported_opcode instr.opcode)
    else if is_return instr.opcode
    then yes
    else later

-- The build for Linux on x86-64; the other builds always refuse.
unfoldable pub jit_status : CompiledProgram → List TrapCode → BackendStatus
unfolding scan_main
jit_status program (trap ∷ traps) = no trap_free_only
jit_status program [] =
    if not (length program.functions == 1)
    then no one_function_only
    else elim (lookup program.main_func_id program.functions) [
      | none ↦ no missing_main_metadata
      | some main_func ↦ scan_main (drop main_func.entry_pc program.instructions)
    ]

unfoldable pub backend_eligibility : CompiledProgram → Bool → List TrapCode → BackendEligibility
unfolding jit_status
backend_eligibility program valid possible_traps =
    if valid
    then record {
      vm = yes;
      gc_vm = yes;
      optimized_vm = yes;
      jit = jit_status program possible_traps;
    }
    else record {
      vm = no verification_errors;
      gc_vm = no verification_errors;
      optimized_vm = no verification_errors;
      jit = no verification_errors;
    }

pub record VerificationReport : Type 0 where
  pub valid : Bool
  pub errors : List VerificationError
  pub functions : List FunctionVerification
  pub possible_traps : List TrapCode
  pub max_stack_depth : ℕ
  pub frame_depth : Option ℕ
  pub backends : BackendEligibility

-- The variables of the loop over the ranges.
pub record Checks : Type 0 where
  pub errors : List VerificationError
  pub possible_traps : List TrapCode
  pub call_edges : CallEdges
  pub functions : List FunctionVerification

unfoldable pub push_traps : List TrapCode → List TrapCode → List TrapCode
push_traps [] traps = traps
push_traps (trap ∷ new) traps = push_traps new (push_trap trap traps)

unfoldable pub add_check : FunctionCheck → Checks → Checks
unfolding push_traps
add_check check checks = record {
  errors = checks.errors ++ check.errors;
  possible_traps = push_traps check.possible_traps checks.possible_traps;
  call_edges = add_edges check.call_edges checks.call_edges;
  functions = checks.functions ++ check.summary ∷ [];
}

unfoldable pub verify_ranges : CompiledProgram → List FunctionRange → Checks → Option Checks
unfolding add_check
verify_ranges program [] checks = some checks
verify_ranges program (range ∷ ranges) checks = elim (verify_function program range) [
  | none ↦ none
  | some check ↦ verify_ranges program ranges (add_check check checks)
]

abbrev pub is_empty : {A : Type 0} → List A → Bool
is_empty [] = true
is_empty (x ∷ xs) = false

abbrev pub is_none : {A : Type 0} → Option A → Bool
is_none none = true
is_none (some a) = false

-- The errors that `verify` finds before it looks at the functions.
unfoldable pub program_errors : CompiledProgram → List VerificationError
program_errors program =
    let errors = verify_global_metadata program.globals [] in
    let errors₁ =
      if is_empty program.functions then error_at none no_functions errors else errors in
    let errors₂ =
      if is_none (lookup program.main_func_id program.functions)
      then error_at none missing_main errors₁
      else errors₁ in
    if ltb max_instructions (length program.instructions)
    then error_at none too_many_instructions errors₂
    else errors₂

unfoldable pub largest_stack : List FunctionVerification → ℕ
largest_stack [] = 0
largest_stack (f ∷ functions) = max f.max_stack_depth (largest_stack functions)

-- Recursion, or a depth above the limit, may overflow the call stack.
unfoldable pub frame_traps : Option ℕ → List TrapCode → List TrapCode
frame_traps none traps = push_trap stack_overflow traps
frame_traps (some depth) traps =
    if ltb max_frames depth then push_trap stack_overflow traps else traps

unfoldable pub report_of : CompiledProgram → Option ℕ → Checks → VerificationReport
unfolding frame_traps largest_stack backend_eligibility
report_of program depth checks =
    let possible_traps = frame_traps depth checks.possible_traps in
    record {
      valid = is_empty checks.errors;
      errors = checks.errors;
      functions = checks.functions;
      possible_traps = possible_traps;
      max_stack_depth = largest_stack checks.functions;
      frame_depth = depth;
      backends = backend_eligibility program (is_empty checks.errors) possible_traps;
    }

unfoldable pub finish : CompiledProgram → Checks → Option VerificationReport
unfolding report_of
finish program checks = elim (max_frame_depth program.main_func_id checks.call_edges) [
  | none ↦ none
  | some depth ↦ some (report_of program depth checks)
]

unfoldable pub verify : CompiledProgram → Option VerificationReport
unfolding program_errors verify_ranges finish
verify program =
    let (ranges, errors) = function_ranges program (program_errors program) in
    elim (verify_ranges program ranges
      (record { errors = errors; possible_traps = []; call_edges = []; functions = [] })) [
        | none ↦ none
        | some checks ↦ finish program checks
      ]
