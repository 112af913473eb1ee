-- ===== src/Verifier/Program/Validated.antt =====
-- src/verifier.rs with src/vm.rs: `validate_program` on a program that `verify` accepts.
use minilang_rs.Prelude.{
  ℕ, ◌+◌, ◌≤◌, ◌≡◌, refl, false, ◌&&◌, inl, inr, List, [], ◌∷◌, none, some, arith, contains, length,
  leb, ltb, ◌==◌, if◌then◌else◌, max, Bool-cases,
}
use minilang_rs.Limits.{max_instructions, max_local_slots, max_global_slots, usize_max}
use minilang_rs.Bytecode.{FunctionInfo, GlobalInfo, CompiledProgram}
use minilang_rs.Vm.State.{invalid_instruction}
use minilang_rs.Vm.Run.{
  required_global_slots, validate_functions, validate_globals, validate_program,
}
use minilang_rs.Verifier.Report.{VerificationError}
use minilang_rs.Verifier.Reports.{append-ne-nil}
use minilang_rs.Verifier.Metadata.{
  Entries, check_info, collect_entry, collect_entries, function_ranges, global_width,
}
use minilang_rs.Verifier.Metadata.Functions.{collect_entries-clean}
use minilang_rs.Verifier.Metadata.Layout.{IsLaidOut}

check_info-fits :
    (info : FunctionInfo) (errors : List VerificationError)
    → check_info info errors ≡ []
    → (ltb info.local_count info.param_count ≡ false)
      × (ltb max_local_slots info.local_count ≡ false)
unfolding check_info
check_info-fits info errors clean = elim (Bool-cases (ltb max_local_slots info.local_count)) [
  | inl big ↦ absurd (append-ne-nil _ _ (rw (big, check_info) at clean))
  | inr fits ↦ elim (Bool-cases (ltb info.local_count info.param_count)) [
    | inl many ↦ absurd (append-ne-nil errors _ (rw (fits, many, check_info) at clean))
    | inr few ↦ (few, fits)
  ]
]

module _ (program : CompiledProgram) where
  collect_entry-fits :
      (id : ℕ) (info : FunctionInfo) (entries : Entries)
      → (collect_entry program id info entries).errors ≡ []
      → (ltb info.local_count info.param_count ≡ false)
        × (ltb max_local_slots info.local_count ≡ false)
  unfolding collect_entry
  collect_entry-fits id info entries clean =
      elim (Bool-cases (leb (length program.instructions) info.entry_pc)) [
        | inl out ↦ absurd (append-ne-nil _ _ (rw (out, collect_entry) at clean))
        | inr inside ↦ elim (Bool-cases (contains info.entry_pc entries.seen)) [
          | inl twice ↦ absurd (append-ne-nil _ _ (rw (inside, twice, collect_entry) at clean))
          | inr once ↦
              check_info-fits info entries.errors (rw (inside, once, collect_entry) at clean)
        ]
      ]

  collect_entries-valid :
      (functions : List (ℕ × FunctionInfo)) (entries : Entries)
      → (collect_entries program functions entries).errors ≡ []
      → validate_functions functions ≡ none
  unfolding collect_entries validate_functions
  collect_entries-valid [] entries clean = refl
  collect_entries-valid ((id, info) ∷ functions) entries clean =
      let later = collect_entries-valid functions (collect_entry program id info entries) clean in
      let fits =
        collect_entry-fits id info entries
          (collect_entries-clean program functions (collect_entry program id info entries) clean) in
      rw (fits.0, fits.1, validate_functions) later

  pub function_ranges-valid :
      (errors : List VerificationError)
      → (function_ranges program errors).1 ≡ []
      → validate_functions program.functions ≡ none
  unfolding function_ranges
  function_ranges-valid errors clean =
      collect_entries-valid program.functions (record { table = []; seen = []; errors = errors })
        clean

-- The slots that globals without overlap need are within the limit.
required_global_slots-fits :
    (max_slot : ℕ) (globals : List GlobalInfo)
    → IsLaidOut globals
    → max_slot ≤ max_global_slots
    → (slots : ℕ) × (required_global_slots max_slot globals ≡ inr slots)
      × (slots ≤ max_global_slots)
unfolding required_global_slots
required_global_slots-fits max_slot [] laid fits = (max_slot, refl, fits)
required_global_slots-fits max_slot (info ∷ globals) (some_slot, inside, apart, laid) fits =
    let (slots, e, le) =
      required_global_slots-fits (max max_slot (info.slot + global_width info)) globals laid
        (omega (arith, inside, fits)) in
    (slots, rw (sized, in_usize, required_global_slots) e, le)
  where
    sized : (info.is_array && info.array_size == 0) ≡ false
    sized = ground (arith, some_slot)

    in_usize : ltb usize_max (info.slot + global_width info) ≡ false
    in_usize = ground (arith, inside)

-- The machine validates every program that the verifier accepts.
pub verified_valid :
    (program : CompiledProgram) (errors : List VerificationError)
    → length program.instructions ≤ max_instructions
    → IsLaidOut program.globals
    → (function_ranges program errors).1 ≡ []
    → validate_program program ≡ none
unfolding validate_program validate_globals
verified_valid program errors fits laid clean =
    let (slots, e, le) = required_global_slots-fits 0 program.globals laid (omega arith) in
    rw (short, function_ranges-valid program errors clean, e, validate_program, validate_globals)
      (within slots le)
  where
    short : ltb max_instructions (length program.instructions) ≡ false
    short = ground (arith, fits)

    within :
        (slots : ℕ)
        → slots ≤ max_global_slots
        → ◌≡◌ (if ltb max_global_slots slots then some invalid_instruction else none) none
    within slots le = ground (arith, le)
