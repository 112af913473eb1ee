-- ===== src/Verifier/Metadata/Functions.antt =====
-- src/verifier.rs: what `function_ranges` gives where it reports no error.
use minilang_rs.Prelude.{
  ℕ, ◌≡◌, ◌∙◌, refl, sym, false, List, [], ◌∷◌, ◌++◌, arith, contains, length, leb, ltb, Bool-cases,
  inl, inr,
}
use minilang_rs.Limits.{max_local_slots}
use minilang_rs.Bytecode.{FunctionInfo, CompiledProgram}
use minilang_rs.Verifier.Report.{VerificationError}
use minilang_rs.Verifier.Reports.{append-ne-nil}
use minilang_rs.Verifier.Metadata.{
  Entry, Entries, check_info, collect_entry, collect_entries, function_ranges,
}
use minilang_rs.Verifier.Metadata.Ranges.{
  has_pc, Below, Distinct, sort_entries-Below, sort_entries-Increasing, AllWithin,
  ranges_of-AllWithin, Consecutive, ranges_of-Consecutive, has_pc-last, Distinct-last, Below-last,
}

-- The table's entries lie in the code and differ, and the set `seen` has them.
record IsTable (code_end : ℕ) (entries : Entries) : Type 0 where
  below : Below code_end entries.table
  distinct : Distinct entries.table
  same_set : (p : ℕ) → contains p entries.seen ≡ has_pc p entries.table

check_info-clean :
    (info : FunctionInfo) (errors : List VerificationError)
    → check_info info errors ≡ []
    → errors ≡ []
unfolding check_info
check_info-clean info errors clean = elim (Bool-cases (ltb max_local_slots info.local_count)) [
  | inl big ↦ absurd (append-ne-nil _ _ (rw (big, check_info) at clean))
  | inr fits ↦ elim (Bool-cases (ltb info.local_count info.param_count)) [
    | inl many ↦ absurd (append-ne-nil errors _ (rw (fits, many, check_info) at clean))
    | inr few ↦ rw (fits, few, check_info) at clean
  ]
]

module _ (program : CompiledProgram) where
  collect_entry-IsTable :
      (id : ℕ) (info : FunctionInfo) (entries : Entries)
      → (collect_entry program id info entries).errors ≡ []
      → (entries.errors ≡ [])
        × (IsTable (length program.instructions) entries
            → IsTable (length program.instructions) (collect_entry program id info entries))
  unfolding collect_entry
  collect_entry-IsTable id info entries clean =
      elim (Bool-cases (leb (length program.instructions) info.entry_pc)) [
        | inl out ↦ absurd (append-ne-nil _ _ (rw (out, collect_entry) at clean))
        | inr inside ↦ elim (Bool-cases (contains info.entry_pc entries.seen)) [
          | inl twice ↦ absurd (append-ne-nil _ _ (rw (inside, twice, collect_entry) at clean))
          | inr once ↦ (
            check_info-clean info entries.errors (rw (inside, once, collect_entry) at clean),
            λ table. rw (inside, once, collect_entry) (added table inside once),
          )
        ]
      ]
    where
      entry : Entry
      entry = record { entry_pc = info.entry_pc; id = id; info = info }

      added :
          IsTable (length program.instructions) entries
          → leb (length program.instructions) info.entry_pc ≡ false
          → contains info.entry_pc entries.seen ≡ false
          → IsTable (length program.instructions) (record {
            table = entries.table ++ entry ∷ [];
            seen = info.entry_pc ∷ entries.seen;
            errors = check_info info entries.errors;
          })
      added table inside once = record {
        below =
            Below-last (length program.instructions) entries.table entry table.below (ground arith);
        distinct =
            Distinct-last entries.table entry table.distinct
              (sym (table.same_set info.entry_pc) ∙ once);
        same_set = λ p. ground (arith, table.same_set p, has_pc-last p entries.table entry);
      }

  collect_entries-IsTable :
      (functions : List (ℕ × FunctionInfo)) (entries : Entries)
      → (collect_entries program functions entries).errors ≡ []
      → (entries.errors ≡ [])
        × (IsTable (length program.instructions) entries
            → IsTable (length program.instructions) (collect_entries program functions entries))
  unfolding collect_entries
  collect_entries-IsTable [] entries clean = (clean, λ table. table)
  collect_entries-IsTable ((id, info) ∷ functions) entries clean =
      let (clean₁, later) =
        collect_entries-IsTable functions (collect_entry program id info entries) clean in
      let (clean₀, first) = collect_entry-IsTable id info entries clean₁ in
      (clean₀, λ table. later (first table))

  pub collect_entries-clean :
      (functions : List (ℕ × FunctionInfo)) (entries : Entries)
      → (collect_entries program functions entries).errors ≡ []
      → entries.errors ≡ []
  collect_entries-clean functions entries clean =
      (collect_entries-IsTable functions entries clean).0

  -- Where `function_ranges` reports no error, every range that it gives is not empty and ends
  -- within the code.
  pub function_ranges-AllWithin :
      (errors : List VerificationError)
      → (function_ranges program errors).1 ≡ []
      → AllWithin (length program.instructions) (function_ranges program errors).0
  unfolding function_ranges
  function_ranges-AllWithin errors clean =
      let (_, table_of) =
        collect_entries-IsTable program.functions
          (record { table = []; seen = []; errors = errors }) clean in
      let table = table_of (record { below = tt; distinct = tt; same_set = λ p. refl }) in
      ranges_of-AllWithin (length program.instructions) _ (sort_entries-Increasing _ table.distinct)
        (sort_entries-Below (length program.instructions) _ table.below)

  pub function_ranges-clean :
      (errors : List VerificationError) → (function_ranges program errors).1 ≡ [] → errors ≡ []
  unfolding function_ranges
  function_ranges-clean errors clean =
      (collect_entries-IsTable program.functions (record { table = []; seen = []; errors = errors })
        clean).0

  pub function_ranges-Consecutive :
      (errors : List VerificationError)
      → Consecutive (length program.instructions) (function_ranges program errors).0
  unfolding function_ranges
  function_ranges-Consecutive errors = ranges_of-Consecutive (length program.instructions) _
