-- ===== src/Verifier/Metadata/Coverage.antt =====
-- src/verifier.rs: the functions that the ranges of `function_ranges` are for.
use minilang_rs.Prelude.{
  ℕ, ◌≡◌, refl, inl, inr, List, [], ◌∷◌, ◌++◌, some, some-injective, length, leb, ltb, ◌==◌, lookup,
  Bool-cases,
}
use minilang_rs.Bytecode.{FunctionInfo, CompiledProgram}
use minilang_rs.Verifier.Report.{VerificationError, FunctionRange}
use minilang_rs.Verifier.Reports.{append-ne-nil}
use minilang_rs.Verifier.Metadata.{
  Entry, Entries, collect_entry, collect_entries, insert_entry, sort_entries, ranges_of,
  function_ranges,
}
use minilang_rs.Verifier.Metadata.Functions.{collect_entries-clean}

data HasEntry (info : FunctionInfo) : List Entry → Type 0 where
  entry_here :
      {e : Entry} {table : List Entry}
      → e.info ≡ info
      → e.entry_pc ≡ info.entry_pc
      → HasEntry info (e ∷ table)
  entry_there : {e : Entry} {table : List Entry} → HasEntry info table → HasEntry info (e ∷ table)

-- A range of the list is the function's.
pub data HasRange (info : FunctionInfo) : List FunctionRange → Type 0 where
  range_here :
      {r : FunctionRange} {ranges : List FunctionRange}
      → r.info ≡ info
      → r.start ≡ info.entry_pc
      → HasRange info (r ∷ ranges)
  range_there :
      {r : FunctionRange} {ranges : List FunctionRange}
      → HasRange info ranges
      → HasRange info (r ∷ ranges)

module _ {info : FunctionInfo} where
  insert_entry-new :
      (e : Entry) (table : List Entry)
      → e.info ≡ info
      → e.entry_pc ≡ info.entry_pc
      → HasEntry info (insert_entry e table)
  unfolding insert_entry
  insert_entry-new e [] i p = entry_here i p
  insert_entry-new e (x ∷ table) i p = elim (Bool-cases (ltb x.entry_pc e.entry_pc)) [
    | inl c ↦ rw (c, insert_entry) (entry_there (insert_entry-new e table i p))
    | inr c ↦ rw (c, insert_entry) (entry_here i p)
  ]

  insert_entry-old :
      (e : Entry) (table : List Entry) → HasEntry info table → HasEntry info (insert_entry e table)
  unfolding insert_entry
  insert_entry-old e [] h = elim h [ ]
  insert_entry-old e (x ∷ table) (entry_here i p) = elim (Bool-cases (ltb x.entry_pc e.entry_pc)) [
    | inl c ↦ rw (c, insert_entry) (entry_here i p)
    | inr c ↦ rw (c, insert_entry) (entry_there (entry_here i p))
  ]
  insert_entry-old e (x ∷ table) (entry_there h) = elim (Bool-cases (ltb x.entry_pc e.entry_pc)) [
    | inl c ↦ rw (c, insert_entry) (entry_there (insert_entry-old e table h))
    | inr c ↦ rw (c, insert_entry) (entry_there (entry_there h))
  ]

  sort_entries-HasEntry :
      (table : List Entry) → HasEntry info table → HasEntry info (sort_entries table)
  unfolding sort_entries
  sort_entries-HasEntry [] h = elim h [ ]
  sort_entries-HasEntry (e ∷ table) (entry_here i p) = insert_entry-new e (sort_entries table) i p
  sort_entries-HasEntry (e ∷ table) (entry_there h) =
      insert_entry-old e (sort_entries table) (sort_entries-HasEntry table h)

  ranges_of-HasRange :
      (n : ℕ) (table : List Entry) → HasEntry info table → HasRange info (ranges_of n table)
  unfolding ranges_of
  ranges_of-HasRange n [] h = elim h [ ]
  ranges_of-HasRange n (e ∷ []) (entry_there h) = elim h [ ]
  ranges_of-HasRange n (e ∷ []) (entry_here i p) = range_here i p
  ranges_of-HasRange n (e ∷ f ∷ table) (entry_here i p) = range_here i p
  ranges_of-HasRange n (e ∷ f ∷ table) (entry_there h) =
      range_there (ranges_of-HasRange n (f ∷ table) h)

  append-HasEntry :
      (table table' : List Entry) → HasEntry info table → HasEntry info (table ++ table')
  append-HasEntry [] table' h = elim h [ ]
  append-HasEntry (e ∷ table) table' (entry_here i p) = entry_here i p
  append-HasEntry (e ∷ table) table' (entry_there h) = entry_there (append-HasEntry table table' h)

  append-HasEntry_last :
      (table : List Entry) (e : Entry)
      → e.info ≡ info
      → e.entry_pc ≡ info.entry_pc
      → HasEntry info (table ++ e ∷ [])
  append-HasEntry_last [] e i p = entry_here i p
  append-HasEntry_last (x ∷ table) e i p = entry_there (append-HasEntry_last table e i p)

module _ (program : CompiledProgram) where
  collect_entry-new :
      (id : ℕ) (info : FunctionInfo) (entries : Entries)
      → (collect_entry program id info entries).errors ≡ []
      → HasEntry info (collect_entry program id info entries).table
  unfolding collect_entry
  collect_entry-new id info entries clean =
      elim (Bool-cases (leb (length program.instructions) info.entry_pc)) [
        | inl out ↦ absurd (append-ne-nil _ _ (rw (out, collect_entry) at clean))
        | inr inside ↦ rw (inside, collect_entry) (append-HasEntry_last entries.table _ refl refl)
      ]

  collect_entry-old :
      (id : ℕ) (info info' : FunctionInfo) (entries : Entries)
      → HasEntry info' entries.table
      → HasEntry info' (collect_entry program id info entries).table
  unfolding collect_entry
  collect_entry-old id info info' entries h =
      elim (Bool-cases (leb (length program.instructions) info.entry_pc)) [
        | inl out ↦ rw (out, collect_entry) h
        | inr inside ↦ rw (inside, collect_entry) (append-HasEntry entries.table _ h)
      ]

  collect_entries-old :
      (functions : List (ℕ × FunctionInfo)) (info : FunctionInfo) (entries : Entries)
      → HasEntry info entries.table
      → HasEntry info (collect_entries program functions entries).table
  unfolding collect_entries
  collect_entries-old [] info entries h = h
  collect_entries-old ((id, i) ∷ functions) info entries h =
      collect_entries-old functions info (collect_entry program id i entries)
        (collect_entry-old id i info entries h)

  collect_entries-HasEntry :
      (functions : List (ℕ × FunctionInfo)) (id : ℕ) (info : FunctionInfo) (entries : Entries)
      → (collect_entries program functions entries).errors ≡ []
      → lookup id functions ≡ some info
      → HasEntry info (collect_entries program functions entries).table
  unfolding collect_entries
  collect_entries-HasEntry [] id info entries clean found = absurd (cc found)
  collect_entries-HasEntry ((key, i) ∷ functions) id info entries clean found =
      elim (Bool-cases (key == id)) [
        | inl e ↦ collect_entries-old functions info (collect_entry program key i entries) (
            rw (← some-injective i info (rw e at found)) (
              collect_entry-new key i entries (
                collect_entries-clean program functions (collect_entry program key i entries)
                  clean)))
        | inr e ↦
            collect_entries-HasEntry functions id info (collect_entry program key i entries) clean
              (rw e at found)
      ]

  -- Without an error, every function has a range that starts at its entry.
  pub function_ranges-HasRange :
      (errors : List VerificationError) (id : ℕ) (info : FunctionInfo)
      → (function_ranges program errors).1 ≡ []
      → lookup id program.functions ≡ some info
      → HasRange info (function_ranges program errors).0
  unfolding function_ranges
  function_ranges-HasRange errors id info clean found =
      ranges_of-HasRange (length program.instructions) _ (
        sort_entries-HasEntry _ (
          collect_entries-HasEntry program.functions id info
            (record { table = []; seen = []; errors = errors }) clean found))
