-- ===== src/Verifier/Program/Ends.antt =====
-- src/verifier.rs: the ends of the ranges of `function_ranges`.
use minilang_rs.Prelude.{ℕ, ◌≤◌, List, [], ◌∷◌, arith, length, leb, Bool-cases, inl, inr}
use minilang_rs.Bytecode.{FunctionInfo, CompiledProgram}
use minilang_rs.Verifier.Report.{VerificationError, FunctionRange}
use minilang_rs.Verifier.Metadata.{
  Entry, Entries, collect_entry, collect_entries, ranges_of, function_ranges,
}
use minilang_rs.Verifier.Metadata.Ranges.{Below, sort_entries-Below, Below-last}

abbrev pub AllEnd : ℕ → List FunctionRange → Type 0
AllEnd code_end [] = Unit
AllEnd code_end (r ∷ ranges) = (r.end ≤ code_end) × AllEnd code_end ranges

ranges_of-AllEnd : (n : ℕ) (table : List Entry) → Below n table → AllEnd n (ranges_of n table)
unfolding ranges_of
ranges_of-AllEnd n [] below = tt
ranges_of-AllEnd n (e ∷ []) below = (omega arith, tt)
ranges_of-AllEnd n (e ∷ f ∷ table) below =
    (omega (arith, below.1.0), ranges_of-AllEnd n (f ∷ table) below.1)

module _ (program : CompiledProgram) where
  abbrev code_end : ℕ
  code_end = length program.instructions

  collect_entry-Below :
      (id : ℕ) (info : FunctionInfo) (entries : Entries)
      → Below code_end entries.table
      → Below code_end (collect_entry program id info entries).table
  unfolding collect_entry
  collect_entry-Below id info entries below = elim (Bool-cases (leb code_end info.entry_pc)) [
    | inl out ↦ rw (out, collect_entry) below
    | inr inside ↦
        rw (inside, collect_entry)
          (Below-last code_end entries.table
            (record { entry_pc = info.entry_pc; id = id; info = info }) below (ground arith))
  ]

  collect_entries-Below :
      (functions : List (ℕ × FunctionInfo)) (entries : Entries)
      → Below code_end entries.table
      → Below code_end (collect_entries program functions entries).table
  unfolding collect_entries
  collect_entries-Below [] entries below = below
  collect_entries-Below ((id, info) ∷ functions) entries below =
      collect_entries-Below functions (collect_entry program id info entries)
        (collect_entry-Below id info entries below)

  pub function_ranges-AllEnd :
      (errors : List VerificationError) → AllEnd code_end (function_ranges program errors).0
  unfolding function_ranges
  function_ranges-AllEnd errors = ranges_of-AllEnd code_end _ (
      sort_entries-Below code_end _ (
        collect_entries-Below program.functions (record { table = []; seen = []; errors = errors })
          tt))
