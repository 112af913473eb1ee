-- ===== src/Verifier/Metadata/Ranges.antt =====
-- src/verifier.rs: the sorted table of `function_ranges` and its ranges.
use minilang_rs.Prelude.{
  ℕ, ◌≤◌, ◌<◌, ◌≡◌, ◌∙◌, refl, Bool, false, ◌||◌, List, [], ◌∷◌, ◌++◌, arith, ltb, ◌==◌, ==_iff,
  Bool-cases, inl, inr,
}
use minilang_rs.Verifier.Report.{FunctionRange}
use minilang_rs.Verifier.Metadata.{Entry, insert_entry, sort_entries, ranges_of}

abbrev pub has_pc : ℕ → List Entry → Bool
has_pc p [] = false
has_pc p (e ∷ table) = e.entry_pc == p || has_pc p table

abbrev Above : ℕ → List Entry → Type 0
Above p [] = Unit
Above p (e ∷ table) = (p < e.entry_pc) × Above p table

abbrev pub Below : ℕ → List Entry → Type 0
Below n [] = Unit
Below n (e ∷ table) = (e.entry_pc < n) × Below n table

abbrev Increasing : List Entry → Type 0
Increasing [] = Unit
Increasing (e ∷ table) = Above e.entry_pc table × Increasing table

abbrev pub Distinct : List Entry → Type 0
Distinct [] = Unit
Distinct (e ∷ table) = (has_pc e.entry_pc table ≡ false) × Distinct table

Above-trans : (p q : ℕ) (table : List Entry) → p < q → Above q table → Above p table
Above-trans p q [] lt h = tt
Above-trans p q (e ∷ table) lt h = (omega (arith, h.0), Above-trans p q table lt h.1)

-- Insertion.
has_pc-insert_entry :
    (p : ℕ) (e : Entry) (table : List Entry)
    → has_pc p (insert_entry e table) ≡ (e.entry_pc == p || has_pc p table)
unfolding insert_entry
has_pc-insert_entry p e [] = refl
has_pc-insert_entry p e (x ∷ table) = ground (arith, has_pc-insert_entry p e table)

insert_entry-Above :
    (p : ℕ) (e : Entry) (table : List Entry)
    → p < e.entry_pc
    → Above p table
    → Above p (insert_entry e table)
unfolding insert_entry
insert_entry-Above p e [] lt h = (lt, tt)
insert_entry-Above p e (x ∷ table) lt h = elim (Bool-cases (ltb x.entry_pc e.entry_pc)) [
  | inl c ↦ rw (c, insert_entry) (h.0, insert_entry-Above p e table lt h.1)
  | inr c ↦ rw (c, insert_entry) (lt, h)
]

insert_entry-Below :
    (n : ℕ) (e : Entry) (table : List Entry)
    → e.entry_pc < n
    → Below n table
    → Below n (insert_entry e table)
unfolding insert_entry
insert_entry-Below n e [] lt h = (lt, tt)
insert_entry-Below n e (x ∷ table) lt h = elim (Bool-cases (ltb x.entry_pc e.entry_pc)) [
  | inl c ↦ rw (c, insert_entry) (h.0, insert_entry-Below n e table lt h.1)
  | inr c ↦ rw (c, insert_entry) (lt, h)
]

insert_entry-Increasing :
    (e : Entry) (table : List Entry)
    → has_pc e.entry_pc table ≡ false
    → Increasing table
    → Increasing (insert_entry e table)
unfolding insert_entry
insert_entry-Increasing e [] fresh h = (tt, tt)
insert_entry-Increasing e (x ∷ table) fresh h = elim (Bool-cases (ltb x.entry_pc e.entry_pc)) [
  | inl c ↦
      rw (c, insert_entry)
        (
          insert_entry-Above x.entry_pc e table (ground arith) h.0,
          insert_entry-Increasing e table (ground arith) h.1,
        )
  | inr c ↦
      let less : e.entry_pc < x.entry_pc = ground (arith, ==_iff x.entry_pc e.entry_pc) in
      rw (c, insert_entry) ((less, Above-trans e.entry_pc x.entry_pc table less h.0), h)
]

-- Sorting.
has_pc-sort_entries : (p : ℕ) (table : List Entry) → has_pc p (sort_entries table) ≡ has_pc p table
unfolding sort_entries
has_pc-sort_entries p [] = refl
has_pc-sort_entries p (e ∷ table) =
    ground (arith, has_pc-insert_entry p e (sort_entries table), has_pc-sort_entries p table)

pub sort_entries-Below : (n : ℕ) (table : List Entry) → Below n table → Below n (sort_entries table)
unfolding sort_entries
sort_entries-Below n [] h = tt
sort_entries-Below n (e ∷ table) h =
    insert_entry-Below n e (sort_entries table) h.0 (sort_entries-Below n table h.1)

pub sort_entries-Increasing :
    (table : List Entry) → Distinct table → Increasing (sort_entries table)
unfolding sort_entries
sort_entries-Increasing [] h = tt
sort_entries-Increasing (e ∷ table) h =
    insert_entry-Increasing e (sort_entries table) (has_pc-sort_entries e.entry_pc table ∙ h.0)
      (sort_entries-Increasing table h.1)

-- Each range is in the code and holds its own start.
abbrev pub AllWithin : ℕ → List FunctionRange → Type 0
AllWithin code_end [] = Unit
AllWithin code_end (r ∷ ranges) = (r.start < r.end) × (r.end ≤ code_end) × AllWithin code_end ranges

pub ranges_of-AllWithin :
    (n : ℕ) (table : List Entry)
    → Increasing table
    → Below n table
    → AllWithin n (ranges_of n table)
unfolding ranges_of
ranges_of-AllWithin n [] up below = tt
ranges_of-AllWithin n (e ∷ []) up below = (below.0, omega arith, tt)
ranges_of-AllWithin n (e ∷ f ∷ table) up below =
    (up.0.0, omega (arith, below.1.0), ranges_of-AllWithin n (f ∷ table) up.1 below.1)

-- Where the first of the ranges starts; with none, the end of the code.
abbrev first_start : ℕ → List FunctionRange → ℕ
first_start code_end [] = code_end
first_start code_end (r ∷ ranges) = r.start

-- A range ends where the next one starts, and the last one with the code, so that no two overlap.
abbrev pub Consecutive : ℕ → List FunctionRange → Type 0
Consecutive code_end [] = Unit
Consecutive code_end (r ∷ ranges) =
    (r.end ≡ first_start code_end ranges) × Consecutive code_end ranges

pub ranges_of-Consecutive : (n : ℕ) (table : List Entry) → Consecutive n (ranges_of n table)
unfolding ranges_of
ranges_of-Consecutive n [] = tt
ranges_of-Consecutive n (e ∷ []) = (refl, tt)
ranges_of-Consecutive n (e ∷ f ∷ []) = (refl, ranges_of-Consecutive n (f ∷ []))
ranges_of-Consecutive n (e ∷ f ∷ g ∷ table) = (refl, ranges_of-Consecutive n (f ∷ g ∷ table))

-- The table grows at its end.
pub has_pc-last :
    (p : ℕ) (table : List Entry) (e : Entry)
    → has_pc p (table ++ e ∷ []) ≡ (has_pc p table || e.entry_pc == p)
has_pc-last p [] e = ground arith
has_pc-last p (x ∷ table) e = ground (arith, has_pc-last p table e)

pub Distinct-last :
    (table : List Entry) (e : Entry)
    → Distinct table
    → has_pc e.entry_pc table ≡ false
    → Distinct (table ++ e ∷ [])
Distinct-last [] e h fresh = (refl, tt)
Distinct-last (x ∷ table) e h fresh = (
  ground (
    arith,
    has_pc-last x.entry_pc table e,
    ==_iff x.entry_pc e.entry_pc,
    ==_iff e.entry_pc x.entry_pc,
  ),
  Distinct-last table e h.1 (ground arith),
)

pub Below-last :
    (n : ℕ) (table : List Entry) (e : Entry)
    → Below n table
    → e.entry_pc < n
    → Below n (table ++ e ∷ [])
Below-last n [] e h lt = (lt, tt)
Below-last n (x ∷ table) e h lt = (h.0, Below-last n table e h.1 lt)
