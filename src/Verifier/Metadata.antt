-- ===== src/Verifier/Metadata.antt =====
-- src/verifier.rs: `verify_global_metadata` and `function_ranges`.
-- The claimed slots are a list of Booleans, the hash set of entries a list, and the functions come
-- in the order of the association list, where the source has a hash map's order.
pub mod Layout
pub mod Ranges
pub mod Functions
pub mod Coverage
use minilang_rs.Prelude.{
  ℕ, zero, suc, ◌+◌, Bool, true, false, ◌&&◌, List, [], ◌∷◌, ◌++◌, Option, none, some, get_elem?,
  set, replicate, contains, length, leb, ltb, if◌then◌else◌, ◌==◌,
}
use minilang_rs.Limits.{max_global_slots, max_local_slots, usize_max}
use minilang_rs.Bytecode.{GlobalInfo, FunctionInfo, CompiledProgram}
use minilang_rs.Verifier.Report.{
  VerificationError, Message, FunctionRange, zero_size_global, global_range_overflow,
  global_exceeds_limit, global_overlap, too_many_params, too_many_locals, entry_out_of_bounds,
  duplicate_entry,
}

abbrev pub error_at : Option ℕ → Message → List VerificationError → List VerificationError
error_at pc message errors = errors ++ record { pc = pc; message = message } ∷ []

abbrev pub is_claimed : List Bool → ℕ → Bool
is_claimed claimed slot = elim (get_elem? claimed slot) [ some b ↦ b | none ↦ false ]

-- The slots of one global, which lie within the list.
unfoldable pub claim :
    ℕ → ℕ → List Bool × List VerificationError → List Bool × List VerificationError
claim slot zero state = state
claim slot (suc width) (claimed, errors) = claim (slot + 1) width (
  set claimed slot true,
  if is_claimed claimed slot then error_at none global_overlap errors else errors,
)

-- The number of slots of a global.
abbrev pub global_width : GlobalInfo → ℕ
global_width info = if info.is_array then info.array_size else 1

unfoldable pub verify_global :
    GlobalInfo → List Bool × List VerificationError → List Bool × List VerificationError
unfolding claim
verify_global info (claimed, errors) =
    if info.is_array && info.array_size == 0
    then (claimed, error_at none zero_size_global errors)
    else if ltb usize_max (info.slot + global_width info)
    then (claimed, error_at none global_range_overflow errors)
    else if ltb max_global_slots (info.slot + global_width info)
    then (claimed, error_at none global_exceeds_limit errors)
    else claim info.slot (global_width info) (claimed, errors)

unfoldable pub verify_globals :
    List GlobalInfo → List Bool × List VerificationError → List Bool × List VerificationError
verify_globals [] state = state
verify_globals (info ∷ globals) state = verify_globals globals (verify_global info state)

unfoldable pub verify_global_metadata :
    List GlobalInfo → List VerificationError → List VerificationError
unfolding verify_globals
verify_global_metadata globals errors =
    (verify_globals globals (replicate max_global_slots false, errors)).1

-- An entry of the table that `function_ranges` sorts.
pub record Entry : Type 0 where
  pub entry_pc : ℕ
  pub id : ℕ
  pub info : FunctionInfo

-- The table, the entries seen, and the errors.
pub record Entries : Type 0 where
  pub table : List Entry
  pub seen : List ℕ
  pub errors : List VerificationError

-- The two checks that do not leave the function out.
unfoldable pub check_info : FunctionInfo → List VerificationError → List VerificationError
check_info info errors =
    let errors₁ =
      if ltb info.local_count info.param_count
      then error_at (some info.entry_pc) too_many_params errors
      else errors in
    if ltb max_local_slots info.local_count
    then error_at (some info.entry_pc) too_many_locals errors₁
    else errors₁

unfoldable pub collect_entry : CompiledProgram → ℕ → FunctionInfo → Entries → Entries
unfolding check_info
collect_entry program id info entries =
    let errors = check_info info entries.errors in
    if leb (length program.instructions) info.entry_pc
    then record entries { errors = error_at (some info.entry_pc) entry_out_of_bounds errors }
    else record {
      table = entries.table ++ record { entry_pc = info.entry_pc; id = id; info = info } ∷ [];
      seen =
          if contains info.entry_pc entries.seen
          then entries.seen
          else info.entry_pc ∷ entries.seen;
      errors =
          if contains info.entry_pc entries.seen
          then error_at (some info.entry_pc) duplicate_entry errors
          else errors;
    }

unfoldable pub collect_entries : CompiledProgram → List (ℕ × FunctionInfo) → Entries → Entries
collect_entries program [] entries = entries
collect_entries program ((id, info) ∷ functions) entries =
    collect_entries program functions (collect_entry program id info entries)

-- `sort_by_key`, which is stable.
unfoldable pub insert_entry : Entry → List Entry → List Entry
insert_entry e [] = e ∷ []
insert_entry e (x ∷ table) =
    let later = insert_entry e table in
    if ltb x.entry_pc e.entry_pc then x ∷ later else e ∷ x ∷ table

unfoldable pub sort_entries : List Entry → List Entry
unfolding insert_entry
sort_entries [] = []
sort_entries (e ∷ table) = insert_entry e (sort_entries table)

-- A function ends where the next one starts, and the last one with the code.
unfoldable pub ranges_of : ℕ → List Entry → List FunctionRange
ranges_of code_end [] = []
ranges_of code_end (e ∷ []) =
    record { id = e.id; info = e.info; start = e.entry_pc; end = code_end } ∷ []
ranges_of code_end (e ∷ f ∷ table) =
    record { id = e.id; info = e.info; start = e.entry_pc; end = f.entry_pc }
    ∷ ranges_of code_end (f ∷ table)

unfoldable pub function_ranges :
    CompiledProgram → List VerificationError → List FunctionRange × List VerificationError
unfolding collect_entries sort_entries ranges_of
function_ranges program errors =
    let entries =
      collect_entries program program.functions
        (record { table = []; seen = []; errors = errors }) in
    (ranges_of (length program.instructions) (sort_entries entries.table), entries.errors)
