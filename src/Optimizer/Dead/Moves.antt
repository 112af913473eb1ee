-- ===== src/Optimizer/Dead/Moves.antt =====
-- src/optimizer.rs: what dead code elimination does to the code and the functions.
use minilang_rs.Prelude.{
  ℕ, ◌+◌, ◌≤◌, ◌<◌, ◌≡◌, ◌↔◌, ◌∙◌, refl, true, false, List, [], ◌∷◌, some, arith, length,
  Bool-cases, inl, inr, ◌⊎◌, ◌==◌, contains, get_elem?, get_elem?-some, lookup, ltb, ltb→lt, ==_iff,
}
use mathlib.Core.Path.{subst, ap}
use minilang_rs.Prelude.Int.{pos}
use minilang_rs.Word.{as_usize}
use minilang_rs.Bytecode.{Opcode, Instruction, FunctionInfo}
use minilang_rs.Optimizer.Passes.{as_i32, is_jump}
use minilang_rs.Optimizer.Dead.{
  entry_points, number, keep, remap, sweep, Swept, move_functions, dead_code_elimination,
}
use minilang_rs.Optimizer.Dead.Control.{Jumps}
use minilang_rs.Optimizer.Dead.Walk.{IsReachable, entry, next, reach-IsReachable}
use minilang_rs.Optimizer.Dead.Places.{Places, keep-Places, keep-length, number-above, number-next}

-- The instruction after the move: the same, but for the target of a jump, which is the new place
-- of the old target, or the old target if that is outside the code.
pub record Relocated (code : List Instruction) (places : List (ℕ × ℕ)) (instr moved : Instruction)
    : Type 0 where
  pub same_opcode : moved.opcode ≡ instr.opcode
  pub same_arg2 : moved.arg2 ≡ instr.arg2
  pub no_jump : (Jumps instr.opcode → ⊥) → moved.arg1 ≡ instr.arg1
  pub to_place :
      Jumps instr.opcode
      → as_usize instr.arg1 < length code
      → (n : ℕ) × (lookup (as_usize instr.arg1) places ≡ some n) × (moved.arg1 ≡ as_i32 (pos n))
  pub to_outside :
      Jumps instr.opcode
      → length code ≤ as_usize instr.arg1
      → moved.arg1 ≡ as_i32 (pos (as_usize instr.arg1))

-- Each function has moved to the new place of its entry, and one that starts outside the code is
-- left out.
pub data FunctionsMoved (code_end : ℕ) (places : List (ℕ × ℕ))
    : List (ℕ × FunctionInfo) → List (ℕ × FunctionInfo) → Type 0 where
  all_moved : FunctionsMoved code_end places [] []
  function_moved :
      {id n : ℕ} {func : FunctionInfo} {functions functions' : List (ℕ × FunctionInfo)}
      → lookup func.entry_pc places ≡ some n
      → FunctionsMoved code_end places functions functions'
      → FunctionsMoved code_end places
          ((id, func) ∷ functions)
          ((id, record func { entry_pc = n }) ∷ functions')
  function_outside :
      {id : ℕ} {func : FunctionInfo} {functions functions' : List (ℕ × FunctionInfo)}
      → code_end ≤ func.entry_pc
      → FunctionsMoved code_end places functions functions'
      → FunctionsMoved code_end places ((id, func) ∷ functions) functions'

-- What dead code elimination has done to the code.
pub data Moves (code : List Instruction) (functions : List (ℕ × FunctionInfo)) (swept : Swept)
    : Type 0 where
  unchanged : swept ≡ (code, functions, 0) → Moves code functions swept
  moved :
      (places : List (ℕ × ℕ))
      → ((pc : ℕ) (instr : Instruction)
          → IsReachable code (entry_points functions) pc
          → get_elem? code pc ≡ some instr
          → (n : ℕ) × (moved : Instruction) × (lookup pc places ≡ some n)
            × (get_elem? swept.0 n ≡ some moved)
            × Relocated code places instr moved)
      → ((pc n : ℕ)
          → lookup pc places ≡ some n
          → IsReachable code (entry_points functions) (pc + 1)
          → lookup (pc + 1) places ≡ some (n + 1))
      → FunctionsMoved (length code) places functions swept.1
      → length swept.0 + swept.2 ≡ length code
      → Moves code functions swept

is_jump_iff : (o : Opcode) → (is_jump o ≡ true) ↔ Jumps o
is_jump_iff o = ground arith

entry_of :
    {code : List Instruction} {entries : List ℕ} {q : ℕ}
    → IsReachable code entries q
    → q < length code
entry_of (entry e lt) = lt
entry_of (next instr h at goes lt) = lt

module _ (code : List Instruction) (functions : List (ℕ × FunctionInfo)) (r : List ℕ)
    (met : (q : ℕ) → (contains q r ≡ true) ↔ IsReachable code (entry_points functions) q) where
  from_zero : (pc : ℕ) → IsReachable code (entry_points functions) pc → contains (0 + pc) r ≡ true
  from_zero pc h = subst (λ q. contains q r ≡ true) (omega arith) ((met pc).1 h)

  -- A reachable instruction has a place, and stands there.
  placed :
      (pc : ℕ) (instr : Instruction)
      → IsReachable code (entry_points functions) pc
      → get_elem? code pc ≡ some instr
      → (n : ℕ) × (lookup pc (number r 0 0 code) ≡ some n)
        × (get_elem? (keep r (number r 0 0 code) 0 code).0 n
            ≡ some (remap (number r 0 0 code) instr))
  placed pc instr h at =
      from_start (keep-Places r (number r 0 0 code) 0 0 code pc instr at (from_zero pc h))
    where
      from_start :
          Places r (number r 0 0 code) 0 0 code pc instr
          → (n : ℕ) × (lookup pc (number r 0 0 code) ≡ some n)
            × (get_elem? (keep r (number r 0 0 code) 0 code).0 n
                ≡ some (remap (number r 0 0 code) instr))
      from_start (n, place, same) = (
        n,
        subst (λ q. lookup q (number r 0 0 code) ≡ some n) (omega arith)
            (place ∙ ap some (omega arith)),
        same,
      )

  has_place :
      (pc : ℕ)
      → IsReachable code (entry_points functions) pc
      → (n : ℕ) × (lookup pc (number r 0 0 code) ≡ some n)
  has_place pc h =
      let (instr, at) = get_elem?-some code pc (entry_of h) in
      let (n, place, _) = placed pc instr h at in (n, place)

  remap-Relocated :
      (pc : ℕ) (instr : Instruction)
      → IsReachable code (entry_points functions) pc
      → get_elem? code pc ≡ some instr
      → Relocated code (number r 0 0 code) instr (remap (number r 0 0 code) instr)
  unfolding remap
  remap-Relocated pc instr h at = go (Bool-cases (is_jump instr.opcode))
    where
      go :
          (is_jump instr.opcode ≡ true) ⊎ (is_jump instr.opcode ≡ false)
          → Relocated code (number r 0 0 code) instr (remap (number r 0 0 code) instr)
      go (inr none_here) =
          rw (none_here, remap)
            record {
              same_opcode = refl;
              same_arg2 = refl;
              no_jump = λ _. refl;
              to_place = λ jumps lt. absurd (cc ((is_jump_iff instr.opcode).1 jumps));
              to_outside = λ jumps le. absurd (cc ((is_jump_iff instr.opcode).1 jumps));
            }
      go (inl here) =
          rw (here, remap)
            record {
              same_opcode = refl;
              same_arg2 = refl;
              no_jump = λ not_here. absurd (not_here ((is_jump_iff instr.opcode).0 here));
              to_place = λ jumps lt.
                  let (n, place) =
                    has_place (as_usize instr.arg1) (next instr h at (inr (jumps, refl)) lt) in
                  (n, place, rw place refl);
              to_outside = λ jumps le.
                  rw (number-above r 0 0 code (as_usize instr.arg1) (omega (arith, le))) refl;
            }

  move_functions-FunctionsMoved :
      (rest : List (ℕ × FunctionInfo))
      → ((q : ℕ)
          → contains q (entry_points rest) ≡ true
          → contains q (entry_points functions) ≡ true)
      → FunctionsMoved
          (length code)
          (number r 0 0 code)
          rest
          (move_functions (number r 0 0 code) rest)
  unfolding move_functions entry_points
  move_functions-FunctionsMoved [] among = all_moved
  move_functions-FunctionsMoved ((id, func) ∷ rest) among =
      go (move_functions-FunctionsMoved rest (λ q e. among q (ground arith)))
        (Bool-cases (ltb func.entry_pc (length code)))
    where
      go :
          FunctionsMoved
            (length code)
            (number r 0 0 code)
            rest
            (move_functions (number r 0 0 code) rest)
          → (ltb func.entry_pc (length code) ≡ true) ⊎ (ltb func.entry_pc (length code) ≡ false)
          → FunctionsMoved
              (length code)
              (number r 0 0 code)
              ((id, func) ∷ rest)
              (move_functions (number r 0 0 code) ((id, func) ∷ rest))
      go later (inl inside) =
          let lt : func.entry_pc < length code = ltb→lt _ _ inside in
          let (n, place) =
            has_place func.entry_pc (
              entry (among func.entry_pc (ground (arith, ==_iff func.entry_pc func.entry_pc)))
                lt) in
          rw (place, move_functions) (function_moved place later)
      go later (inr outside) =
          let le : length code ≤ func.entry_pc = ground (arith, outside) in
          rw (number-above r 0 0 code func.entry_pc (omega (arith, le)), move_functions)
            (function_outside le later)

  sweep-Moves : Moves code functions (sweep code functions r)
  unfolding sweep
  sweep-Moves = go (Bool-cases (length r == length code))
    where
      go :
          (length r == length code ≡ true) ⊎ (length r == length code ≡ false)
          → Moves code functions (sweep code functions r)
      go (inl all) = rw (all, sweep) (unchanged refl)
      go (inr some_dead) =
          rw (some_dead, sweep)
            (moved (number r 0 0 code)
              (λ pc instr h at.
                let (n, place, same) = placed pc instr h at in
                (n, remap (number r 0 0 code) instr, place, same, remap-Relocated pc instr h at))
              (λ pc n place h.
                number-next r 0 0 code pc n place ((met (pc + 1)).1 h) (omega (arith, entry_of h)))
              (move_functions-FunctionsMoved functions (λ q e. e))
              (keep-length r (number r 0 0 code) 0 code))

-- Dead code elimination always ends. It leaves the program alone, or it gives a map of the old
-- places to new ones. Under it each instruction that control can come to stands at its new place,
-- with its opcode and arguments but for a jump, whose target is the new place of the old target;
-- what follows it in the old code and can be come to follows it in the new code; each function
-- starts at the new place of its entry, one that starts outside the code being left out; and the
-- kept and the removed instructions make up the code.
pub dead_code_elimination-Moves :
    (code : List Instruction) (functions : List (ℕ × FunctionInfo))
    → (swept : Swept) × (dead_code_elimination code functions ≡ some swept)
      × Moves code functions swept
unfolding dead_code_elimination
dead_code_elimination-Moves [] functions = (([], functions, 0), refl, unchanged refl)
dead_code_elimination-Moves (instr ∷ rest) functions =
    let (r, found, met) = reach-IsReachable (instr ∷ rest) functions in
    (
      sweep (instr ∷ rest) functions r,
      rw (found, dead_code_elimination),
      sweep-Moves (instr ∷ rest) functions r met,
    )
