-- ===== src/Optimizer/Dead/Walk.antt =====
-- src/optimizer.rs: the walk of dead code elimination.
use minilang_rs.Prelude.{
  ℕ, zero, suc, ◌+◌, ◌*◌, ◌≤◌, ◌<◌, ◌≡◌, ◌↔◌, ◌∙◌, sym, refl, true, false, ◌||◌, List, [], ◌∷◌,
  ◌++◌, Option, some, some-injective, arith, length, leb, Bool-cases, inl, inr, ◌⊎◌, if◌then◌else◌,
  ◌==◌, contains, get_elem?, get_elem?-some, ==_iff, length-append,
}
use minilang_rs.Prelude.Int.{ℤ}
use minilang_rs.Bytecode.{Opcode, Instruction, FunctionInfo}
use minilang_rs.Optimizer.Dead.Control.{GoesTo, successors-GoesTo}
use minilang_rs.Optimizer.Dead.{successors, reach, reach_fuel, entry_points}

-- How many indices below `n` are not in the set.
unseen : ℕ → List ℕ → ℕ
unseen zero seen = 0
unseen (suc n) seen = unseen n seen + (if contains n seen then 0 else 1)

unseen-above : (n pc : ℕ) (seen : List ℕ) → n ≤ pc → unseen n (pc ∷ seen) ≡ unseen n seen
unfolding unseen
unseen-above zero pc seen le = refl
unseen-above (suc n) pc seen le = ground (arith, unseen-above n pc seen (omega arith), ==_iff pc n)

unseen-insert :
    (n pc : ℕ) (seen : List ℕ)
    → pc < n
    → contains pc seen ≡ false
    → unseen n (pc ∷ seen) + 1 ≡ unseen n seen
unfolding unseen
unseen-insert zero pc seen lt fresh = elim lt [ ]
unseen-insert (suc n) pc seen lt fresh = elim (Bool-cases (pc == n)) [
  | inl e ↦ ground (arith, unseen-above n pc seen (ground (arith, ==_iff pc n)), ==_iff pc n)
  | inr e ↦ ground (arith, unseen-insert n pc seen (ground (arith, ==_iff pc n)) fresh, ==_iff pc n)
]

unseen-nil : (n : ℕ) → unseen n [] ≡ n
unfolding unseen
unseen-nil zero = refl
unseen-nil (suc n) = omega (arith, unseen-nil n)

contains-append :
    (q : ℕ) (xs ys : List ℕ) → contains q (xs ++ ys) ≡ (contains q xs || contains q ys)
contains-append q [] ys = refl
contains-append q (x ∷ xs) ys = ground (arith, contains-append q xs ys)

length-successors : (pc : ℕ) (o : Opcode) (arg1 : ℤ) → length (successors pc o arg1) ≤ 2
unfolding successors
length-successors pc Opcode.jump arg1 = omega arith
length-successors pc Opcode.jump_if_false arg1 = omega arith
length-successors pc Opcode.jump_if_true arg1 = omega arith
length-successors pc Opcode.return arg1 = omega arith
length-successors pc Opcode.halt arg1 = omega arith
length-successors pc o arg1 = omega arith

-- What control can come to from the entries, along the instructions.
pub data IsReachable (code : List Instruction) (entries : List ℕ) : ℕ → Type 0 where
  entry : {pc : ℕ} → contains pc entries ≡ true → pc < length code → IsReachable code entries pc
  next :
      {pc s : ℕ} (instr : Instruction)
      → IsReachable code entries pc
      → get_elem? code pc ≡ some instr
      → GoesTo pc instr.opcode instr.arg1 s
      → s < length code
      → IsReachable code entries s

module _ (code : List Instruction) (entries : List ℕ) where
  -- What the walk keeps: it has met and waits for reachable code only, and each entry and each
  -- successor of what it has met is met or waits.
  record Walk (worklist reachable : List ℕ) : Type 0 where
    met : (q : ℕ) → contains q reachable ≡ true → IsReachable code entries q
    waits : (q : ℕ) → contains q worklist ≡ true → q < length code → IsReachable code entries q
    entries_in :
        (q : ℕ)
        → contains q entries ≡ true
        → q < length code
        → (contains q reachable || contains q worklist) ≡ true
    closed :
        (q s : ℕ) (instr : Instruction)
        → contains q reachable ≡ true
        → get_elem? code q ≡ some instr
        → contains s (successors q instr.opcode instr.arg1) ≡ true
        → s < length code
        → (contains s reachable || contains s worklist) ≡ true

  Walk-skip :
      (pc : ℕ) (worklist reachable : List ℕ)
      → (leb (length code) pc || contains pc reachable) ≡ true
      → Walk (pc ∷ worklist) reachable
      → Walk worklist reachable
  Walk-skip pc worklist reachable old walk = record {
    met = walk.met;
    waits = λ q e lt. walk.waits q (ground arith) lt;
    entries_in = λ q e lt. still q lt (walk.entries_in q e lt);
    closed = λ q s instr e at in_s lt. still s lt (walk.closed q s instr e at in_s lt);
  }
    where
      still :
          (q : ℕ)
          → q < length code
          → (contains q reachable || contains q (pc ∷ worklist)) ≡ true
          → (contains q reachable || contains q worklist) ≡ true
      still q lt e = ground (arith, ==_iff pc q, old)

  Walk-add :
      (pc : ℕ) (instr : Instruction) (worklist reachable : List ℕ)
      → pc < length code
      → get_elem? code pc ≡ some instr
      → Walk (pc ∷ worklist) reachable
      → Walk (successors pc instr.opcode instr.arg1 ++ worklist) (pc ∷ reachable)
  Walk-add pc instr worklist reachable inside at walk = record {
    met = λ q e. met_now q e (Bool-cases (pc == q));
    waits = λ q e lt. waits_now q lt (Bool-cases (contains q new)) e;
    entries_in = λ q e lt. still q (walk.entries_in q e lt);
    closed = λ q s i e at_q in_s lt. closed_now q s i e at_q in_s lt (Bool-cases (pc == q));
  }
    where
      new : List ℕ
      new = successors pc instr.opcode instr.arg1

      here : IsReachable code entries pc
      here = walk.waits pc (ground (arith, ==_iff pc pc)) inside

      met_now :
          (q : ℕ)
          → contains q (pc ∷ reachable) ≡ true
          → (pc == q ≡ true) ⊎ (pc == q ≡ false)
          → IsReachable code entries q
      met_now q e (inl p) = rw (← (==_iff pc q).0 p) here
      met_now q e (inr p) = walk.met q (ground arith)

      still :
          (q : ℕ)
          → (contains q reachable || contains q (pc ∷ worklist)) ≡ true
          → (contains q (pc ∷ reachable) || contains q (new ++ worklist)) ≡ true
      still q e = ground (arith, contains-append q new worklist)

      waits_now :
          (q : ℕ)
          → q < length code
          → (contains q new ≡ true) ⊎ (contains q new ≡ false)
          → contains q (new ++ worklist) ≡ true
          → IsReachable code entries q
      waits_now q lt (inl e) h =
          next instr here at ((successors-GoesTo pc instr.opcode instr.arg1 q).0 e) lt
      waits_now q lt (inr e) h = walk.waits q (ground (arith, contains-append q new worklist)) lt

      closed_now :
          (q s : ℕ) (i : Instruction)
          → contains q (pc ∷ reachable) ≡ true
          → get_elem? code q ≡ some i
          → contains s (successors q i.opcode i.arg1) ≡ true
          → s < length code
          → (pc == q ≡ true) ⊎ (pc == q ≡ false)
          → (contains s (pc ∷ reachable) || contains s (new ++ worklist)) ≡ true
      closed_now q s i e at_q in_s lt (inl p) =
          ground (arith, contains-append s new worklist, from_new ((==_iff pc q).0 p))
        where
          from_new : pc ≡ q → contains s new ≡ true
          from_new same_pc =
              let same_instr = some-injective i instr (sym at_q ∙ rw (← same_pc) at) in
              rw (same_pc, ← same_instr) in_s
      closed_now q s i e at_q in_s lt (inr p) =
          still s (walk.closed q s i (ground arith) at_q in_s lt)

  -- The walk's result: all of the reachable code, and nothing else.
  abbrev Walks : Option (List ℕ) → Type 0
  Walks o =
      (r : List ℕ) × (o ≡ some r) × ((q : ℕ) → (contains q r ≡ true) ↔ IsReachable code entries q)

  Walk-ends :
      (reachable : List ℕ)
      → Walk [] reachable
      → (q : ℕ) → (contains q reachable ≡ true) ↔ IsReachable code entries q
  Walk-ends reachable walk q = (walk.met q, back q)
    where
      back : (q : ℕ) → IsReachable code entries q → contains q reachable ≡ true
      back q (entry e lt) = ground (arith, walk.entries_in q e lt)
      back q (next {pc} instr h at goes lt) = ground (
        arith,
        walk.closed pc q instr (back pc h) at
            ((successors-GoesTo pc instr.opcode instr.arg1 q).1 goes) lt,
      )

  reach-Walks :
      (fuel : ℕ) (worklist reachable : List ℕ)
      → length worklist + 3 * unseen (length code) reachable < fuel
      → Walk worklist reachable
      → Walks (reach code fuel worklist reachable)
  unfolding reach
  reach-Walks zero worklist reachable enough walk = elim enough [ ]
  reach-Walks (suc fuel) [] reachable enough walk = (reachable, refl, Walk-ends reachable walk)
  reach-Walks (suc fuel) (pc ∷ worklist) reachable enough walk =
      go (λ w r. reach-Walks fuel w r) (Bool-cases (leb (length code) pc || contains pc reachable))
    where
      Later : Type 0
      Later =
          (w r : List ℕ)
          → length w + 3 * unseen (length code) r < fuel
          → Walk w r
          → Walks (reach code fuel w r)

      go :
          Later
          → ((leb (length code) pc || contains pc reachable) ≡ true)
            ⊎ ((leb (length code) pc || contains pc reachable) ≡ false)
          → Walks (reach code (suc fuel) (pc ∷ worklist) reachable)
      go later (inl old) =
          rw (old, reach)
            (later worklist reachable (omega arith) (Walk-skip pc worklist reachable old walk))
      go later (inr fresh) =
          let inside : pc < length code = ground arith in
          let (instr, at) = get_elem?-some code pc inside in
          rw (fresh, at, reach)
            (later (successors pc instr.opcode instr.arg1 ++ worklist) (pc ∷ reachable)
              (fewer instr inside) (Walk-add pc instr worklist reachable inside at walk))
        where
          fewer :
              (instr : Instruction)
              → pc < length code
              → length (successors pc instr.opcode instr.arg1 ++ worklist)
                  + 3 * unseen (length code) (pc ∷ reachable)
                < fuel
          fewer instr inside = omega (
            arith,
            length-append (successors pc instr.opcode instr.arg1) worklist,
            length-successors pc instr.opcode instr.arg1,
            unseen-insert (length code) pc reachable inside (ground arith),
          )

length-entry_points :
    (functions : List (ℕ × FunctionInfo)) → length (entry_points functions) ≡ length functions
unfolding entry_points
length-entry_points [] = refl
length-entry_points ((id, func) ∷ functions) = omega (arith, length-entry_points functions)

-- The walk of dead code elimination always ends, and the instructions that it has met are those
-- that control can come to from the entry of a function: on to the next one after every opcode but
-- jump, return and halt, and to the target of each of the three jumps.
pub reach-IsReachable :
    (code : List Instruction) (functions : List (ℕ × FunctionInfo))
    → (r : List ℕ) × (reach code (reach_fuel code functions) (entry_points functions) [] ≡ some r)
      × ((q : ℕ) → (contains q r ≡ true) ↔ IsReachable code (entry_points functions) q)
unfolding reach_fuel
reach-IsReachable code functions =
    reach-Walks code (entry_points functions) (reach_fuel code functions) (entry_points functions)
      [] (omega (arith, length-entry_points functions, unseen-nil (length code)))
      record {
        met = λ q e. absurd (cc e);
        waits = λ q e lt. entry e lt;
        entries_in = λ q e lt. e;
        closed = λ q s instr e. absurd (cc e);
      }
