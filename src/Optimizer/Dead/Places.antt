-- ===== src/Optimizer/Dead/Places.antt =====
-- src/optimizer.rs: the places that dead code elimination gives to instructions.
use minilang_rs.Prelude.{
  ℕ, zero, suc, ◌+◌, ◌≡◌, refl, true, false, List, [], ◌∷◌, some, arith, length, Bool-cases, inl,
  inr, ◌⊎◌, ◌≤◌, ◌<◌, none, ◌==◌, contains, get_elem?, lookup, ==_iff,
}
use minilang_rs.Bytecode.{Instruction}
use minilang_rs.Optimizer.Dead.{number, keep, remap}

-- The instruction stands, with its target moved, at the place that the map gives it.
abbrev pub Places : List ℕ → List (ℕ × ℕ) → ℕ → ℕ → List Instruction → ℕ → Instruction → Type 0
Places r old_to_new old new code k instr =
    (n : ℕ) × (lookup (old + k) (number r old new code) ≡ some (new + n))
    × (get_elem? (keep r old_to_new old code).0 n ≡ some (remap old_to_new instr))

pub keep-Places :
    (r : List ℕ) (old_to_new : List (ℕ × ℕ)) (old new : ℕ) (code : List Instruction) (k : ℕ)
    (instr : Instruction)
    → get_elem? code k ≡ some instr
    → contains (old + k) r ≡ true
    → Places r old_to_new old new code k instr
unfolding number keep
keep-Places r m old new [] k instr at kept = absurd (cc at)
keep-Places r m old new (i ∷ rest) zero instr at kept =
    (0, ground (arith, kept, ==_iff old old), ground (arith, kept, at))
keep-Places r m old new (i ∷ rest) (suc k) instr at kept =
    go (keep-Places r m (old + 1) (new + 1) rest k instr at (rw (← next_index) kept))
      (keep-Places r m (old + 1) new rest k instr at (rw (← next_index) kept))
      (Bool-cases (contains old r))
  where
    next_index : old + suc k ≡ (old + 1) + k
    next_index = omega arith

    differs : old == old + suc k ≡ false
    differs = ground arith

    at_later :
        (new' n : ℕ)
        → lookup (old + 1 + k) (number r (old + 1) new' rest) ≡ some n
        → lookup (old + suc k) (number r (old + 1) new' rest) ≡ some n
    at_later new' n place = rw next_index place

    go :
        Places r m (old + 1) (new + 1) rest k instr
        → Places r m (old + 1) new rest k instr
        → (contains old r ≡ true) ⊎ (contains old r ≡ false)
        → Places r m old new (i ∷ rest) (suc k) instr
    go (n, place, same) later (inl here) = (
      suc n,
      ground (arith, here, at_later (new + 1) (new + 1 + n) place, differs),
      ground (arith, here, same),
    )
    go later (n, place, same) (inr gone) =
        (n, ground (arith, gone, at_later new (new + n) place), ground (arith, gone, same))

pub keep-length :
    (r : List ℕ) (m : List (ℕ × ℕ)) (old : ℕ) (code : List Instruction)
    → length (keep r m old code).0 + (keep r m old code).1 ≡ length code
unfolding keep
keep-length r m old [] = refl
keep-length r m old (i ∷ rest) = ground (arith, keep-length r m (old + 1) rest)

pub number-above :
    (r : List ℕ) (old new : ℕ) (code : List Instruction) (q : ℕ)
    → old + length code ≤ q
    → lookup q (number r old new code) ≡ none
unfolding number
number-above r old new [] q out = refl
number-above r old new (i ∷ rest) q out = ground (
  arith,
  number-above r (old + 1) (new + 1) rest q (omega arith),
  number-above r (old + 1) new rest q (omega arith),
  ==_iff old q,
)

number-below :
    (r : List ℕ) (old new : ℕ) (code : List Instruction) (q : ℕ)
    → q < old
    → lookup q (number r old new code) ≡ none
unfolding number
number-below r old new [] q out = refl
number-below r old new (i ∷ rest) q out = ground (
  arith,
  number-below r (old + 1) (new + 1) rest q (omega arith),
  number-below r (old + 1) new rest q (omega arith),
  ==_iff old q,
)

-- The first place is given to the first instruction that is kept, and each next one follows.
number-first :
    (r : List ℕ) (old new : ℕ) (code : List Instruction)
    → 0 < length code
    → contains old r ≡ true
    → lookup old (number r old new code) ≡ some new
unfolding number
number-first r old new [] h kept = elim h [ ]
number-first r old new (i ∷ rest) h kept = ground (arith, ==_iff old old)

pub number-next :
    (r : List ℕ) (old new : ℕ) (code : List Instruction) (q n : ℕ)
    → lookup q (number r old new code) ≡ some n
    → contains (q + 1) r ≡ true
    → q + 1 < old + length code
    → lookup (q + 1) (number r old new code) ≡ some (n + 1)
unfolding number
number-next r old new [] q n found kept inside = absurd (cc found)
number-next r old new (i ∷ rest) q n found kept inside =
    go (Bool-cases (contains old r)) (Bool-cases (old == q)) (Bool-cases (old == q + 1))
      (number-next r (old + 1) (new + 1) rest q n) (number-next r (old + 1) new rest q n)
  where
    Later : ℕ → Type 0
    Later new' =
        lookup q (number r (old + 1) new' rest) ≡ some n
        → contains (q + 1) r ≡ true
        → q + 1 < old + 1 + length rest
        → lookup (q + 1) (number r (old + 1) new' rest) ≡ some (n + 1)

    go :
        (contains old r ≡ true) ⊎ (contains old r ≡ false)
        → (old == q ≡ true) ⊎ (old == q ≡ false)
        → (old == q + 1 ≡ true) ⊎ (old == q + 1 ≡ false)
        → Later (new + 1)
        → Later new
        → lookup (q + 1) (number r old new (i ∷ rest)) ≡ some (n + 1)
    go (inl here) (inl same) d later later' =
        let e : old ≡ q = (==_iff old q).0 same in
        let kept' : contains (old + 1) r ≡ true = rw e kept in
        let first = number-first r (old + 1) (new + 1) rest (omega (arith, e, inside)) kept' in
        ground (arith, here, same, ==_iff old (q + 1), rw e at first)
    go (inl here) (inr other) (inl next) later later' = absurd (
        ground (
          arith,
          here,
          other,
          number-below r (old + 1) (new + 1) rest q (ground (arith, ==_iff old (q + 1), next)),
        ))
    go (inl here) (inr other) (inr far) later later' = ground (arith, here, other, far)
    go (inr gone) c (inl next) later later' = absurd (
        ground (
          arith,
          gone,
          number-below r (old + 1) new rest q (ground (arith, ==_iff old (q + 1), next)),
        ))
    go (inr gone) c (inr far) later later' = ground (arith, gone, far)
