-- ===== src/Verifier/Total/Weight.antt =====
-- src/verifier.rs: how much work the state map of `verify_function` leaves.
use minilang_rs.Prelude.{
  ℕ, zero, suc, ◌+◌, ◌-◌, ◌*◌, ◌≤◌, ◌<◌, ◌≡◌, ◌≢◌, refl, Bool, List, [], ◌∷◌, Option, none, some,
  arith, length, lookup, insert, lookup-insert, if◌then◌else◌, ◌==◌, ==_iff, Bool-cases, inl, inr,
}
use minilang_rs.Verifier.Report.{AbstractState, FunctionRange}
use minilang_rs.Verifier.Function.{Work, merge, mark_params}

-- `f start + … + f (start + n - 1)`
unfoldable pub sum : (ℕ → ℕ) → ℕ → ℕ → ℕ
sum f start zero = 0
sum f start (suc n) = sum f start n + f (start + n)

sum-same :
    (f g : ℕ → ℕ) (s start n : ℕ)
    → ((q : ℕ) → s ≢ q → g q ≡ f q)
    → start + n ≤ s
    → sum g start n ≡ sum f start n
unfolding sum
sum-same f g s start zero same above = refl
sum-same f g s start (suc n) same above =
    omega (arith, sum-same f g s start n same (omega arith), same (start + n) (λ e. omega arith))

-- A change at one place of the range changes the sum by as much.
pub sum-change :
    (f g : ℕ → ℕ) (s start n : ℕ)
    → ((q : ℕ) → s ≢ q → g q ≡ f q)
    → start ≤ s
    → s < start + n
    → sum g start n + f s ≡ sum f start n + g s
unfolding sum
sum-change f g s start zero same low high = absurd (omega arith)
sum-change f g s start (suc n) same low high = elim (Bool-cases (s == start + n)) [
  | inl e ↦ at_end ((==_iff s (start + n)).0 e)
  | inr e ↦ omega (
    arith,
    sum-change f g s start n same low (ground (arith, ==_iff s (start + n))),
    same (start + n) (λ p. ground (arith, ==_iff s (start + n))),
  )
]
  where
    at_end :
        s ≡ start + n → sum g start n + g (start + n) + f s ≡ sum f start n + f (start + n) + g s
    at_end p = rw (p) (omega (arith, sum-same f g s start n same (omega arith)))

pub sum-bound :
    (f : ℕ → ℕ) (bound start n : ℕ) → ((q : ℕ) → f q ≤ bound) → sum f start n ≤ n * bound
unfolding sum
sum-bound f bound start zero le = ground arith
sum-bound f bound start (suc n) le = ground (arith, sum-bound f bound start n le, le (start + n))

-- The initialized locals that a merge can still clear.
unfoldable pub count_true : List Bool → ℕ
count_true [] = 0
count_true (b ∷ bits) = (if b then 1 else 0) + count_true bits

pub count_true-le-length : (bits : List Bool) → count_true bits ≤ length bits
unfolding count_true
count_true-le-length [] = omega arith
count_true-le-length (b ∷ bits) = ground (arith, count_true-le-length bits)

pub length-merge : (dst src : List Bool) → length (merge dst src).0 ≡ length dst
unfolding merge
length-merge [] src = refl
length-merge (d ∷ dst) [] = refl
length-merge (d ∷ dst) (s ∷ src) = omega (arith, length-merge dst src)

-- A merge that reports a change has cleared a local.
pub count_true-merge :
    (dst src : List Bool)
    → count_true (merge dst src).0 + (if (merge dst src).1 then 1 else 0) ≤ count_true dst
unfolding merge count_true
count_true-merge [] src = omega arith
count_true-merge (d ∷ dst) [] = ground arith
count_true-merge (d ∷ dst) (s ∷ src) = ground (arith, count_true-merge dst src)

pub length-mark_params : (n params : ℕ) → length (mark_params n params) ≡ n
unfolding mark_params
length-mark_params zero params = refl
length-mark_params (suc n) zero = omega (arith, length-mark_params n 0)
length-mark_params (suc n) (suc params) = omega (arith, length-mark_params n params)

abbrev pub state_weight : ℕ → Option AbstractState → ℕ
state_weight locals none = locals + 1
state_weight locals (some state) = count_true state.initialized_locals

-- A place without a state counts for more than any state.
unfoldable pub weight : ℕ → List (ℕ × AbstractState) → ℕ → ℕ
weight locals states pc = state_weight locals (lookup pc states)

pub weight-insert :
    (locals s : ℕ) (state : AbstractState) (states : List (ℕ × AbstractState))
    → ((q : ℕ) → s ≢ q → weight locals (insert s state states) q ≡ weight locals states q)
      × (weight locals (insert s state states) s ≡ count_true state.initialized_locals)
unfolding weight
weight-insert locals s state states =
    (others, ground (arith, lookup-insert s s state states, ==_iff s s))
  where
    others :
        (q : ℕ)
        → s ≢ q
        → state_weight locals (lookup q (insert s state states))
          ≡ state_weight locals (lookup q states)
    others q ne = ground (arith, lookup-insert s q state states, ==_iff s q)

-- The rounds that are still to come, at most.
unfoldable pub measure : FunctionRange → Work → ℕ
unfolding sum weight
measure range work =
    length work.worklist
    + sum (weight range.info.local_count work.states) range.start (range.end - range.start)
