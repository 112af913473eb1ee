-- ===== src/Verifier/Certified/Locals.antt =====
-- src/verifier.rs: the initialized locals along the steps of `verify_function`.
use minilang_rs.Prelude.{
  some-injective, ℕ, ◌≡◌, ◌∙◌, sym, refl, Bool, true, false, ◌⊎◌, inl, inr, List, [], ◌∷◌, ◌++◌,
  ◌==◌, Option, none, some, arith, lookup, insert, lookup-insert, contains, get_elem?,
  if◌then◌else◌, Bool-cases, ==_iff,
}
use minilang_rs.Bytecode.{Instruction, CompiledProgram}
use minilang_rs.Verifier.Report.{AbstractState, FunctionRange, Step, Log}
use minilang_rs.Verifier.Step.{pc_in_range, step_instruction}
use minilang_rs.Verifier.Function.{
  Work, merge, merge_state, add_state, visit_successor, visit_successors,
}
use minilang_rs.Verifier.Reports.{append-ne-nil}
use minilang_rs.Verifier.Certified.States.{States}
use minilang_rs.Verifier.Certified.Visit.{contains-append, visit_successors-Visited}

-- The locals that are initialized in the first vector are initialized in the second.
abbrev pub Within : List Bool → List Bool → Type 0
Within [] src = Unit
Within (d ∷ dst) [] = Unit
Within (d ∷ dst) (s ∷ src) = (d ≡ true → s ≡ true) × Within dst src

Within-refl : (locals : List Bool) → Within locals locals
Within-refl [] = tt
Within-refl (b ∷ locals) = (λ e. e, Within-refl locals)

merge-Within : (dst src : List Bool) → Within (merge dst src).0 src
unfolding merge
merge-Within [] src = tt
merge-Within (d ∷ dst) [] = tt
merge-Within (d ∷ dst) (s ∷ src) = (λ e. ground arith, merge-Within dst src)

merge-Within_old : (dst src other : List Bool) → Within dst other → Within (merge dst src).0 other
unfolding merge
merge-Within_old [] src other h = tt
merge-Within_old (d ∷ dst) [] other h = h
merge-Within_old (d ∷ dst) (s ∷ src) [] h = tt
merge-Within_old (d ∷ dst) (s ∷ src) (o ∷ other) (h, hs) =
    (λ e. h (ground arith), merge-Within_old dst src other hs)

merge-same : (dst src : List Bool) → (merge dst src).1 ≡ false → (merge dst src).0 ≡ dst
unfolding merge
merge-same [] src e = refl
merge-same (d ∷ dst) [] e = refl
merge-same (d ∷ dst) (s ∷ src) e = ground (arith, merge-same dst src)

-- The state of an instruction has no local initialized beyond these.
pub data Meets (states : States) (pc : ℕ) (locals : List Bool) : Type 0 where
  meets :
      (state : AbstractState)
      → lookup pc states ≡ some state
      → Within state.initialized_locals locals
      → Meets states pc locals

-- The step from the instruction's state, and what it leaves for the locals of the successors.
pub data Flows (program : CompiledProgram) (range : FunctionRange) (states : States) (pc : ℕ)
    (state : AbstractState) : Type 0 where
  flows :
      (instr : Instruction) (log log' : Log) (step : Step)
      → get_elem? program.instructions pc ≡ some instr
      → step_instruction program range pc instr.opcode instr.arg1 instr.arg2 state log
        ≡ (some step, log')
      → ((s : ℕ) → contains s step.successors ≡ true → Meets states s step.state.initialized_locals)
      → Flows program range states pc state

-- At every state, a local that is initialized at a successor is initialized after the step.
abbrev pub AllFlow : CompiledProgram → FunctionRange → States → Type 0
AllFlow program range states =
    (pc : ℕ) (state : AbstractState)
    → lookup pc states ≡ some state
    → Flows program range states pc state

-- From `work` to `work'` states lose locals only, and one that does is on the worklist.
pub record Loses (work work' : Work) : Type 0 where
  pub keeps : (q : ℕ) (x : List Bool) → Meets work.states q x → Meets work'.states q x
  pub news :
      (q : ℕ) (state : AbstractState)
      → lookup q work'.states ≡ some state
      → (lookup q work.states ≡ some state) ⊎ (contains q work'.worklist ≡ true)
  pub waits : (q : ℕ) → contains q work.worklist ≡ true → contains q work'.worklist ≡ true

Loses-trans : {a b c : Work} → Loses a b → Loses b c → Loses a c
Loses-trans {a} {b} {c} f g = record {
  keeps = λ q x h. g.keeps q x (f.keeps q x h);
  news = λ q state e. elim (g.news q state e) [
    | inl old ↦ elim (f.news q state old) [ inl older ↦ inl older | inr w ↦ inr (g.waits q w) ]
    | inr w ↦ inr w
  ];
  waits = λ q h. g.waits q (f.waits q h);
}

-- A visit of a successor.
put-Loses :
    (s : ℕ) (state : AbstractState) (queue : List ℕ) (work : Work)
    → ((x : List Bool) → Meets work.states s x → Within state.initialized_locals x)
    → (lookup s work.states ≡ some state) ⊎ (contains s queue ≡ true)
    → ((q : ℕ) → contains q work.worklist ≡ true → contains q queue ≡ true)
    → Loses work (record work { states = insert s state work.states; worklist = queue })
put-Loses s state queue work less waiting more = record {
  keeps = λ q x h. keep q x h (Bool-cases (s == q));
  news = λ q st e. new q st e (Bool-cases (s == q));
  waits = more;
}
  where
    keep :
        (q : ℕ) (x : List Bool)
        → Meets work.states q x
        → (s == q ≡ true) ⊎ (s == q ≡ false)
        → Meets (insert s state work.states) q x
    keep q x h (inl e) =
        meets state (rw (lookup-insert, e) refl) (less x (rw (← (==_iff s q).0 e) at h))
    keep q x (meets st found w) (inr e) = meets st (rw (lookup-insert, e) found) w

    new :
        (q : ℕ) (st : AbstractState)
        → lookup q (insert s state work.states) ≡ some st
        → (s == q ≡ true) ⊎ (s == q ≡ false)
        → (lookup q work.states ≡ some st) ⊎ (contains q queue ≡ true)
    new q st e (inl p) =
        rw (← (==_iff s q).0 p, ← some-injective state st (rw (lookup-insert, p) at e)) waiting
    new q st e (inr p) = inl (ground (arith, lookup-insert s q state work.states))

Visits : ℕ → AbstractState → Work → Work → Type 0
Visits s state work work' = Loses work work' × Meets work'.states s state.initialized_locals

Meets-insert :
    (s : ℕ) (state : AbstractState) (x : List Bool) (states : States)
    → Within state.initialized_locals x
    → Meets (insert s state states) s x
Meets-insert s state x states w = meets state (ground (arith, lookup-insert s s state states)) w

add_state-Visits :
    (s : ℕ) (state : AbstractState) (work : Work)
    → lookup s work.states ≡ none
    → Visits s state work (add_state s state work)
unfolding add_state Visits
add_state-Visits s state work fresh = (
  put-Loses s state _ work (λ x h. absurd (gone x h))
      (inr (ground (arith, contains-append s s work.worklist, ==_iff s s)))
      (λ q h. ground (arith, contains-append q s work.worklist)),
  Meets-insert s state _ work.states (Within-refl state.initialized_locals),
)
  where
    gone : (x : List Bool) → Meets work.states s x → ⊥
    gone x (meets st found w) = cc

merged-Visits :
    (s : ℕ) (old state : AbstractState) (work : Work) (changed : Bool)
    → lookup s work.states ≡ some old
    → (merge old.initialized_locals state.initialized_locals).1 ≡ changed
    → Visits s state work (record work {
      states =
          insert s
            (record old {
              initialized_locals = (merge old.initialized_locals state.initialized_locals).0;
            })
            work.states;
      worklist = if changed then work.worklist ++ s ∷ [] else work.worklist;
    })
unfolding Visits
merged-Visits s old state work changed found e = (
  put-Loses s met _ work less (waiting changed e)
      (λ q h. ground (arith, contains-append q s work.worklist)),
  Meets-insert s met _ work.states (merge-Within old.initialized_locals state.initialized_locals),
)
  where
    met : AbstractState
    met = record old {
      initialized_locals = (merge old.initialized_locals state.initialized_locals).0;
    }

    less : (x : List Bool) → Meets work.states s x → Within met.initialized_locals x
    less x (meets st found' w) =
        merge-Within_old old.initialized_locals state.initialized_locals x
          (rw (← some-injective st old (sym found' ∙ found)) w)

    waiting :
        (changed : Bool)
        → (merge old.initialized_locals state.initialized_locals).1 ≡ changed
        → (lookup s work.states ≡ some met)
          ⊎ (contains s (if changed then work.worklist ++ s ∷ [] else work.worklist) ≡ true)
    waiting true e = inr (ground (arith, contains-append s s work.worklist, ==_iff s s))
    waiting false e = inl (rw (merge-same old.initialized_locals state.initialized_locals e) found)

merge_state-Visits :
    (s : ℕ) (old state : AbstractState) (work : Work)
    → lookup s work.states ≡ some old
    → (merge_state s old state work).log.errors ≡ []
    → Visits s state work (merge_state s old state work)
unfolding merge_state
merge_state-Visits s old state work found clean =
    go (Bool-cases (old.stack_depth == state.stack_depth))
  where
    go :
        (old.stack_depth == state.stack_depth ≡ true)
          ⊎ (old.stack_depth == state.stack_depth ≡ false)
        → Visits s state work (merge_state s old state work)
    go (inr e) = absurd (append-ne-nil work.log.errors _ (rw (e, merge_state) at clean))
    go (inl e) = rw (e, merge_state) (merged-Visits s old state work _ found refl)

module _ (range : FunctionRange) (pc : ℕ) (state : AbstractState) where
  visit_successor-Visits :
      (s : ℕ) (work : Work)
      → (visit_successor range pc state s work).log.errors ≡ []
      → Visits s state work (visit_successor range pc state s work)
  unfolding visit_successor
  visit_successor-Visits s work clean = go (pc_in_range range s) (lookup s work.states) refl refl
    where
      go :
          (inside : Bool) (found : Option AbstractState)
          → pc_in_range range s ≡ inside
          → lookup s work.states ≡ found
          → Visits s state work (visit_successor range pc state s work)
      go false found e₁ e₂ =
          absurd (append-ne-nil work.log.errors _ (rw (e₁, visit_successor) at clean))
      go true none e₁ e₂ = rw (e₁, e₂, visit_successor) (add_state-Visits s state work e₂)
      go true (some old) e₁ e₂ =
          rw (e₁, e₂, visit_successor)
            (merge_state-Visits s old state work e₂ (rw (e₁, e₂, visit_successor) at clean))

  pub visit_successors-Visits :
      (successors : List ℕ) (work : Work)
      → (visit_successors range pc state successors work).log.errors ≡ []
      → Loses work (visit_successors range pc state successors work)
        × ((s : ℕ)
            → contains s successors ≡ true
            → Meets
                (visit_successors range pc state successors work).states
                s
                state.initialized_locals)
  unfolding visit_successors Visits
  visit_successors-Visits [] work clean = (
    record { keeps = λ q x h. h; news = λ q st e. inl e; waits = λ q h. h },
    λ s e. absurd (cc e),
  )
  visit_successors-Visits (x ∷ xs) work clean =
      let (later, others) =
        visit_successors-Visits xs (visit_successor range pc state x work) clean in
      let (grows, _) =
        visit_successors-Visited range pc state xs (visit_successor range pc state x work) clean in
      let (first, met) = visit_successor-Visits x work grows.no_errors in
      (Loses-trans first later, λ s e. go later others met s e (Bool-cases (x == s)))
    where
      final : Work
      final = visit_successors range pc state xs (visit_successor range pc state x work)

      go :
          Loses (visit_successor range pc state x work) final
          → ((s : ℕ) → contains s xs ≡ true → Meets final.states s state.initialized_locals)
          → Meets (visit_successor range pc state x work).states x state.initialized_locals
          → (s : ℕ) → contains s (x ∷ xs) ≡ true
          → (x == s ≡ true) ⊎ (x == s ≡ false)
          → Meets final.states s state.initialized_locals
      go later others met s e (inl q) =
          rw (← (==_iff x s).0 q) (later.keeps x state.initialized_locals met)
      go later others met s e (inr q) = others s (ground arith)
