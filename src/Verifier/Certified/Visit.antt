-- ===== src/Verifier/Certified/Visit.antt =====
-- src/verifier.rs: what the visit of a successor keeps of the state map and the worklist.
use minilang_rs.Prelude.{
  ℕ, ◌≡◌, ◌∙◌, sym, refl, Bool, true, false, ◌⊎◌, inl, inr, List, [], ◌∷◌, ◌++◌, ◌||◌, ◌==◌, Option,
  none, some, arith, lookup, insert, lookup-insert, contains, if◌then◌else◌, Bool-cases, ==_iff,
}
use minilang_rs.Verifier.Rules.{Recorded}
use minilang_rs.Verifier.Report.{AbstractState, FunctionRange}
use minilang_rs.Verifier.Step.{pc_in_range}
use minilang_rs.Verifier.Function.{Work, visit_successor, visit_successors, merge_state, add_state}
use minilang_rs.Verifier.Reports.{append-ne-nil}
use minilang_rs.Verifier.Certified.States.{
  HasState, has, Extends, Extends-insert, HasState-insert, HasState-of_insert,
}

-- From `work` to `work'` without a new error: states are kept, and a new one is on the worklist.
pub record Grows (range : FunctionRange) (work work' : Work) : Type 0 where
  pub no_errors : work.log.errors ≡ []
  pub keeps : Extends work.states work'.states
  pub traps_kept : Recorded work.log.possible_traps work'.log.possible_traps
  pub waits : (q : ℕ) → contains q work.worklist ≡ true → contains q work'.worklist ≡ true
  pub news :
      (q d : ℕ)
      → HasState work'.states q d
      → HasState work.states q d
        ⊎ ((contains q work'.worklist ≡ true) × (pc_in_range range q ≡ true))

pub Grows-refl :
    {range : FunctionRange} {work : Work} → work.log.errors ≡ [] → Grows range work work
Grows-refl e = record {
  no_errors = e;
  keeps = λ q d h. h;
  traps_kept = λ t h. h;
  waits = λ q h. h;
  news = λ q d h. inl h;
}

pub Grows-trans :
    {range : FunctionRange} {a b c : Work} → Grows range a b → Grows range b c → Grows range a c
Grows-trans {range} {a} {b} {c} f g = record {
  no_errors = f.no_errors;
  keeps = λ q d h. g.keeps q d (f.keeps q d h);
  traps_kept = λ t h. g.traps_kept t (f.traps_kept t h);
  waits = λ q h. g.waits q (f.waits q h);
  news = λ q d h. go q d (g.news q d h);
}
  where
    go :
        (q d : ℕ)
        → HasState b.states q d ⊎ ((contains q c.worklist ≡ true) × (pc_in_range range q ≡ true))
        → HasState a.states q d ⊎ ((contains q c.worklist ≡ true) × (pc_in_range range q ≡ true))
    go q d (inr w) = inr w
    go q d (inl h) = elim (f.news q d h) [ inl old ↦ inl old | inr w ↦ inr (g.waits q w.0, w.1) ]

pub contains-append :
    (q s : ℕ) (xs : List ℕ) → contains q (xs ++ s ∷ []) ≡ (contains q xs || s == q)
contains-append q s [] = ground arith
contains-append q s (x ∷ xs) = ground (arith, contains-append q s xs)

-- A successor that is visited without an error is in range and has the state's depth.
abbrev Visits : FunctionRange → AbstractState → ℕ → Work → Work → Type 0
Visits range state s work work' = Grows range work work' × HasState work'.states s state.stack_depth

abbrev pub Visited : FunctionRange → AbstractState → ℕ → Work → Work → Type 0
Visited range state s work work' = (pc_in_range range s ≡ true) × Visits range state s work work'

module _ (range : FunctionRange) (s : ℕ) (inside : pc_in_range range s ≡ true) where
  add_state-Visited :
      (state : AbstractState) (work : Work)
      → work.log.errors ≡ []
      → lookup s work.states ≡ none
      → Visits range state s work (add_state s state work)
  unfolding add_state
  add_state-Visited state work clean fresh = (
    record {
      no_errors = clean;
      traps_kept = λ t h. h;
      keeps = Extends-insert work.states s state (λ old e. absurd (cc fresh));
      waits = λ q h. ground (arith, contains-append q s work.worklist);
      news = λ q d h. go q (HasState-of_insert work.states s q d state h);
    },
    HasState-insert work.states s state,
  )
    where
      go :
          (q : ℕ) {d : ℕ}
          → (s ≡ q) ⊎ HasState work.states q d
          → HasState work.states q d
            ⊎ ((contains q (work.worklist ++ s ∷ []) ≡ true) × (pc_in_range range q ≡ true))
      go q (inl e) = inr (ground (arith, contains-append q s work.worklist), rw (← e) inside)
      go q (inr old) = inl old

  merged-Visits :
      (old state : AbstractState) (merged : List Bool) (changed : Bool) (work : Work)
      → work.log.errors ≡ []
      → lookup s work.states ≡ some old
      → old.stack_depth ≡ state.stack_depth
      → Visits range state s work (record work {
        states = insert s (record old { initialized_locals = merged }) work.states;
        worklist = if changed then work.worklist ++ s ∷ [] else work.worklist;
      })
  merged-Visits old state merged changed work clean found same = (
    record {
      no_errors = clean;
      traps_kept = λ t h. h;
      keeps =
          Extends-insert work.states s (record old { initialized_locals = merged })
            (λ o e. ground (arith, found));
      waits = λ q h. ground (arith, contains-append q s work.worklist);
      news = λ q d h.
          go q (HasState-of_insert work.states s q d (record old { initialized_locals = merged }) h)
            h;
    },
    moved (HasState-insert work.states s (record old { initialized_locals = merged })),
  )
    where
      states' : List (ℕ × AbstractState)
      states' = insert s (record old { initialized_locals = merged }) work.states

      moved : HasState states' s old.stack_depth → HasState states' s state.stack_depth
      moved (has st e d) = has st e (d ∙ same)

      depth_of : {d : ℕ} → HasState states' s d → d ≡ old.stack_depth
      depth_of (has st e d) =
          ground (arith, lookup-insert s s (record old { initialized_locals = merged }) work.states)

      go :
          (q : ℕ) {d : ℕ}
          → (s ≡ q) ⊎ HasState work.states q d
          → HasState states' q d
          → HasState work.states q d
            ⊎ ((contains q (if changed then work.worklist ++ s ∷ [] else work.worklist) ≡ true)
                × (pc_in_range range q ≡ true))
      go q (inl e) h = inl (rw (← e) (has old found (sym (depth_of (rw (← e) at h)))))
      go q (inr h') h = inl h'

  merge_state-Visited :
      (old state : AbstractState) (work : Work)
      → lookup s work.states ≡ some old
      → (merge_state s old state work).log.errors ≡ []
      → Visits range state s work (merge_state s old state work)
  unfolding merge_state
  merge_state-Visited old state work found clean =
      go (Bool-cases (old.stack_depth == state.stack_depth))
    where
      go :
          ((old.stack_depth == state.stack_depth ≡ true)
            ⊎ (old.stack_depth == state.stack_depth ≡ false))
          → Visits range state s work (merge_state s old state work)
      go (inr e) = absurd (append-ne-nil work.log.errors _ (rw (e, merge_state) at clean))
      go (inl e) =
          rw (e, merge_state)
            (merged-Visits old state _ _ work (rw (e, merge_state) at clean) found
              ((==_iff _ _).0 e))

pub visit_successor-Visited :
    (range : FunctionRange) (pc : ℕ) (state : AbstractState) (s : ℕ) (work : Work)
    → (visit_successor range pc state s work).log.errors ≡ []
    → Visited range state s work (visit_successor range pc state s work)
unfolding visit_successor
visit_successor-Visited range pc state s work clean =
    go (pc_in_range range s) (lookup s work.states) refl refl
  where
    go :
        (inside : Bool) (found : Option AbstractState)
        → pc_in_range range s ≡ inside
        → lookup s work.states ≡ found
        → Visited range state s work (visit_successor range pc state s work)
    go false found e₁ e₂ =
        absurd (append-ne-nil work.log.errors _ (rw (e₁, visit_successor) at clean))
    go true none e₁ e₂ = (
      e₁,
      rw (e₁, e₂, visit_successor)
          (add_state-Visited range s e₁ state work (rw (e₁, e₂, visit_successor) at clean) e₂),
    )
    go true (some old) e₁ e₂ = (
      e₁,
      rw (e₁, e₂, visit_successor)
          (merge_state-Visited range s e₁ old state work e₂
            (rw (e₁, e₂, visit_successor) at clean)),
    )

-- All successors of a step.
pub visit_successors-Visited :
    (range : FunctionRange) (pc : ℕ) (state : AbstractState) (successors : List ℕ) (work : Work)
    → (visit_successors range pc state successors work).log.errors ≡ []
    → Grows range work (visit_successors range pc state successors work)
      × ((s : ℕ)
          → contains s successors ≡ true
          → (pc_in_range range s ≡ true)
            × HasState (visit_successors range pc state successors work).states s state.stack_depth)
unfolding visit_successors
visit_successors-Visited range pc state [] work clean = (Grows-refl clean, λ s e. cc)
visit_successors-Visited range pc state (x ∷ xs) work clean =
    let (later, others) =
      visit_successors-Visited range pc state xs (visit_successor range pc state x work) clean in
    let (inside, visits) = visit_successor-Visited range pc state x work later.no_errors in
    (Grows-trans visits.0 later, λ s e. go later others inside visits.1 s e (Bool-cases (x == s)))
  where
    final : Work
    final = visit_successors range pc state xs (visit_successor range pc state x work)

    Found : ℕ → Type 0
    Found s = (pc_in_range range s ≡ true) × HasState final.states s state.stack_depth

    go :
        Grows range (visit_successor range pc state x work) final
        → ((s : ℕ) → contains s xs ≡ true → Found s)
        → pc_in_range range x ≡ true
        → HasState (visit_successor range pc state x work).states x state.stack_depth
        → (s : ℕ) → contains s (x ∷ xs) ≡ true
        → (x == s ≡ true) ⊎ (x == s ≡ false)
        → Found s
    go later others inside present s e (inl q) =
        rw (← (==_iff x s).0 q) (inside, later.keeps x state.stack_depth present)
    go later others inside present s e (inr q) = others s (ground arith)
