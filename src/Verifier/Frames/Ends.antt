-- ===== src/Verifier/Frames/Ends.antt =====
-- src/verifier.rs: the fuel and the depth of `max_frame_depth`.
use minilang_rs.Prelude.{
  ℕ, zero, suc, ◌+◌, ◌≤◌, ◌<◌, ◌≡◌, refl, true, false, List, [], ◌∷◌, Option, none, some,
  some-injective, arith, length, contains, lookup, insert, max, if◌then◌else◌, ◌==◌, ==_iff,
  Bool-cases, inl, inr, ◌⊎◌,
}
use minilang_rs.Verifier.Frames.{
  Memo, CallEdges, callees, Visit, visit_all, record_depth, visit, depth_of, max_frame_depth,
}
use minilang_rs.Verifier.Frames.Bound.{IsCallChain, Promises, visit-Promises}

-- The callers that the search is not in.
waiting : CallEdges → List ℕ → ℕ
waiting [] visiting = 0
waiting ((f, fs) ∷ edges) visiting = (if contains f visiting then 0 else 1) + waiting edges visiting

waiting-le-length : (edges : CallEdges) (visiting : List ℕ) → waiting edges visiting ≤ length edges
unfolding waiting
waiting-le-length [] visiting = omega arith
waiting-le-length ((f, fs) ∷ edges) visiting = ground (arith, waiting-le-length edges visiting)

waiting-grows :
    (edges : CallEdges) (f : ℕ) (visiting : List ℕ)
    → waiting edges (f ∷ visiting) ≤ waiting edges visiting
unfolding waiting
waiting-grows [] f visiting = omega arith
waiting-grows ((g, fs) ∷ edges) f visiting = ground (arith, waiting-grows edges f visiting)

-- A caller that the search enters no longer waits.
waiting-enter :
    (edges : CallEdges) (f : ℕ) (visiting fs : List ℕ)
    → lookup f edges ≡ some fs
    → contains f visiting ≡ false
    → waiting edges (f ∷ visiting) < waiting edges visiting
unfolding waiting
waiting-enter [] f visiting fs e new = absurd (cc e)
waiting-enter ((g, gs) ∷ edges) f visiting fs e new = elim (Bool-cases (g == f)) [
  | inl p ↦ ground (arith, ==_iff g f, ==_iff f g, waiting-grows edges f visiting)
  | inr p ↦
      ground (arith, ==_iff g f, ==_iff f g, waiting-enter edges f visiting fs (ground arith) new)
]

abbrev Returns : Visit → Type 0
Returns r = (x : Option ℕ × Memo) × (r ≡ some x)

visit_all-Returns :
    (step : ℕ → Memo → Visit)
    → (fs : List ℕ) → ((f : ℕ) (memo : Memo) → contains f fs ≡ true → Returns (step f memo))
    → (best : ℕ) (memo : Memo) → Returns (visit_all step fs best memo)
unfolding visit_all
visit_all-Returns step [] returns best memo = (_, refl)
visit_all-Returns step (f ∷ fs) returns best memo =
    go (λ b m. visit_all-Returns step fs (λ g m' e. returns g m' (ground arith)) b m)
      (returns f memo (ground (arith, ==_iff f f)))
  where
    go :
        ((b : ℕ) (m : Memo) → Returns (visit_all step fs b m))
        → Returns (step f memo)
        → Returns (visit_all step (f ∷ fs) best memo)
    go later ((none, m), e) = ((none, m), rw (e, visit_all))
    go later ((some d, m), e) = rw (e, visit_all) (later (max best d) m)

record_depth-Returns : (f : ℕ) (r : Visit) → Returns r → Returns (record_depth f r)
unfolding record_depth
record_depth-Returns f r ((none, m), e) = rw (e, record_depth) (_, refl)
record_depth-Returns f r ((some d, m), e) = rw (e, record_depth) (_, refl)

visit-Returns :
    (edges : CallEdges) (fuel : ℕ) (visiting : List ℕ) (f : ℕ) (memo : Memo)
    → waiting edges visiting < fuel
    → Returns (visit edges fuel visiting f memo)
unfolding visit
visit-Returns edges zero visiting f memo enough = elim enough [ ]
visit-Returns edges (suc fuel) visiting f memo enough =
    go (λ g m h. visit-Returns edges fuel (f ∷ visiting) g m h) (lookup f memo) refl
      (Bool-cases (contains f visiting))
  where
    go :
        ((g : ℕ) (m : Memo)
          → waiting edges (f ∷ visiting) < fuel
          → Returns (visit edges fuel (f ∷ visiting) g m))
        → (found : Option (Option ℕ)) → lookup f memo ≡ found
        → (contains f visiting ≡ true) ⊎ (contains f visiting ≡ false)
        → Returns (visit edges (suc fuel) visiting f memo)
    go later (some depth) e c = ((depth, memo), rw (e, visit))
    go later none e (inl twice) = ((none, insert f none memo), rw (e, twice, visit) refl)
    go later none e (inr new) =
        rw (e, new, visit)
          (record_depth-Returns f _ (
            visit_all-Returns (visit edges fuel (f ∷ visiting)) (callees edges f)
              (λ g m among. later g m (fewer g among (lookup f edges) refl)) 0 memo))
      where
        fewer :
            (g : ℕ)
            → contains g (callees edges f) ≡ true
            → (found : Option (List ℕ)) → lookup f edges ≡ found
            → waiting edges (f ∷ visiting) < fuel
        fewer g among none e' = absurd (ground (arith))
        fewer g among (some fs) e' = omega (arith, enough, waiting-enter edges f visiting fs e' new)

-- The search for the frame depth always ends. Where it finds a depth, no chain of calls from the
-- main function has more functions than that.
pub max_frame_depth_total :
    (main_func_id : ℕ) (edges : CallEdges)
    → (depth : Option ℕ) × (max_frame_depth main_func_id edges ≡ some depth)
      × ((d n : ℕ) → depth ≡ some d → IsCallChain edges main_func_id n → n ≤ d)
unfolding max_frame_depth Promises
max_frame_depth_total main_func_id edges =
    go (visit edges (length edges + 2) [] main_func_id [])
      (visit-Returns edges (length edges + 2) [] main_func_id []
        (omega (arith, waiting-le-length edges [])))
      (visit-Promises edges (length edges + 2) [] main_func_id [] (λ f d e. absurd (cc e)))
  where
    go :
        (r : Visit)
        → Returns r
        → Promises edges main_func_id r
        → (depth : Option ℕ) × (depth_of r ≡ some depth)
          × ((d n : ℕ) → depth ≡ some d → IsCallChain edges main_func_id n → n ≤ d)
    go none (x, e) h = absurd (cc e)
    go (some (none, memo)) ret h = (none, refl, λ d n e chain. absurd (cc e))
    go (some (some d, memo)) ret h =
        (some d, refl, λ d' n e chain. omega (arith, h.0 n chain, some-injective d d' e))
