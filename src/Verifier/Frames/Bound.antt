-- ===== src/Verifier/Frames/Bound.antt =====
-- src/verifier.rs: the depths of `max_frame_depth` and the chains of calls.
use minilang_rs.Prelude.{
  ℕ, zero, suc, ◌+◌, ◌≤◌, ◌≡◌, refl, true, false, List, [], ◌∷◌, Option, none, some, arith,
  contains, lookup, insert, lookup-insert, max, ◌==◌, ==_iff, Bool-cases, inl, inr, ◌⊎◌,
}
use minilang_rs.Verifier.Frames.{Memo, CallEdges, callees, Visit, visit_all, record_depth, visit}

-- A chain of `n` functions, each called by the one before.
pub data IsCallChain (edges : CallEdges) : ℕ → ℕ → Type 0 where
  one : {func_id : ℕ} → IsCallChain edges func_id 1
  calls :
      {func_id n : ℕ} (callee : ℕ)
      → contains callee (callees edges func_id) ≡ true
      → IsCallChain edges callee n
      → IsCallChain edges func_id (suc n)

abbrev pub Bounds : CallEdges → ℕ → ℕ → Type 0
Bounds edges func_id d = (n : ℕ) → IsCallChain edges func_id n → n ≤ d

module _ (edges : CallEdges) where
  abbrev pub IsMemo : Memo → Type 0
  IsMemo memo = (f d : ℕ) → lookup f memo ≡ some (some d) → Bounds edges f d

  -- What a visit promises of its result.
  unfoldable pub Promises : ℕ → Visit → Type 0
  Promises f none = Unit
  Promises f (some (none, memo)) = Unit
  Promises f (some (some d, memo)) = Bounds edges f d × IsMemo memo

  AllPromise : List ℕ → ℕ → Visit → Type 0
  AllPromise fs best none = Unit
  AllPromise fs best (some (none, memo)) = Unit
  AllPromise fs best (some (some d, memo)) =
      (best ≤ d) × ((f : ℕ) → contains f fs ≡ true → Bounds edges f d) × IsMemo memo

  visit_all-AllPromise :
      (step : ℕ → Memo → Visit)
      → ((f : ℕ) (memo : Memo) → IsMemo memo → Promises f (step f memo))
      → (fs : List ℕ) (best : ℕ) (memo : Memo) → IsMemo memo
      → AllPromise fs best (visit_all step fs best memo)
  unfolding visit_all Promises AllPromise
  visit_all-AllPromise step sound [] best memo ok = (omega arith, λ f e. absurd (cc e), ok)
  visit_all-AllPromise step sound (f ∷ fs) best memo ok =
      go (λ b m h. visit_all-AllPromise step sound fs b m h) (step f memo) refl (sound f memo ok)
    where
      go :
          ((b : ℕ) (m : Memo) → IsMemo m → AllPromise fs b (visit_all step fs b m))
          → (r : Visit) → step f memo ≡ r
          → Promises f r
          → AllPromise (f ∷ fs) best (visit_all step (f ∷ fs) best memo)
      go later none e h = rw (e, visit_all) tt
      go later (some (none, m)) e h = rw (e, visit_all) tt
      go later (some (some d, m)) e h =
          rw (e, visit_all) (joined (visit_all step fs (max best d) m) (later (max best d) m h.1))
        where
          joined : (r : Visit) → AllPromise fs (max best d) r → AllPromise (f ∷ fs) best r
          joined none h = tt
          joined (some (none, m')) h = tt
          joined (some (some d', m')) k =
              (omega (arith, k.0), λ g e'. first_or g (Bool-cases (f == g)) e', k.2)
            where
              first_or :
                  (g : ℕ)
                  → (f == g ≡ true) ⊎ (f == g ≡ false)
                  → contains g (f ∷ fs) ≡ true
                  → Bounds edges g d'
              first_or g (inl p) e' =
                  λ n chain. omega (arith, k.0, h.0 n (rw ((==_iff f g).0 p) chain))
              first_or g (inr p) e' = k.1 g (ground arith)

  -- The depth of a function is one more than that of its callees.
  record_depth-Promises :
      (f : ℕ) (r : Visit) → AllPromise (callees edges f) 0 r → Promises f (record_depth f r)
  unfolding record_depth Promises AllPromise
  record_depth-Promises f none h = tt
  record_depth-Promises f (some (none, memo)) h = tt
  record_depth-Promises f (some (some d, memo)) h =
      (bounds, λ g e' eq. memo_of g e' eq (Bool-cases (f == g)))
    where
      bounds : Bounds edges f (d + 1)
      bounds n one = omega arith
      bounds n (calls {n = m} callee among chain) = omega (arith, h.1 callee among m chain)

      memo_of :
          (g e' : ℕ)
          → lookup g (insert f (some (d + 1)) memo) ≡ some (some e')
          → (f == g ≡ true) ⊎ (f == g ≡ false)
          → Bounds edges g e'
      memo_of g e' eq (inl p) =
          λ n chain. omega (arith, bounds n (rw ((==_iff f g).0 p) chain), depth_is)
        where
          depth_is : d + 1 ≡ e'
          depth_is = ground (arith, lookup-insert f g (some (d + 1)) memo)
      memo_of g e' eq (inr p) = h.2 g e' (ground (arith, lookup-insert f g (some (d + 1)) memo))

  pub visit-Promises :
      (fuel : ℕ) (visiting : List ℕ) (f : ℕ) (memo : Memo)
      → IsMemo memo
      → Promises f (visit edges fuel visiting f memo)
  unfolding visit Promises
  visit-Promises zero visiting f memo ok = tt
  visit-Promises (suc fuel) visiting f memo ok =
      go (λ g m h. visit-Promises fuel (f ∷ visiting) g m h) (lookup f memo) refl
        (Bool-cases (contains f visiting))
    where
      go :
          ((g : ℕ) (m : Memo) → IsMemo m → Promises g (visit edges fuel (f ∷ visiting) g m))
          → (found : Option (Option ℕ)) → lookup f memo ≡ found
          → (contains f visiting ≡ true) ⊎ (contains f visiting ≡ false)
          → Promises f (visit edges (suc fuel) visiting f memo)
      go later (some none) e c = rw (e, visit) tt
      go later (some (some d)) e c = rw (e, visit) (ok f d e, ok)
      go later none e (inl twice) = rw (e, twice, visit) tt
      go later none e (inr new) =
          rw (e, new, visit)
            (record_depth-Promises f _ (
              visit_all-AllPromise (visit edges fuel (f ∷ visiting)) later (callees edges f) 0 memo
                ok))
