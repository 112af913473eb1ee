-- ===== src/Verifier/Metadata/Layout.antt =====
-- src/verifier.rs: the layout that `verify_global_metadata` accepts.
use minilang_rs.Prelude.{
  ℕ, zero, suc, ◌+◌, ◌≤◌, ◌<◌, ◌≡◌, ◌∙◌, refl, Bool, true, false, ◌&&◌, ◌||◌, List, [], ◌∷◌, none,
  arith, length, length-set, length-replicate, set, replicate, ltb, if◌then◌else◌, ◌==◌, ==_iff,
  Bool-cases, inl, inr, ◌⊎◌,
}
use minilang_rs.Limits.{max_global_slots, usize_max}
use minilang_rs.Bytecode.{GlobalInfo}
use minilang_rs.Verifier.Report.{VerificationError, global_overlap}
use minilang_rs.Verifier.Reports.{append-ne-nil}
use minilang_rs.Verifier.Metadata.{
  is_claimed, claim, global_width, verify_global, verify_globals, verify_global_metadata, error_at,
}

-- The global has the slot.
abbrev pub Occupies : GlobalInfo → ℕ → Type 0
Occupies info slot = (info.slot ≤ slot) × (slot < info.slot + global_width info)

-- No slot of the global belongs to another one.
abbrev pub Apart : GlobalInfo → List GlobalInfo → Type 0
Apart info [] = Unit
Apart info (other ∷ globals) =
    ((slot : ℕ) → Occupies info slot → ¬ (Occupies other slot)) × Apart info globals

-- Every global has a slot, lies within the limit, and shares no slot with a later one.
abbrev pub IsLaidOut : List GlobalInfo → Type 0
IsLaidOut [] = Unit
IsLaidOut (info ∷ globals) =
    (1 ≤ global_width info)
    × (info.slot + global_width info ≤ max_global_slots)
    × Apart info globals
    × IsLaidOut globals

is_claimed-set :
    (claimed : List Bool) (slot q : ℕ)
    → is_claimed (set claimed slot true) q
      ≡ ((slot == q && ltb slot (length claimed)) || is_claimed claimed q)
is_claimed-set [] slot q = ground arith
is_claimed-set (b ∷ claimed) zero zero = ground arith
is_claimed-set (b ∷ claimed) zero (suc q) = ground arith
is_claimed-set (b ∷ claimed) (suc slot) zero = ground arith
is_claimed-set (b ∷ claimed) (suc slot) (suc q) = ground (arith, is_claimed-set claimed slot q)

-- From `before` to `after`, the slots from `slot` on have been claimed, none of them before.
record Claims (slot width : ℕ) (before after : List Bool) : Type 0 where
  free : (q : ℕ) → slot ≤ q → q < slot + width → is_claimed before q ≡ false
  taken : (q : ℕ) → slot ≤ q → q < slot + width → is_claimed after q ≡ true
  keeps : (q : ℕ) → is_claimed before q ≡ true → is_claimed after q ≡ true
  same_length : length after ≡ length before

claim-Claims :
    (slot width : ℕ) (claimed : List Bool) (errors : List VerificationError)
    → slot + width ≤ length claimed
    → (claim slot width (claimed, errors)).1 ≡ []
    → (errors ≡ []) × Claims slot width claimed (claim slot width (claimed, errors)).0
unfolding claim
claim-Claims slot zero claimed errors fits clean = (
  clean,
  record {
    free = λ q low high. absurd (omega arith);
    taken = λ q low high. absurd (omega arith);
    keeps = λ q e. e;
    same_length = refl;
  },
)
claim-Claims slot (suc width) claimed errors fits clean =
    go
      (claim-Claims (slot + 1) width (set claimed slot true) _
        (omega (arith, length-set claimed slot true)) clean)
      (Bool-cases (is_claimed claimed slot))
  where
    errors₁ : List VerificationError
    errors₁ = if is_claimed claimed slot then error_at none global_overlap errors else errors

    final : List Bool
    final = (claim slot (suc width) (claimed, errors)).0

    go :
        (errors₁ ≡ []) × Claims (slot + 1) width (set claimed slot true) final
        → (is_claimed claimed slot ≡ true) ⊎ (is_claimed claimed slot ≡ false)
        → (errors ≡ []) × Claims slot (suc width) claimed final
    go (clean₁, later) (inl twice) = absurd (append-ne-nil errors _ (rw twice at clean₁))
    go (clean₁, later) (inr once) = (
      rw once at clean₁,
      record {
        free = λ q low high. free_at q low high (Bool-cases (slot == q));
        taken = λ q low high. taken_at q low high (Bool-cases (slot == q));
        keeps = λ q e. later.keeps q (ground (arith, is_claimed-set claimed slot q));
        same_length = later.same_length ∙ length-set claimed slot true;
      },
    )
      where
        free_at :
            (q : ℕ)
            → slot ≤ q
            → q < slot + suc width
            → (slot == q ≡ true) ⊎ (slot == q ≡ false)
            → is_claimed claimed q ≡ false
        free_at q low high (inl e) = rw (← (==_iff slot q).0 e) once
        free_at q low high (inr e) = ground (
          arith,
          is_claimed-set claimed slot q,
          later.free q (ground (arith, ==_iff slot q)) (omega arith),
        )

        taken_at :
            (q : ℕ)
            → slot ≤ q
            → q < slot + suc width
            → (slot == q ≡ true) ⊎ (slot == q ≡ false)
            → is_claimed final q ≡ true
        taken_at q low high (inl e) = later.keeps q (ground (arith, is_claimed-set claimed slot q))
        taken_at q low high (inr e) = later.taken q (ground (arith, ==_iff slot q)) (omega arith)

-- The slots of the globals are free.
Unclaimed : List Bool → List GlobalInfo → Type 0
Unclaimed claimed [] = Unit
Unclaimed claimed (info ∷ globals) =
    ((slot : ℕ) → Occupies info slot → is_claimed claimed slot ≡ false) × Unclaimed claimed globals

-- One global that is accepted.
verify_global-Claims :
    (info : GlobalInfo) (claimed : List Bool) (errors : List VerificationError)
    → length claimed ≡ max_global_slots
    → (verify_global info (claimed, errors)).1 ≡ []
    → (errors ≡ [])
      × (1 ≤ global_width info)
      × (info.slot + global_width info ≤ max_global_slots)
      × Claims info.slot (global_width info) claimed (verify_global info (claimed, errors)).0
unfolding verify_global
verify_global-Claims info claimed errors whole clean =
    go (Bool-cases (info.is_array && info.array_size == 0))
      (Bool-cases (ltb usize_max (info.slot + global_width info)))
      (Bool-cases (ltb max_global_slots (info.slot + global_width info)))
  where
    Goal : Type 0
    Goal =
        (errors ≡ [])
        × (1 ≤ global_width info)
        × (info.slot + global_width info ≤ max_global_slots)
        × Claims info.slot (global_width info) claimed (verify_global info (claimed, errors)).0

    go :
        (info.is_array && info.array_size == 0 ≡ true)
          ⊎ (info.is_array && info.array_size == 0 ≡ false)
        → (ltb usize_max (info.slot + global_width info) ≡ true)
          ⊎ (ltb usize_max (info.slot + global_width info) ≡ false)
        → (ltb max_global_slots (info.slot + global_width info) ≡ true)
          ⊎ (ltb max_global_slots (info.slot + global_width info) ≡ false)
        → Goal
    go (inl a) b c = absurd (append-ne-nil errors _ (rw (a, verify_global) at clean))
    go (inr a) (inl b) c = absurd (append-ne-nil errors _ (rw (a, b, verify_global) at clean))
    go (inr a) (inr b) (inl c) =
        absurd (append-ne-nil errors _ (rw (a, b, c, verify_global) at clean))
    go (inr a) (inr b) (inr c) =
        let (none_before, claims) =
          claim-Claims info.slot (global_width info) claimed errors (ground (arith, whole))
            (rw (a, b, c, verify_global) at clean) in
        (none_before, ground arith, ground arith, rw (a, b, c, verify_global) claims)

module _ (slot width : ℕ) (before after : List Bool) (claims : Claims slot width before after) where
  Unclaimed-before :
      (globals : List GlobalInfo) → Unclaimed after globals → Unclaimed before globals
  unfolding Unclaimed
  Unclaimed-before [] h = tt
  Unclaimed-before (info ∷ globals) h =
      (λ q occ. ground (arith, claims.keeps q, h.0 q occ), Unclaimed-before globals h.1)

  Unclaimed-Apart :
      (info : GlobalInfo)
      → info.slot ≡ slot
      → global_width info ≡ width
      → (globals : List GlobalInfo) → Unclaimed after globals
      → Apart info globals
  unfolding Unclaimed
  Unclaimed-Apart info at wide [] h = tt
  Unclaimed-Apart info at wide (other ∷ globals) h = (
    λ q occ occ'. absurd (
        ground (
          arith,
          claims.taken q (omega (arith, occ.0, at)) (omega (arith, occ.1, at, wide)),
          h.0 q occ',
        )),
    Unclaimed-Apart info at wide globals h.1,
  )

length-claim :
    (slot width : ℕ) (claimed : List Bool) (errors : List VerificationError)
    → length (claim slot width (claimed, errors)).0 ≡ length claimed
unfolding claim
length-claim slot zero claimed errors = refl
length-claim slot (suc width) claimed errors =
    length-claim (slot + 1) width (set claimed slot true) _ ∙ length-set claimed slot true

length-verify_global :
    (info : GlobalInfo) (claimed : List Bool) (errors : List VerificationError)
    → length (verify_global info (claimed, errors)).0 ≡ length claimed
unfolding verify_global
length-verify_global info claimed errors =
    ground (arith, length-claim info.slot (global_width info) claimed errors)

verify_globals-IsLaidOut :
    (globals : List GlobalInfo) (claimed : List Bool) (errors : List VerificationError)
    → length claimed ≡ max_global_slots
    → (verify_globals globals (claimed, errors)).1 ≡ []
    → (errors ≡ []) × Unclaimed claimed globals × IsLaidOut globals
unfolding verify_globals Unclaimed
verify_globals-IsLaidOut [] claimed errors whole clean = (clean, tt, tt)
verify_globals-IsLaidOut (info ∷ globals) claimed errors whole clean =
    let state = verify_global info (claimed, errors) in
    let (clean₁, free, laid) =
      verify_globals-IsLaidOut globals state.0 state.1
        (length-verify_global info claimed errors ∙ whole) clean in
    let (clean₀, some_slot, fits, claims) = verify_global-Claims info claimed errors whole clean₁ in
    (
      clean₀,
      (claims_free claims, Unclaimed-before _ _ _ _ claims globals free),
      (some_slot, fits, Unclaimed-Apart _ _ _ _ claims info refl refl globals free, laid),
    )
  where
    claims_free :
        {after : List Bool}
        → Claims info.slot (global_width info) claimed after
        → (q : ℕ) → Occupies info q
        → is_claimed claimed q ≡ false
    claims_free claims q occ = claims.free q occ.0 occ.1

-- Where `verify_global_metadata` reports no error, every global has a slot, lies within the limit,
-- and shares no slot with another.
pub verify_global_metadata-IsLaidOut :
    (globals : List GlobalInfo) (errors : List VerificationError)
    → verify_global_metadata globals errors ≡ []
    → IsLaidOut globals
unfolding verify_global_metadata
verify_global_metadata-IsLaidOut globals errors clean =
    (verify_globals-IsLaidOut globals (replicate max_global_slots false) errors
      (length-replicate max_global_slots false) clean).2
