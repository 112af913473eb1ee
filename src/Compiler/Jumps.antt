-- ===== src/Compiler/Jumps.antt =====
-- src/compiler.rs: where the jumps of emitted code lead, and how `emit` and `patch` keep that.
pub mod Expressions
pub mod Statements
pub mod Functions
pub mod Programs
use minilang_rs.Prelude.{
  ℕ, zero, suc, ◌+◌, ◌≤◌, ◌<◌, ◌≡◌, ◌≢◌, ◌∙◌, sym, refl, ap, ltb→lt, Bool, true, false, ◌||◌, List,
  [], ◌∷◌, ◌++◌, Option, none, some, some-injective, arith, length, length-append, length-set,
  get_elem?, get_elem?-some, lt-of_get_elem?, get_elem?-set_self, get_elem?-set_ne, set, contains,
  ltb, ◌==◌, ==_iff, Bool-cases, inl, inr, ◌⊎◌,
}
use mathlib.Core.Path.{subst}
use minilang_rs.Prelude.Int.{ℤ, pos}
use minilang_rs.Bytecode.{Opcode, Instruction, instruction}
use minilang_rs.Compiler.{as_i32, patch_at}

abbrev pub is_jump : Opcode → Bool
is_jump Opcode.jump = true
is_jump Opcode.jump_if_false = true
is_jump Opcode.jump_if_true = true
is_jump o = false

-- A jump has a target from `low` to `high`.
pub data Inside (low high : ℕ) (instr : Instruction) : Type 0 where
  no_jump : is_jump instr.opcode ≡ false → Inside low high instr
  jumps_to :
      (target : ℕ)
      → instr.arg1 ≡ as_i32 target
      → low ≤ target
      → target ≤ high
      → Inside low high instr

pub Inside-widen :
    {low high low' high' : ℕ} {instr : Instruction}
    → Inside low high instr
    → low' ≤ low
    → high ≤ high'
    → Inside low' high' instr
Inside-widen (no_jump e) down up = no_jump e
Inside-widen (jumps_to t e l h) down up =
    jumps_to t e (omega (arith, l, down)) (omega (arith, h, up))

-- Code has been added behind `c`, which is as it was. The jumps of the new code stay in it,
-- except for those at the places `holes`, which wait for a patch.
pub record Emits (holes : List ℕ) (c c' : List Instruction) : Type 0 where
  pub longer : length c ≤ length c'
  pub kept : (i : ℕ) → i < length c → get_elem? c' i ≡ get_elem? c i
  pub inside :
      (i : ℕ) (instr : Instruction)
      → length c ≤ i
      → contains i holes ≡ false
      → get_elem? c' i ≡ some instr
      → Inside (length c) (length c') instr

module _ {A : Type 0} where
  pub get_elem?-append_lt :
      (xs ys : List A) (i : ℕ) → i < length xs → get_elem? (xs ++ ys) i ≡ get_elem? xs i
  get_elem?-append_lt [] ys i lt = elim lt [ ]
  get_elem?-append_lt (x ∷ xs) ys zero lt = refl
  get_elem?-append_lt (x ∷ xs) ys (suc i) lt = get_elem?-append_lt xs ys i (omega (arith, lt))

  pub get_elem?-last : (xs : List A) (y : A) → get_elem? (xs ++ y ∷ []) (length xs) ≡ some y
  get_elem?-last [] y = refl
  get_elem?-last (x ∷ xs) y = get_elem?-last xs y

  pub last_cases :
      (xs : List A) (y z : A) (i : ℕ)
      → get_elem? (xs ++ y ∷ []) i ≡ some z
      → (get_elem? xs i ≡ some z) ⊎ ((i ≡ length xs) × (y ≡ z))
  last_cases [] y z zero e = inr (refl, some-injective y z e)
  last_cases [] y z (suc i) e = absurd (cc e)
  last_cases (x ∷ xs) y z zero e = inl e
  last_cases (x ∷ xs) y z (suc i) e = elim (last_cases xs y z i e) [
    | inl old ↦ inl old
    | inr (at, same) ↦ inr (ap suc at, same)
  ]

pub Emits-refl : {c : List Instruction} → Emits [] c c
Emits-refl {c} = record {
  longer = omega arith;
  kept = λ i lt. refl;
  inside = λ i instr le free e. absurd (omega (arith, le, lt-of_get_elem? c i instr e));
}

pub Emits-trans :
    {holes : List ℕ} {c c₁ c₂ : List Instruction}
    → Emits holes c c₁
    → Emits [] c₁ c₂
    → Emits holes c c₂
Emits-trans {holes} {c} {c₁} {c₂} f g = record {
  longer = omega (arith, f.longer, g.longer);
  kept = λ i lt. g.kept i (omega (arith, lt, f.longer)) ∙ f.kept i lt;
  inside = λ i instr le free e. elim (Bool-cases (ltb i (length c₁))) [
    | inl below ↦
        Inside-widen (f.inside i instr le free (sym (g.kept i (ltb→lt _ _ below)) ∙ e))
          (omega arith) g.longer
    | inr above ↦
        Inside-widen (g.inside i instr (ground (arith, above)) refl e) f.longer (omega arith)
  ];
}

-- One more instruction, at the place of a new hole, or with its jump inside.
pub Emits-hole :
    {holes : List ℕ} {c c₁ : List Instruction} (opcode : Opcode) (a b : ℤ)
    → Emits holes c c₁
    → Emits (length c₁ ∷ holes) c (c₁ ++ instruction opcode a b ∷ [])
Emits-hole {holes} {c} {c₁} opcode a b f = record {
  longer = rw length-append (omega (arith, f.longer));
  kept = λ i lt. get_elem?-append_lt c₁ _ i (omega (arith, lt, f.longer)) ∙ f.kept i lt;
  inside = λ i instr le free e. elim (last_cases c₁ _ instr i e) [
    | inl old ↦
        Inside-widen (f.inside i instr le (ground (arith, free)) old) (omega arith)
          (rw length-append (omega arith))
    | inr (at, same) ↦ absurd (ground (arith, free, at))
  ];
}

pub Emits-emit :
    {holes : List ℕ} {c c₁ : List Instruction} (opcode : Opcode) (a b : ℤ)
    → Emits holes c c₁
    → Inside (length c) (length c₁) (instruction opcode a b)
    → Emits holes c (c₁ ++ instruction opcode a b ∷ [])
Emits-emit {holes} {c} {c₁} opcode a b f new = record {
  longer = rw length-append (omega (arith, f.longer));
  kept = λ i lt. get_elem?-append_lt c₁ _ i (omega (arith, lt, f.longer)) ∙ f.kept i lt;
  inside = λ i instr le free e. elim (last_cases c₁ _ instr i e) [
    | inl old ↦
        Inside-widen (f.inside i instr le free old) (omega arith) (rw length-append (omega arith))
    | inr (at, same) ↦ rw (← same) (Inside-widen new (omega arith) (rw length-append (omega arith)))
  ];
}

pub Emits-swap :
    {holes : List ℕ} {c c₁ : List Instruction} {h h' : ℕ}
    → Emits (h ∷ h' ∷ holes) c c₁
    → Emits (h' ∷ h ∷ holes) c c₁
Emits-swap f = record {
  longer = f.longer;
  kept = f.kept;
  inside = λ i instr le free e. f.inside i instr le (ground (arith, free)) e;
}

-- A change of one instruction's operand.
pub length-patch_at :
    (pc : ℕ) (a : ℤ) (code : List Instruction) → length (patch_at pc a code) ≡ length code
unfolding patch_at
length-patch_at pc a code = go (get_elem? code pc) refl
  where
    go :
        (o : Option Instruction) → get_elem? code pc ≡ o → length (patch_at pc a code) ≡ length code
    go none e = rw (e, patch_at) refl
    go (some i) e = rw (e, patch_at) (length-set code pc (record i { arg1 = a }))

get_elem?-patch_at_ne :
    (pc i : ℕ) (a : ℤ) (code : List Instruction)
    → pc ≢ i
    → get_elem? (patch_at pc a code) i ≡ get_elem? code i
unfolding patch_at
get_elem?-patch_at_ne pc i a code ne = go (get_elem? code pc) refl
  where
    go :
        (o : Option Instruction)
        → get_elem? code pc ≡ o
        → get_elem? (patch_at pc a code) i ≡ get_elem? code i
    go none e = rw (e, patch_at) refl
    go (some instr) e = rw (e, patch_at) (get_elem?-set_ne code pc i (record instr { arg1 = a }) ne)

get_elem?-patch_at_self :
    (pc : ℕ) (a : ℤ) (code : List Instruction) (instr : Instruction)
    → get_elem? (patch_at pc a code) pc ≡ some instr
    → instr.arg1 ≡ a
unfolding patch_at
get_elem?-patch_at_self pc a code instr found = go (get_elem? code pc) refl
  where
    go : (o : Option Instruction) → get_elem? code pc ≡ o → instr.arg1 ≡ a
    go none e = absurd (cc (e, (rw (e, patch_at) at found)))
    go (some i) e =
        ap (λ j. j.arg1)
          (sym (
            some-injective _ _ (
              sym (get_elem?-set_self code pc (record i { arg1 = a }) (lt-of_get_elem? code pc i e))
              ∙ (rw (e, patch_at) at found))))

-- A hole is filled with a target in the new code.
pub Emits-patch :
    {holes : List ℕ} {c c₁ : List Instruction} (hole target : ℕ)
    → Emits (hole ∷ holes) c c₁
    → length c ≤ hole
    → length c ≤ target
    → target ≤ length c₁
    → Emits holes c (patch_at hole (as_i32 target) c₁)
Emits-patch {holes} {c} {c₁} hole target f behind low high = record {
  longer = rw length-patch_at f.longer;
  kept = λ i lt.
      get_elem?-patch_at_ne hole i (as_i32 target) c₁ (λ e. omega (arith, e, lt, behind))
      ∙ f.kept i lt;
  inside = λ i instr le free e. elim (Bool-cases (hole == i)) [
    | inl at ↦
        jumps_to target
          (get_elem?-patch_at_self hole (as_i32 target) c₁ instr (
            subst (λ q. get_elem? (patch_at hole (as_i32 target) c₁) q ≡ some instr)
              (sym ((==_iff hole i).0 at)) e))
          low (rw length-patch_at high)
    | inr other ↦
        Inside-widen
          (f.inside i instr le (ground (arith, free, other)) (
            sym (get_elem?-patch_at_ne hole i (as_i32 target) c₁ λ q. ground (arith, other, q))
            ∙ e))
          (omega arith) (rw length-patch_at (omega arith))
  ];
}
