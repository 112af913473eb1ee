-- ===== src/Oracle/Slots.antt =====
-- src/oracle.rs: what an assignment stores is what a read gives, and other names keep their slots.
use minilang_rs.Prelude.{
  ℕ, ◌<◌, ◌≡◌, ◌≢◌, refl, sym, ◌∙◌, arith, true, Bool-cases, inl, inr, List, [], ◌∷◌, Option, none,
  some, String, length, set, get_elem?-set_self, get_elem?-set_ne,
}
use minilang_rs.Prelude.Int.{ℤ}
use minilang_rs.Prelude.Names.{find, put, same_name}
use minilang_rs.Word.{normalize_i32}
use minilang_rs.Oracle.{
  Slot, scalar, array, Frame, Scope, Oracle, ok, find_in_scopes, lookup_slot, set_in_scopes,
  set_slot, read_scalar, read_array, assign_scalar, assign_array,
}
use text.Mathlib.TextEquality.{path_by_compare}
use text.Mathlib.TextPositions.{compare_refl}

same_name_refl : (a : String) → same_name a a ≡ true
same_name_refl a = rw (same_name, compare_refl a) refl

same_name→eq : (a b : String) → same_name a b ≡ true → a ≡ b
same_name→eq a b h = path_by_compare a b (ground arith)

module _ {V : Type 0} where
  find-put : (name : String) (v : V) (m : List (String × V)) → find name (put name v m) ≡ some v
  find-put name v [] = rw (same_name_refl name) refl
  find-put name v ((key, old) ∷ m) = elim (Bool-cases (same_name key name)) [
    | inl e ↦ rw (e, e) refl
    | inr e ↦ rw (e, e) (find-put name v m)
  ]

  find-put_ne :
      (name other : String) (v : V) (m : List (String × V))
      → name ≢ other
      → find other (put name v m) ≡ find other m
  find-put_ne name other v [] h = elim (Bool-cases (same_name name other)) [
    | inl e ↦ absurd (h (same_name→eq name other e))
    | inr e ↦ rw e refl
  ]
  find-put_ne name other v ((key, old) ∷ m) h = elim (Bool-cases (same_name key name)) [
    | inl e ↦ elim (Bool-cases (same_name key other)) [
      | inl e' ↦ absurd (h (sym (same_name→eq key name e) ∙ same_name→eq key other e'))
      | inr e' ↦ rw (e, e') refl
    ]
    | inr e ↦ elim (Bool-cases (same_name key other)) [
      | inl e' ↦ rw (e, e') refl
      | inr e' ↦ rw (e, e') (find-put_ne name other v m h)
    ]
  ]

find-set_in_scopes :
    (name : String) (slot : Slot) (scopes : List Scope)
    → find_in_scopes name scopes ≢ none
    → find_in_scopes name (set_in_scopes name slot scopes) ≡ some slot
unfolding find_in_scopes set_in_scopes
find-set_in_scopes name slot [] h = absurd (h refl)
find-set_in_scopes name slot (scope ∷ scopes) h =
    let there = find-put name slot scope in
    let rest = find-set_in_scopes name slot scopes in ground arith

find-set_in_scopes_ne :
    (name other : String) (slot : Slot) (scopes : List Scope)
    → name ≢ other
    → find_in_scopes other (set_in_scopes name slot scopes) ≡ find_in_scopes other scopes
unfolding find_in_scopes set_in_scopes
find-set_in_scopes_ne name other slot [] h = refl
find-set_in_scopes_ne name other slot (scope ∷ scopes) h =
    let kept = find-put_ne name other slot scope h in
    let rest = find-set_in_scopes_ne name other slot scopes h in ground arith

lookup_slot-set_slot :
    (name : String) (old slot : Slot) (o : Oracle)
    → lookup_slot name o ≡ some old
    → lookup_slot name (set_slot name slot o) ≡ some slot
unfolding lookup_slot set_slot
lookup_slot-set_slot name old slot o h = go o.frames refl
  where
    go :
        (frames : List Frame)
        → o.frames ≡ frames
        → lookup_slot name (set_slot name slot o) ≡ some slot
    go [] e = let there = find-put name slot o.globals in ground arith
    go (f ∷ fs) e =
        let there = find-put name slot o.globals in
        let inner = find-set_in_scopes name slot f.scopes in ground arith

lookup_slot-set_slot_ne :
    (name other : String) (slot : Slot) (o : Oracle)
    → name ≢ other
    → lookup_slot other (set_slot name slot o) ≡ lookup_slot other o
unfolding lookup_slot set_slot
lookup_slot-set_slot_ne name other slot o h = go o.frames refl
  where
    go :
        (frames : List Frame)
        → o.frames ≡ frames
        → lookup_slot other (set_slot name slot o) ≡ lookup_slot other o
    go [] e = let kept = find-put_ne name other slot o.globals h in ground arith
    go (f ∷ fs) e =
        let kept = find-put_ne name other slot o.globals h in
        let inner = find-set_in_scopes_ne name other slot f.scopes h in ground arith

-- The state `o'` differs from `o` in the slot of `name`, and there by the value.
abbrev Stored : String → Slot → Oracle → Oracle → Type 0
Stored name slot o o' =
    (lookup_slot name o' ≡ some slot)
    × ((other : String) → name ≢ other → lookup_slot other o' ≡ lookup_slot other o)

set_slot-Stored :
    (name : String) (old slot : Slot) (o o' : Oracle)
    → lookup_slot name o ≡ some old
    → set_slot name slot o ≡ o'
    → Stored name slot o o'
set_slot-Stored name old slot o o' there e = rw (sym e) (
  lookup_slot-set_slot name old slot o there,
  λ other h. lookup_slot-set_slot_ne name other slot o h,
)

assign_scalar-Stored :
    (name : String) (v : ℤ) (o o' : Oracle) (found : Option Slot)
    → lookup_slot name o ≡ found
    → assign_scalar name v o ≡ ok tt o'
    → Stored name (scalar (some (normalize_i32 v))) o o'
unfolding assign_scalar
assign_scalar-Stored name v o o' none e h = ground arith
assign_scalar-Stored name v o o' (some (array values)) e h = ground arith
assign_scalar-Stored name v o o' (some (scalar old)) e h =
    set_slot-Stored name (scalar old) _ o o' e (ground arith)

assign_array-Stored :
    (name : String) (index : ℕ) (v : ℤ) (o o' : Oracle) (found : Option Slot)
    → lookup_slot name o ≡ found
    → assign_array name index v o ≡ ok tt o'
    → (values : List ℤ) × (found ≡ some (array values))
      × (index < length values)
      × Stored name (array (set values index (normalize_i32 v))) o o'
unfolding assign_array
assign_array-Stored name index v o o' none e h = absurd (ground arith)
assign_array-Stored name index v o o' (some (scalar old)) e h = absurd (ground arith)
assign_array-Stored name index v o o' (some (array values)) e h =
    (values, refl, ground arith, set_slot-Stored name (array values) _ o o' e (ground arith))

-- After an assignment to a variable, a read of it gives the value as a 32-bit integer, in the same
-- state, and every other name has the slot that it had.
pub assign_scalar-reads :
    (name : String) (v : ℤ) (o o' : Oracle)
    → assign_scalar name v o ≡ ok tt o'
    → (read_scalar name o' ≡ ok (normalize_i32 v) o')
      × ((other : String) → name ≢ other → lookup_slot other o' ≡ lookup_slot other o)
unfolding assign_scalar read_scalar
assign_scalar-reads name v o o' h =
    let (there, others) = assign_scalar-Stored name v o o' (lookup_slot name o) refl h in
    (rw (read_scalar, there) refl, others)

-- After an assignment to an element of an array, a read at its index gives the value as a 32-bit
-- integer, in the same state, a read at another index gives what it gave, and every other name has
-- the slot that it had.
pub assign_array-reads :
    (name : String) (index : ℕ) (v : ℤ) (o o' : Oracle)
    → assign_array name index v o ≡ ok tt o'
    → (read_array name index o' ≡ ok (normalize_i32 v) o')
      × ((j : ℕ) (w : ℤ)
          → index ≢ j
          → read_array name j o ≡ ok w o
          → read_array name j o' ≡ ok w o')
      × ((other : String) → name ≢ other → lookup_slot other o' ≡ lookup_slot other o)
unfolding assign_array read_array
assign_array-reads name index v o o' h =
    let (values, found, fits, (there, others)) =
      assign_array-Stored name index v o o' (lookup_slot name o) refl h in
    (
      rw (read_array, there, get_elem?-set_self values index (normalize_i32 v) fits) refl,
      (λ j w ne r. let kept = get_elem?-set_ne values index j (normalize_i32 v) ne in ground arith),
      others,
    )
