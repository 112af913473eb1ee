-- ===== src/Oracle/Fits/Keeps.antt =====
-- src/oracle.rs: the maps, and the slots found and set, keep values that fit.
use minilang_rs.Prelude.{
  ℕ, zero, suc, ◌≡◌, refl, arith, Bool-cases, inl, inr, List, [], ◌∷◌, Option, none, some, String,
  get_elem?, set, replicate,
}
use minilang_rs.Prelude.Int.{ℤ}
use minilang_rs.Prelude.Names.{find, put, same_name}
use minilang_rs.Word.Laws.{normalize_i32-IsI32}
use minilang_rs.Ast.{Param, Function}
use minilang_rs.Oracle.{
  Slot, Scope, Frame, Oracle, find_in_scopes, lookup_slot, set_in_scopes, set_slot,
}
use minilang_rs.Oracle.Run.{function_table, root_scope}
use minilang_rs.Oracle.Fits.{AllOf, IfAny, Values, SlotFits, FrameFits, StateFits, FunctionFits}

module _ {A : Type 0} (P : A → Type 0) where
  pub find_Fits : (name : String) (m : List (String × A)) → Values P m → IfAny P (find name m)
  find_Fits name [] h = tt
  find_Fits name ((key, x) ∷ m) (hx, h) = elim (Bool-cases (same_name key name)) [
    | inl e ↦ rw e hx
    | inr e ↦ rw e (find_Fits name m h)
  ]

  pub put_Fits :
      (name : String) (v : A) (m : List (String × A)) → P v → Values P m → Values P (put name v m)
  put_Fits name v [] hv h = (hv, tt)
  put_Fits name v ((key, x) ∷ m) hv (hx, h) = elim (Bool-cases (same_name key name)) [
    | inl e ↦ rw e (hv, h)
    | inr e ↦ rw e (hx, put_Fits name v m hv h)
  ]

  pub get_elem?_Fits : (xs : List A) (i : ℕ) → AllOf P xs → IfAny P (get_elem? xs i)
  get_elem?_Fits [] i h = tt
  get_elem?_Fits (x ∷ xs) zero (hx, h) = hx
  get_elem?_Fits (x ∷ xs) (suc i) (hx, h) = get_elem?_Fits xs i h

  pub set_Fits : (xs : List A) (i : ℕ) (v : A) → P v → AllOf P xs → AllOf P (set xs i v)
  set_Fits [] i v hv h = h
  set_Fits (x ∷ xs) zero v hv (hx, h) = (hv, h)
  set_Fits (x ∷ xs) (suc i) v hv (hx, h) = (hx, set_Fits xs i v hv h)

  pub replicate_Fits : (n : ℕ) (v : A) → P v → AllOf P (replicate n v)
  replicate_Fits zero v hv = tt
  replicate_Fits (suc n) v hv = (hv, replicate_Fits n v hv)

find_in_scopes_Fits :
    (name : String) (scopes : List Scope)
    → AllOf (Values SlotFits) scopes
    → IfAny SlotFits (find_in_scopes name scopes)
unfolding find_in_scopes
find_in_scopes_Fits name [] h = tt
find_in_scopes_Fits name (scope ∷ scopes) (hs, h) =
    let inner = find_Fits SlotFits name scope hs in
    let outer = find_in_scopes_Fits name scopes h in ground arith

set_in_scopes_Fits :
    (name : String) (slot : Slot) (scopes : List Scope)
    → SlotFits slot
    → AllOf (Values SlotFits) scopes
    → AllOf (Values SlotFits) (set_in_scopes name slot scopes)
unfolding set_in_scopes
set_in_scopes_Fits name slot [] hv h = tt
set_in_scopes_Fits name slot (scope ∷ scopes) hv (hs, h) =
    let inner = put_Fits SlotFits name slot scope hv hs in
    let outer = set_in_scopes_Fits name slot scopes hv h in ground arith

pub lookup_slot_Fits :
    (name : String) (o : Oracle) → StateFits o → IfAny SlotFits (lookup_slot name o)
unfolding lookup_slot
lookup_slot_Fits name o (hg, hf) = go o.frames hf
  where
    globally : IfAny SlotFits (find name o.globals)
    globally = find_Fits SlotFits name o.globals hg

    go :
        (frames : List Frame)
        → AllOf FrameFits frames
        → IfAny SlotFits (elim frames [
          | [] ↦ find name o.globals
          | frame ∷ frames ↦ elim (find_in_scopes name frame.scopes) [
            | some slot ↦ some slot
            | none ↦ find name o.globals
          ]
        ])
    go [] h = globally
    go (f ∷ fs) (h, hs) =
        let inner = find_in_scopes_Fits name f.scopes h in let outer = globally in ground arith

pub set_slot_Fits :
    (name : String) (slot : Slot) (o : Oracle)
    → SlotFits slot
    → StateFits o
    → StateFits (set_slot name slot o)
unfolding set_slot
set_slot_Fits name slot o hv (hg, hf) = go o.frames refl hf
  where
    globally : Values SlotFits (put name slot o.globals)
    globally = put_Fits SlotFits name slot o.globals hv hg

    go :
        (frames : List Frame)
        → o.frames ≡ frames
        → AllOf FrameFits frames
        → StateFits (set_slot name slot o)
    go [] e h = rw (set_slot, e) (globally, hf)
    go (f ∷ fs) e (h, hs) = inner (find_in_scopes name f.scopes) refl
      where
        inner :
            (found : Option Slot)
            → find_in_scopes name f.scopes ≡ found
            → StateFits (set_slot name slot o)
        inner none e' = rw (set_slot, e, e') (globally, hf)
        inner (some old) e' =
            rw (set_slot, e, e') (hg, (set_in_scopes_Fits name slot f.scopes hv h, hs))

pub function_table_Fits :
    (functions : List Function) (table : List (String × Function))
    → AllOf FunctionFits functions
    → Values FunctionFits table
    → Values FunctionFits (function_table functions table)
unfolding function_table
function_table_Fits [] table h ht = ht
function_table_Fits (f ∷ functions) table (hf, h) ht =
    function_table_Fits functions _ h (put_Fits FunctionFits f.name f table hf ht)

pub root_scope_Fits :
    (params : List Param) (values : List ℤ) (scope : Scope)
    → Values SlotFits scope
    → Values SlotFits (root_scope params values scope)
unfolding root_scope
root_scope_Fits [] values scope h = h
root_scope_Fits (p ∷ params) [] scope h = h
root_scope_Fits (p ∷ params) (v ∷ values) scope h =
    root_scope_Fits params values _ (put_Fits SlotFits p.name _ scope (normalize_i32-IsI32 v) h)
