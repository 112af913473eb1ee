-- ===== src/Oracle/Total/Operations.antt =====
-- src/oracle.rs: the operations on the state end without a panic on 32-bit values.
use minilang_rs.Prelude.{
  ℕ, suc, ◌≡◌, refl, ap, arith, Bool-cases, inl, inr, List, [], ◌∷◌, Option, none, some, String,
  length, ltb,
}
use minilang_rs.Prelude.Int.{ℤ}
use minilang_rs.Prelude.Names.{find}
use minilang_rs.Word.{IsI32}
use minilang_rs.Word.Laws.{normalize_i32-IsI32}
use minilang_rs.Oracle.{
  Slot, scalar, array, Scope, Frame, Oracle, lookup_slot, set_slot, insert_slot, read_scalar,
  read_array, assign_scalar, assign_global_scalar, assign_array, declare_or_update,
}
use minilang_rs.Oracle.Nodes.{ensure_slot, push_output}
use minilang_rs.Oracle.Run.{open_frame, close_frame}
use minilang_rs.Oracle.Fits.{AllOf, IfAny, Values, SlotFits, FrameFits}
use minilang_rs.Oracle.Fits.Keeps.{
  put_Fits, get_elem?_Fits, set_Fits, lookup_slot_Fits, set_slot_Fits,
}
use minilang_rs.Oracle.Total.{Left, Ended, Leads, Ends, Any}

module _ {k d : ℕ} where
  pub read_scalar-Ends : (name : String) → Ends IsI32 k d (read_scalar name)
  unfolding read_scalar
  read_scalar-Ends name = record { ends = go }
    where
      go : (o : Oracle) → Left k d o → Ended IsI32 k d (read_scalar name o)
      go o (l, m, e, fits) = let found = lookup_slot_Fits name o fits in ground arith

  pub read_array-Ends : (name : String) (index : ℕ) → Ends IsI32 k d (read_array name index)
  unfolding read_array
  read_array-Ends name index = record { ends = go }
    where
      go : (o : Oracle) → Left k d o → Ended IsI32 k d (read_array name index o)
      go o (l, m, e, fits) = found (lookup_slot name o) refl (lookup_slot_Fits name o fits)
        where
          found :
              (slot : Option Slot)
              → lookup_slot name o ≡ slot
              → IfAny SlotFits slot
              → Ended IsI32 k d (read_array name index o)
          found none e' h = rw (read_array, e') tt
          found (some (scalar v)) e' h = rw (read_array, e') tt
          found (some (array values)) e' h =
              let element = get_elem?_Fits IsI32 values index h in ground arith

  pub insert_slot-Ends :
      (name : String) (slot : Slot) → SlotFits slot → Ends Any k d (insert_slot name slot)
  unfolding insert_slot
  insert_slot-Ends name slot h = record { ends = go }
    where
      go : (o : Oracle) → Left k d o → Ended Any k d (insert_slot name slot o)
      go o (l, m, e, (hg, hf)) = inserted o.frames refl hf
        where
          inserted :
              (frames : List Frame)
              → o.frames ≡ frames
              → AllOf FrameFits frames
              → Ended Any k d (insert_slot name slot o)
          inserted [] e' hs = rw (insert_slot, e') tt
          inserted (f ∷ fs) e' (hs, rest) = into f.scopes refl hs
            where
              into :
                  (scopes : List Scope)
                  → f.scopes ≡ scopes
                  → AllOf (Values SlotFits) scopes
                  → Ended Any k d (insert_slot name slot o)
              into [] e'' h' = rw (insert_slot, e', e'') tt
              into (s ∷ ss) e'' (h', hss) =
                  rw (insert_slot, e', e'')
                    (
                      tt,
                      (l, m, ground arith, (hg, ((put_Fits SlotFits name slot s h h', hss), rest))),
                    )

  set_slot-Left :
      (name : String) (slot : Slot) (o : Oracle)
      → SlotFits slot
      → Left k d o
      → Left k d (set_slot name slot o)
  unfolding set_slot
  set_slot-Left name slot o h (l, m, e, fits) =
      let kept = set_slot_Fits name slot o h fits in
      (ground arith, ground arith, ground arith, kept)

  pub declare_or_update-Ends :
      (name : String) (slot : Slot) → SlotFits slot → Ends Any k d (declare_or_update name slot)
  unfolding declare_or_update
  declare_or_update-Ends name slot h = record { ends = λ o l. go o l (lookup_slot name o) refl }
    where
      go :
          (o : Oracle)
          → Left k d o
          → (found : Option Slot) → lookup_slot name o ≡ found
          → Ended Any k d (declare_or_update name slot o)
      go o l none e = rw (declare_or_update, e) ((insert_slot-Ends name slot h).ends o l)
      go o l (some old) e = rw (declare_or_update, e) (tt, set_slot-Left name slot o h l)

  pub ensure_slot-Ends : (name : String) → Ends Any k d (ensure_slot name)
  unfolding ensure_slot
  ensure_slot-Ends name = record { ends = λ o l. go o l (lookup_slot name o) refl }
    where
      go :
          (o : Oracle)
          → Left k d o
          → (found : Option Slot) → lookup_slot name o ≡ found
          → Ended Any k d (ensure_slot name o)
      go o l none e = rw (ensure_slot, e) ((insert_slot-Ends name (scalar none) tt).ends o l)
      go o l (some old) e = rw (ensure_slot, e) (tt, l)

  pub assign_scalar-Ends : (name : String) (v : ℤ) → Ends Any k d (assign_scalar name v)
  unfolding assign_scalar
  assign_scalar-Ends name v = record { ends = λ o l. go o l (lookup_slot name o) refl }
    where
      go :
          (o : Oracle)
          → Left k d o
          → (found : Option Slot) → lookup_slot name o ≡ found
          → Ended Any k d (assign_scalar name v o)
      go o l none e = rw (assign_scalar, e) tt
      go o l (some (array values)) e = rw (assign_scalar, e) tt
      go o l (some (scalar old)) e =
          rw (assign_scalar, e) (tt, set_slot-Left name _ o (normalize_i32-IsI32 v) l)

  pub assign_array-Ends :
      (name : String) (index : ℕ) (v : ℤ) → Ends Any k d (assign_array name index v)
  unfolding assign_array
  assign_array-Ends name index v = record {
    ends = λ o l.
        let (_, _, _, fits) = l in go o l (lookup_slot name o) refl (lookup_slot_Fits name o fits);
  }
    where
      go :
          (o : Oracle)
          → Left k d o
          → (found : Option Slot) → lookup_slot name o ≡ found
          → IfAny SlotFits found
          → Ended Any k d (assign_array name index v o)
      go o l none e h = rw (assign_array, e) tt
      go o l (some (scalar old)) e h = rw (assign_array, e) tt
      go o l (some (array values)) e h = elim (Bool-cases (ltb index (length values))) [
        | inl b ↦
            rw (assign_array, e, b)
              (
                tt,
                set_slot-Left name _ o (set_Fits IsI32 values index _ (normalize_i32-IsI32 v) h) l,
              )
        | inr b ↦ rw (assign_array, e, b) tt
      ]

  pub assign_global_scalar-Ends :
      (name : String) (v : ℤ) → Ends Any k d (assign_global_scalar name v)
  unfolding assign_global_scalar
  assign_global_scalar-Ends name v = record { ends = λ o l. go o l (find name o.globals) refl }
    where
      go :
          (o : Oracle)
          → Left k d o
          → (found : Option Slot) → find name o.globals ≡ found
          → Ended Any k d (assign_global_scalar name v o)
      go o l none e = rw (assign_global_scalar, e) tt
      go o l (some (array values)) e = rw (assign_global_scalar, e) tt
      go o (l, m, n, (hg, hf)) (some (scalar old)) e =
          rw (assign_global_scalar, e)
            (tt, (l, m, n, (put_Fits SlotFits name _ o.globals (normalize_i32-IsI32 v) hg, hf)))

  pub push_output-Ends : (v : ℤ) → Ends Any k d (push_output v)
  unfolding push_output
  push_output-Ends v = record { ends = λ o h. (tt, h) }

  pub open_frame-Leads :
      (scope : Scope) → Values SlotFits scope → Leads Any k d k (suc d) (open_frame scope)
  unfolding open_frame
  open_frame-Leads scope h = record {
    ends = λ o l. let (c, m, n, (hg, hf)) = l in (tt, (c, m, ap suc n, (hg, ((h, tt), hf))));
  }

  pub close_frame-Leads : Leads Any k (suc d) k d close_frame
  unfolding close_frame
  close_frame-Leads = record { ends = λ o l. let (_, _, _, (_, hf)) = l in go o l o.frames refl hf }
    where
      go :
          (o : Oracle)
          → Left k (suc d) o
          → (frames : List Frame) → o.frames ≡ frames
          → AllOf FrameFits frames
          → Ended Any k d (close_frame o)
      go o (c, m, n, fits) [] e hs = absurd (ground arith)
      go o (c, m, n, (hg, hf)) (f ∷ fs) e (h, hs) =
          rw (close_frame, e) (tt, (c, m, ground arith, (hg, hs)))
