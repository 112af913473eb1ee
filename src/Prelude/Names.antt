-- ===== src/Prelude/Names.antt =====
-- Maps with text keys, `HashMap<String, _>`: association lists in which the first entry counts.
use Prim.Native.Nat.{Ordering}
use Prim.Native.String.{String, compare}
use mathlib.Core.Bool.{Bool, true, false}
use mathlib.Core.List.{List, [], ◌∷◌}
use mathlib.Core.Option.{Option, none, some}
use minilang_rs.Prelude.Tests.{if◌then◌else◌}

abbrev pub same_name : String → String → Bool
same_name a b = elim (compare a b) [ Ordering.eq ↦ true | _ ↦ false ]

module _ {ℓ} {V : Type ℓ} where
  abbrev pub find : String → List (String × V) → Option V
  find name [] = none
  find name ((key, value) ∷ entries) = if same_name key name then some value else find name entries

  -- The value of a key that is there is replaced, and a new key goes last.
  abbrev pub put : String → V → List (String × V) → List (String × V)
  put name value [] = (name, value) ∷ []
  put name value ((key, old) ∷ entries) =
      let later = put name value entries in
      if same_name key name then (key, value) ∷ entries else (key, old) ∷ later

  abbrev pub has_key : String → List (String × V) → Bool
  has_key name entries = elim (find name entries) [ some v ↦ true | none ↦ false ]

  abbrev pub values : List (String × V) → List V
  values [] = []
  values ((key, value) ∷ entries) = value ∷ values entries
