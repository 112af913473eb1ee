-- ===== src/Word/Laws.antt =====
-- What normalisation and 64-bit wrap-around do to a value.
use minilang_rs.Prelude.{◌≡◌, arith, none}
use minilang_rs.Prelude.Int.{ℤ, pos, negsuc}
use minilang_rs.Word.{IsI32, undefined, checked_neg, checked_div, normalize_i32, wrap_i64}

-- The result is always a 32-bit value.
pub normalize_i32-IsI32 : (v : ℤ) → IsI32 (normalize_i32 v)
unfolding normalize_i32
normalize_i32-IsI32 (pos n) = ground arith
normalize_i32-IsI32 (negsuc n) = ground arith

-- A 32-bit value is left alone.
pub normalize_i32-eq_self : (v : ℤ) → IsI32 v → normalize_i32 v ≡ v
unfolding normalize_i32
normalize_i32-eq_self (pos n) h = ground arith
normalize_i32-eq_self (negsuc n) h = ground arith

-- Normalising forgets that the 64-bit operation wrapped around.
pub normalize_i32-wrap_i64 : (v : ℤ) → normalize_i32 (wrap_i64 v) ≡ normalize_i32 v
unfolding normalize_i32 wrap_i64
normalize_i32-wrap_i64 (pos n) = ground arith
normalize_i32-wrap_i64 (negsuc n) = ground arith

-- Negation overflows at the marker alone, and division there by -1.
pub checked_neg-eq-none : (a : ℤ) → checked_neg a ≡ none → a ≡ undefined
unfolding checked_neg
checked_neg-eq-none a e = ground arith

pub checked_div-eq-none : (a b : ℤ) → checked_div a b ≡ none → (a ≡ undefined) × (b ≡ negsuc 0)
unfolding checked_div
checked_div-eq-none a b e = ground arith
