-- ===== src/Oracle/Total/Values.antt =====
-- src/oracle.rs: the operations on values end without a panic on 32-bit values.
use minilang_rs.Prelude.{
  ℕ, ◌≢◌, refl, arith, Bool, true, false, Bool-cases, inl, inr, Option, none, some, ltb,
}
use minilang_rs.Prelude.Int.{ℤ, pos, negsuc, ◌==ℤ◌}
use minilang_rs.Word.{
  IsI32, checked_neg, checked_div, normalize_i32, wrapping_add, wrapping_sub, wrapping_mul,
  as_usize, emod,
}
use minilang_rs.Word.Laws.{normalize_i32-IsI32, checked_neg-eq-none, checked_div-eq-none}
use minilang_rs.Ast.{BinaryOp, UnaryOp}
use minilang_rs.Oracle.{pure, bool_value, checked_array_index, eval_binary, eval_unary, zeros}
use minilang_rs.Oracle.Fits.{AllOf, IfAny, IsSize}
use minilang_rs.Oracle.Fits.Keeps.{replicate_Fits}
use minilang_rs.Oracle.Total.{Ends, Any, pure-Ends, fail-Ends, or_panic-Ends, if-Leads, bind-Leads}

negated : (v : ℤ) → IsI32 v → checked_neg v ≢ none
negated v h e = let marker = checked_neg-eq-none v e in ground arith

divided : (l r : ℤ) → IsI32 l → checked_div l r ≢ none
divided l r h e = let (marker, _) = checked_div-eq-none l r e in ground arith

bool_value-IsI32 : (b : Bool) → IsI32 (bool_value b)
bool_value-IsI32 true = ground arith
bool_value-IsI32 false = ground arith

if_any : {A : Type 0} (v : Option A) → IfAny Any v
if_any none = tt
if_any (some a) = tt

module _ {k d : ℕ} where
  pub normalized-Ends : (v : ℤ) → Ends IsI32 k d (pure (normalize_i32 v))
  normalized-Ends v = pure-Ends (normalize_i32 v) (normalize_i32-IsI32 v)

  pub bool_value-Ends : (b : Bool) → Ends IsI32 k d (pure (bool_value b))
  bool_value-Ends b = pure-Ends (bool_value b) (bool_value-IsI32 b)

  pub eval_unary-Ends : (op : UnaryOp) (v : ℤ) → IsI32 v → Ends IsI32 k d (eval_unary op v)
  unfolding eval_unary
  eval_unary-Ends UnaryOp.neg v h =
      bind-Leads (or_panic-Ends (checked_neg v) (negated v h) (if_any _)) (λ n _. normalized-Ends n)
  eval_unary-Ends UnaryOp.not v h = bool_value-Ends _

  -- The operators that reach `eval_binary`.
  pub eval_binary-Ends :
      (op : BinaryOp) (l r : ℤ)
      → op ≢ BinaryOp.and
      → op ≢ BinaryOp.or
      → IsI32 l
      → Ends IsI32 k d (eval_binary op l r)
  unfolding eval_binary
  eval_binary-Ends BinaryOp.add l r na nor h = normalized-Ends (wrapping_add l r)
  eval_binary-Ends BinaryOp.sub l r na nor h = normalized-Ends (wrapping_sub l r)
  eval_binary-Ends BinaryOp.mul l r na nor h = normalized-Ends (wrapping_mul l r)
  eval_binary-Ends BinaryOp.div l r na nor h =
      if-Leads (r ==ℤ pos 0) (λ _. fail-Ends _)
        (λ _.
          bind-Leads (or_panic-Ends (checked_div l r) (divided l r h) (if_any _))
            (λ q _. normalized-Ends q))
  eval_binary-Ends BinaryOp.eq l r na nor h = bool_value-Ends _
  eval_binary-Ends BinaryOp.ne l r na nor h = bool_value-Ends _
  eval_binary-Ends BinaryOp.lt l r na nor h = bool_value-Ends _
  eval_binary-Ends BinaryOp.gt l r na nor h = bool_value-Ends _
  eval_binary-Ends BinaryOp.le l r na nor h = bool_value-Ends _
  eval_binary-Ends BinaryOp.ge l r na nor h = bool_value-Ends _
  eval_binary-Ends BinaryOp.and l r na nor h = absurd (na refl)
  eval_binary-Ends BinaryOp.or l r na nor h = absurd (nor refl)

  pub checked_array_index-Ends : (raw : ℤ) → Ends Any k d (checked_array_index raw)
  unfolding checked_array_index
  checked_array_index-Ends raw = record { ends = λ o h. ground arith }

pub zeros-Fits : (size : ℤ) → IsSize size → zeros size ≢ none
unfolding zeros as_usize emod
zeros-Fits (pos n) h e = ground arith
zeros-Fits (negsuc n) h e = ground arith

pub zeros_all : (size : ℤ) → IfAny (AllOf IsI32) (zeros size)
unfolding zeros
zeros_all size = elim (Bool-cases (ltb 0x0fff_ffff_ffff_ffff (as_usize size))) [
  | inl b ↦ rw (zeros, b) tt
  | inr b ↦ rw (zeros, b) (replicate_Fits IsI32 _ (pos 0) (ground arith))
]
