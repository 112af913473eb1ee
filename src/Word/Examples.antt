-- ===== src/Word/Examples.antt =====
-- The laws of normalisation at concrete values.
use minilang_rs.Prelude.{◌≡◌, arith}
use minilang_rs.Prelude.Int.{pos, negsuc}
use minilang_rs.Word.{normalize_i32, wrap_i64}
use minilang_rs.Word.Laws.{normalize_i32-eq_self, normalize_i32-wrap_i64}

normalize_i32-eq_self_example : normalize_i32 (negsuc 0x7fff_ffff) ≡ negsuc 0x7fff_ffff
normalize_i32-eq_self_example =
    normalize_i32-eq_self (negsuc 0x7fff_ffff) (omega arith, omega arith)

normalize_i32-wrap_i64_example :
    normalize_i32 (wrap_i64 (pos 0x1_0000_0000_0000_0005))
    ≡ normalize_i32 (pos 0x1_0000_0000_0000_0005)
normalize_i32-wrap_i64_example = normalize_i32-wrap_i64 (pos 0x1_0000_0000_0000_0005)
