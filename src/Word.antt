-- ===== src/Word.antt =====
-- The 64-bit arithmetic of the machines and its normalisation to 32 bits:
-- `normalize_i32` of src/vm.rs, src/optimizer.rs, src/oracle.rs and src/gc_vm.rs, and the
-- operations on `i64` and `usize` that the code around it uses.
pub mod Laws
mod Examples
use minilang_rs.Prelude.{ℕ, ◌-◌, ◌%◌, ◌^◌, ◌&&◌, ltb, if◌then◌else◌, Option, none, some}
use minilang_rs.Prelude.Int.{ℤ, pos, negsuc, ◌+ℤ◌, ◌-ℤ◌, ◌*ℤ◌, ◌/ℤ◌, ◌≤ℤ◌, ◌==ℤ◌}

-- The residue of an integer: the low bits of its two's complement, where `m` is a power of 2.
unfoldable pub emod : ℤ → ℕ → ℕ
emod (pos n) m = n % m
emod (negsuc n) m = m - 1 - n % m

-- `i64::MIN`, the machines' marker for a local that has no value.
abbrev pub undefined : ℤ
undefined = negsuc 0x7fff_ffff_ffff_ffff

abbrev pub IsI64 : ℤ → Type 0
IsI64 v = (undefined ≤ℤ v) × (v ≤ℤ pos 0x7fff_ffff_ffff_ffff)

abbrev pub IsI32 : ℤ → Type 0
IsI32 v = (negsuc 0x7fff_ffff ≤ℤ v) × (v ≤ℤ pos 0x7fff_ffff)

-- `i64` wrap-around: the integer that a residue below 2 ^ 64 stands for.
unfoldable pub wrap_i64 : ℤ → ℤ
unfolding emod ◌-ℤ◌
wrap_i64 v =
    let low = emod v (2 ^ 64) in
    if ltb 0x7fff_ffff_ffff_ffff low then pos low -ℤ pos (2 ^ 64) else pos low

unfoldable pub wrapping_add : ℤ → ℤ → ℤ
unfolding wrap_i64 emod ◌+ℤ◌ ◌-ℤ◌
wrapping_add a b = wrap_i64 (a +ℤ b)

unfoldable pub wrapping_sub : ℤ → ℤ → ℤ
unfolding wrap_i64 emod ◌-ℤ◌
wrapping_sub a b = wrap_i64 (a -ℤ b)

unfoldable pub wrapping_mul : ℤ → ℤ → ℤ
unfolding wrap_i64 emod ◌*ℤ◌ ◌-ℤ◌
wrapping_mul a b = wrap_i64 (a *ℤ b)

-- `-a`: it overflows at `i64::MIN` alone.
unfoldable pub checked_neg : ℤ → Option ℤ
unfolding ◌-ℤ◌
checked_neg a = if a ==ℤ undefined then none else some (pos 0 -ℤ a)

-- `a / b` where `b` is not 0: it overflows at `i64::MIN / -1` alone.
unfoldable pub checked_div : ℤ → ℤ → Option ℤ
unfolding ◌/ℤ◌
checked_div a b = if a ==ℤ undefined && b ==ℤ negsuc 0 then none else some (a /ℤ b)

-- `value & 0xFFFFFFFF`, brought into the signed range.
unfoldable pub normalize_i32 : ℤ → ℤ
unfolding emod ◌-ℤ◌
normalize_i32 value =
    let masked = emod value (2 ^ 32) in
    if ltb 0x7fff_ffff masked then pos masked -ℤ pos 0x1_0000_0000 else pos masked

-- `value as usize` of a signed value: the bit pattern of its 64-bit sign extension.
unfoldable pub as_usize : ℤ → ℕ
unfolding emod
as_usize v = emod v (2 ^ 64)
