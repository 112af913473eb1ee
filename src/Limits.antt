-- ===== src/Limits.antt =====
-- src/limits.rs: the resource limits that the verifier and the virtual machines share.
use minilang_rs.Prelude.{ℕ}

abbrev pub max_global_slots : ℕ
max_global_slots = 256

abbrev pub max_local_slots : ℕ
max_local_slots = 1024

abbrev pub max_frames : ℕ
max_frames = 100

abbrev pub max_operand_stack : ℕ
max_operand_stack = 1000

abbrev pub max_cycles : ℕ
max_cycles = 100_000

abbrev pub max_instructions : ℕ
max_instructions = 10_000

-- `usize::MAX` on the 64-bit targets.
abbrev pub usize_max : ℕ
usize_max = 0xffff_ffff_ffff_ffff

-- `isize::MAX` on the 64-bit targets: no vector has more bytes.
abbrev pub isize_max : ℕ
isize_max = 0x7fff_ffff_ffff_ffff
