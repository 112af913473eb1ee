-- ===== src/Verifier/Run.antt =====
-- src/verifier.rs with src/vm.rs: the run of a program that `verify` accepts.
pub mod Callers
pub mod Instruction
pub mod Loop
pub mod Verified
mod Examples
