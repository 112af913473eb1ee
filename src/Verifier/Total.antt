-- ===== src/Verifier/Total.antt =====
-- src/verifier.rs: the end of the worklist of `verify_function`.
pub mod Width
pub mod Weight
pub mod Loop
pub mod Function
