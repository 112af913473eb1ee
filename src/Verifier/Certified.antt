-- ===== src/Verifier/Certified.antt =====
-- src/verifier.rs: what `verify_function` has established where it reports no error.
pub mod States
pub mod Visit
pub mod Loop
pub mod Clean
pub mod Locals
pub mod Flow
pub mod Function
