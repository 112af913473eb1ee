-- ===== src/Verifier/Sound.antt =====
-- src/verifier.rs against src/vm.rs: the abstract step and the machine's step.
pub mod Machine
pub mod Follows
pub mod Calls
pub mod Ends
pub mod Scalars
pub mod Arrays
pub mod Control
pub mod Step
