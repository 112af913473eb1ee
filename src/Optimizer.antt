-- ===== src/Optimizer.antt =====
-- src/optimizer.rs: the four passes over a compiled program.
pub mod Passes
pub mod Dead
pub mod Block
mod Examples
