-- ===== src/Vm/Bounds.antt =====
-- src/vm.rs: the bounds of the machine's stores, and what the helpers keep of them.
pub mod Helpers
pub mod Calls
pub mod Arms
pub mod Step
pub mod Loop
pub mod Total
