-- ===== src/Vm.antt =====
-- src/vm.rs: the reference virtual machine.
-- `State` is the machine and its helpers, `Execute` the instructions, `Run` validation and the loop.
pub mod State
pub mod Execute
pub mod Run
pub mod Post
pub mod Bounds
mod Tests
mod Examples
