-- ===== src/Verifier.antt =====
-- src/verifier.rs: the bytecode verifier.
-- `Report` holds the data, `Step` the abstract execution of one instruction, `Function` the
-- worklist over one function, `Metadata` the checks of the globals and the functions,
-- `Frames` the depth of the call graph, `Program` the backends and the whole report.
pub mod Report
pub mod Step
pub mod Rules
pub mod Raised
pub mod Reports
pub mod Metadata
pub mod Frames
pub mod Program
pub mod Certified
pub mod Total
pub mod Sound
pub mod Run
pub mod Function
mod Tests
mod Examples
