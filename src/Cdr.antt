-- ===== src/Cdr.antt =====
-- zenbedded_transport/src/serialization.c: the CDR buffers of JointState and JointCommand.
pub mod Cursor
pub mod JointState
pub mod JointCommand
pub mod Reference
mod Extends
mod Layout
pub mod Init
mod Shape
pub mod StateSegments
pub mod Access
pub mod StateAccess
pub mod StateRead
pub mod CommandInit
pub mod CommandAccess
pub mod Conformance
mod CommandConformance
pub mod Scratch
mod CommandExamples
mod Examples
