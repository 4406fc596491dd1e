-- ===== src/Transport.antt =====
-- zenbedded_transport: the C layer over zenoh-pico.
pub mod Ledger
pub mod Pool
pub mod State
pub mod Session
pub mod Endpoints
pub mod World
pub mod Ownership
pub mod Refinement
pub mod Kept
pub mod Sequence
mod Examples
