-- ===== src/Client/Buffer.antt =====
-- zenbedded_rcl/src/zenbedded_client.cpp: a double buffer with one writer and one reader, and every
-- interleaving of the two. `state_buffer_` and `cmd_buffer_` are two instances: the functions on
-- them read alike, but for the count of accepted commands.
pub mod Slots
pub mod Steps
mod Invariant
mod Writes
mod Reads
pub mod Safety
pub mod Progress
mod Examples
