-- ===== src/Hardware/Plugin.antt =====
-- zenbedded_hardware_interface/src/zenbedded_hardware.cpp: the plugin over a schema.
pub mod State
pub mod Lifecycle
pub mod Loop
pub mod Cycle
pub mod Readiness
pub mod Startup
pub mod Events
mod Examples
