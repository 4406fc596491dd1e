-- ===== src/Hardware/Schema.antt =====
-- zenbedded_hardware_interface/src/interface_schema.cpp: the schema of the raw payloads.
pub mod Types
pub mod Parse
pub mod Fields
pub mod Packing
pub mod Validity
pub mod Header
pub mod Access
