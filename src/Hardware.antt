-- ===== src/Hardware.antt =====
-- zenbedded_hardware_interface: the ros2_control plugin on the host.
pub mod Schema
pub mod Plugin
