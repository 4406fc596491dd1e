-- ===== src/Demos.antt =====
-- demos: the firmware of the inverted pendulum and of the sine wave, and the controllers and the
-- simulation of the host.
pub mod Pendulum
pub mod Host
pub mod SineNode
