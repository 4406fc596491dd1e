-- ===== src/Demos/Host.antt =====
-- demos: the ros2_control packages of the demonstrations.
pub mod Double
pub mod MockPendulum
pub mod PendulumController
pub mod Simulation
pub mod Bounded
pub mod SineWave
mod Examples
