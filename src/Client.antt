-- ===== src/Client.antt =====
-- zenbedded_rcl: the client of the microcontroller.
pub mod Buffer
pub mod Lifecycle
pub mod Codec
pub mod Channels
pub mod Delivery
pub mod Outcome
pub mod Startup
pub mod Reception
pub mod ControlLoop
pub mod Pacing
pub mod JointClient
pub mod Soundness
pub mod Examples
mod ChannelExamples
mod JointExamples
