-- ===== src/Client/Codec.antt =====
-- zenbedded_rcl/include/zenbedded_rcl/codecs.hpp: the contract of a codec, and the codecs.
pub mod Contract
pub mod Raw
pub mod JointStates
pub mod JointCommands
