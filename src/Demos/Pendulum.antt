-- ===== src/Demos/Pendulum.antt =====
-- demos/inverted_pendulum/inverted_pendulum_tier1 and _tier2: the two programs share all but the clock
-- synchronisation and the codecs.
pub mod Double
pub mod Motor
pub mod Motion
pub mod Wait
pub mod Refusals
pub mod Cycle
pub mod Program
pub mod Watching
pub mod Watchdog
pub mod Standstill
pub mod Tiers
pub mod Commands
mod Examples
