-- ===== src/Demos/SineNode.antt =====
-- demos/sine_wave/sine_wave_zephyr: the firmware of the sine wave.
pub mod Loop
pub mod Amplitude
pub mod Program
pub mod Running
mod Examples
