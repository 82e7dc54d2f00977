-- ===== src/Gain.antt =====
-- src/auto_gain_control.h and src/auto_gain_control.c: automatic gain control. One record for each
-- of the 1200 directions of the antenna holds the gain to use there. The children hold the steps.
pub mod State
pub mod Zone
pub mod Samples
pub mod Revolution
pub mod Control
pub mod Cycle
pub mod Arrays
pub mod Near
pub mod Lines
pub mod Handles
pub mod Sweep
pub mod Invariant
pub mod SampleLoop
pub mod Filling
pub mod Packet
pub mod Start
pub mod Task
pub mod Turning
pub mod Antenna
mod Tests
mod AntennaTests
