-- ===== src/Udp.antt =====
-- src/main.c, lines 62-134: `udp_parse_task` merges ten packets into one and passes it on.
pub mod Merge
pub mod Task
pub mod MaxWords
pub mod Total
pub mod Pool
pub mod Pairs
pub mod Faults
pub mod Calls
pub mod Ownership
pub mod Bytes
pub mod Group
pub mod Peak
pub mod Tenth
pub mod Overread
pub mod Order
mod Tests
