-- ===== src/Command.antt =====
-- src/iwip.c, lines 248-373, and src/cmd.h: the commands that arrive over TCP.
pub mod Codes
pub mod Dispatch
pub mod Meaning
pub mod Message
mod Tests
