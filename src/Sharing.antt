-- ===== src/Sharing.antt =====
-- The devices that share the session of src/dwarf_alpaca/dwarf/session.py, and the filter wheel of
-- src/dwarf_alpaca/devices/filterwheel.py.
pub mod Session
pub mod Holders
pub mod Release
pub mod Counts
pub mod Wheel
pub mod Latch
pub mod Steps
pub mod Connect
pub mod FocuserShare
mod Tests
