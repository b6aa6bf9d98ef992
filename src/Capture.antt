-- ===== src/Capture.antt =====
-- The notifications of a capture in src/dwarf_alpaca/dwarf/session.py.
pub mod Notify
pub mod Ready
pub mod Progress
mod Tests
