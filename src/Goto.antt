-- ===== src/Goto.antt =====
-- Slewing to a target: the goto record of the session, src/dwarf_alpaca/dwarf/session.py.
pub mod State
pub mod Notify
pub mod Commands
pub mod Invariant
pub mod Changes
pub mod Keeps
pub mod Steps
pub mod Notices
pub mod Completion
pub mod Superseded
mod Tests
