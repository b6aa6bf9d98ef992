-- ===== src/Focuser.antt =====
-- The focuser of the session, src/dwarf_alpaca/dwarf/session.py.
pub mod Moves
pub mod Commands
pub mod Bounds
pub mod Landing
pub mod Moving
pub mod Endpoints
mod Tests
