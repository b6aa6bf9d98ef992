-- ===== src/Telescope.antt =====
-- The telescope: the requests of src/dwarf_alpaca/devices/telescope.py that move it, and the manual
-- motion of src/dwarf_alpaca/dwarf/session.py.
pub mod Manual
pub mod Halt
pub mod Slew
pub mod Cause
mod Tests
