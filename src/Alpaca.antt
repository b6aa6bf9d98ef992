-- ===== src/Alpaca.antt =====
-- What the Alpaca devices share, src/dwarf_alpaca/devices/utils.py.
pub mod Envelope
pub mod Ids
pub mod Parameter
mod Tests
