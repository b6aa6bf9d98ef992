-- ===== src/Store.antt =====
-- The connectivity state that src/dwarf_alpaca/dwarf/state.py keeps in a file.
pub mod State
pub mod RoundTrip
mod Tests
