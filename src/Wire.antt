-- ===== src/Wire.antt =====
-- The schema-less protobuf readers of src/dwarf_alpaca/dwarf/session.py.
pub mod Varint
pub mod Fields
mod Tests
