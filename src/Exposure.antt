-- ===== src/Exposure.antt =====
-- The exposure tables of src/dwarf_alpaca/dwarf/exposure.py.
pub mod Json
pub mod Floats
pub mod Duration
pub mod Options
pub mod Resolver
pub mod Positive
pub mod Rounds
pub mod Cover
pub mod Table
pub mod Choice
pub mod Millis
mod Tests
