-- ===== src/Ble.antt =====
-- BLE provisioning frames: src/dwarf_alpaca/dwarf/ble_packets.py.
pub mod Crc
pub mod Frame
mod Tests
