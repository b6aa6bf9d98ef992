-- ===== src/Ftp.antt =====
-- The search for a new photo on the telescope's FTP server, src/dwarf_alpaca/dwarf/ftp_client.py.
pub mod Listing
pub mod Wait
pub mod Order
pub mod Fresh
pub mod Raw
pub mod Found
mod Tests
