-- ===== src/Camera.antt =====
-- The camera: src/dwarf_alpaca/devices/camera.py, and the capture workflow of
-- src/dwarf_alpaca/dwarf/session.py.
pub mod Device
pub mod Window
pub mod Capture
pub mod Start
pub mod Fetch
pub mod Endpoint
pub mod Refusal
pub mod Blocked
pub mod Connect
pub mod Latch
pub mod Steps
pub mod Completes
pub mod Abort
pub mod Stuck
pub mod Photo
mod Tests
