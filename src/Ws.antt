-- ===== src/Ws.antt =====
-- The websocket client: src/dwarf_alpaca/dwarf/ws_client.py.
pub mod Dict
pub mod Client
pub mod Receive
pub mod Tables
pub mod Invariant
pub mod Steps
pub mod Futures
pub mod Answers
pub mod Lost
pub mod Requests
mod Tests
