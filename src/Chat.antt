-- ===== src/Chat.antt =====
-- The handlers of the 1:1 chat (handlers/chat, ban_enforcement.py) over both stores.
pub mod World
pub mod Matching
pub mod Session
pub mod Search
pub mod Pairing
pub mod History
pub mod Refunds
pub mod RoomSearch
pub mod Filling
pub mod Rooms
pub mod RoomJobs
pub mod Requests
pub mod Notes
pub mod Untouched
pub mod Bot
pub mod Exclusive
