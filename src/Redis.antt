-- ===== src/Redis.antt =====
-- The Redis layer (redis_client.py).
pub mod Stores
pub mod Keys
pub mod Queue
pub mod Partners
pub mod RoomQueue
pub mod Requests
pub mod Notes
pub mod Untouched
