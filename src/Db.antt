-- ===== src/Db.antt =====
-- The Postgres layer (db/models.py, db/queries.py).
pub mod Tables
pub mod Models
pub mod Users
pub mod Coins
pub mod Rooms
pub mod RoomLists
pub mod Moderation
pub mod Blocking
pub mod History
