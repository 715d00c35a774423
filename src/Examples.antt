-- ===== src/Examples.antt =====
-- Concrete stores and runs of the modules above.
pub mod Cache
pub mod Rooms
mod Coins
mod Queue
pub mod Chats
mod Requests
mod Limits
pub mod Lobbies
mod Fillings
mod Bots
mod Notes
