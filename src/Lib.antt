-- ===== src/Lib.antt =====
-- Blue Chat: the stores and the chat handlers of the bot, and what they keep.
--
-- The bot pairs strangers for 1:1 chats and hosts small chat rooms. What lasts (users, coins,
-- rooms, sessions) is in Postgres, behind db/queries.py; what is momentary (queues, partners,
-- flags) is in Redis, behind redis_client.py; the handlers call both.
--
-- Base     tests, lists and signed amounts over the native numbers
-- Db       db/models.py and db/queries.py. Tables and Models: the tables, which are parameters
--          with the documented behaviour of the SQL statements as laws. Users, Coins, Rooms: the
--          operations under their own names (get_or_create_user, deduct_coins,
--          join_chat_room, ...). A function that reads the caller's row before it locks the room
--          takes that first read as the argument `peek`, which may be out of date; a
--          `SELECT ... FOR UPDATE` finds the committed row, so the rest is one step on the
--          state, but a session that has loaded the row before hands out its old values, as
--          in leave_chat_room. Moderation, Blocking, History: proofs.
-- Redis    redis_client.py. Stores and Keys: the commands on a family of keys, and on a sorted set,
--          with their laws; a key that expires is one that the server deletes. Queue: the waiting
--          queue and the Lua script (`match_or_enqueue`), one step. Partners: who chats with whom.
--          RoomQueue: the queue for a room. Notes: who has written a note and who is about to answer
--          which.
-- Chat     the handlers. World: both stores, the pending time-outs of the queue and what was sent;
--          each handler runs to its end before the next. Matching, Session, History: the 1:1 chat
--          (handlers/chat/matching.py, handlers/chat/session.py, the closing of a chat in
--          ban_enforcement.py). Requests: requests for a chat (handlers/public_profile.py) and
--          their expiry (main.py). RoomSearch, Filling, Rooms, RoomJobs: the chat rooms
--          (handlers/chatroom/creation.py, membership.py, moderation.py, matching.py, the kick of
--          relay.py, `_remove_from_room` of ban_enforcement.py, the mirror job of main.py) over
--          the state Lobby: both stores and the pending time-outs of the searches. Untouched: what
--          the 1:1 chat leaves alone in Redis. Search: the search by filters (handlers/search.py),
--          whose select is a parameter, and the purge of the queue (main.py). Bot: the steps of
--          all of these on the same stores. Exclusive: rooms and 1:1 chat apart.
--          Notes: anonymous notes and direct messages (handlers/anon_note.py).
-- Limiter  gemini_limiter.py: the token bucket, in whole parts of a token.
-- Spam     spam_guard.py: sliding windows and blocks, at the default limits.
-- Memory   tables in memory that meet the laws; Examples: Redis likewise, and runs.
--
-- Amounts of coins are the callers' constants and not negative, so they are natural
-- numbers; recorded amounts have a sign. Times are whole ticks, in the 1:1 chat seconds. Ids that
-- are drawn at random, and the id of a pinned message, are arguments. The loop that
-- fills a room from the queue has as fuel the number of users who wait for a room and one more,
-- since every round but the last takes one of them out of the queue; everything else is recursion on lists.
--
-- Not modelled: the relay of messages in chats and rooms, their maps and the deletion of a history,
-- reports, the judges, profiles, reactions and the routing; texts, keyboards, metrics and
-- logs; interleavings of the handlers' single calls of the stores; and what Telegram does with a
-- message.
pub mod Base
pub mod Db
pub mod Redis
pub mod Chat
pub mod Memory
pub mod Limiter
pub mod Spam
mod Examples
