-- ===== src/Chat/Bot.antt =====
-- What moves users into and out of the 1:1 chat and the chat rooms, on the same two stores, each
-- step run to its end before the next: the handlers of the 1:1 chat, the requests for one, the search by
-- filters, the purge of the waiting queue, and the handlers and jobs of the chat rooms. The 1:1 chat
-- and the chat rooms have their own time-outs.
use bluechat.Base.{ℕ, Option, List}
use bluechat.Db.Models.{Database}
use bluechat.Redis.Keys.{Redis}
use bluechat.Chat.World.{World}
use bluechat.Chat.RoomSearch.{Lobby}
use bluechat.Chat.Search.{Filters, run_search, purge_stale_queue_job}
use bluechat.Chat.RoomJobs.Histories.{RoomEvent, take_step}
use bluechat.Chat.Requests.Histories.{RequestEvent, respond}

pub record Bot (d : Database) (c : Redis) : Type 0 where
  pub chat : World d c
  pub room_timeouts : List ℕ

pub data BotEvent : Type 0 where
  of_chat : RequestEvent → BotEvent
  of_rooms : RoomEvent → BotEvent
  filters : ℕ → Filters → (List ℕ → Option ℕ) → Option ℕ → ℕ → BotEvent
  purges : ℕ → BotEvent

module _ (d : Database) (c : Redis) where
  abbrev pub lobby_of : Bot d c → Lobby d c
  lobby_of b = record { db = b.chat.db; redis = b.chat.redis; timeouts = b.room_timeouts }

  abbrev pub after_lobby : Lobby d c → Bot d c → Bot d c
  after_lobby w b = record {
    chat = record (b.chat) { db = w.db; redis = w.redis };
    room_timeouts = w.timeouts;
  }

  unfoldable pub serve : BotEvent → Bot d c → Bot d c
  serve (BotEvent.of_chat e) b = record b { chat = respond d c e b.chat }
  serve (BotEvent.of_rooms e) b = after_lobby (take_step d c e (lobby_of b)) b
  serve (BotEvent.filters k asked fits pinned now) b = record b {
    chat = run_search d c k asked fits pinned now b.chat;
  }
  serve (BotEvent.purges now) b = record b { chat = purge_stale_queue_job d c now b.chat }
