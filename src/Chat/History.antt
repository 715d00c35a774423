-- ===== src/Chat/History.antt =====
-- Any history of the handlers of the 1:1 chat, each run to its end before the next. `now` is the
-- time of a call, `pinned` the id of the queue message if it could be pinned.
use bluechat.Base.{ℕ, Option, List, [], ◌∷◌, String}
use bluechat.Db.Models.{Database, RoomGenderPref}
use bluechat.Redis.Keys.{Redis}
use bluechat.Chat.World.{World}
use bluechat.Chat.Matching.{start_chat, handle_desired_gender_callback, queue_timeout_job}
use bluechat.Chat.Session.{stop_chat, next_chat, close_active_1to1_chat}
use bluechat.Chat.Pairing.{Sound, start_chat-Sound, handle_desired_gender_callback-Sound}
use bluechat.Chat.Pairing.Endings.{
  queue_timeout_job-Sound, stop_chat-Sound, next_chat-Sound, close_active_1to1_chat-Sound,
}

pub data Event : Type 0 where
  starts : ℕ → Option String → Option String → Option ℕ → ℕ → Event
  chooses : ℕ → RoomGenderPref → Option ℕ → ℕ → Event
  times_out : ℕ → Event
  stops : ℕ → Event
  goes_next : ℕ → Option ℕ → ℕ → Event
  is_expelled : ℕ → Event

module _ (d : Database) (c : Redis) where
  unfoldable pub handle : Event → World d c → World d c
  handle (Event.starts k username first_name pinned now) w =
      start_chat d c k username first_name pinned now w
  handle (Event.chooses k choice pinned now) w =
      handle_desired_gender_callback d c k choice pinned now w
  handle (Event.times_out k) w = queue_timeout_job d c k w
  handle (Event.stops k) w = stop_chat d c k w
  handle (Event.goes_next k pinned now) w = next_chat d c k pinned now w
  handle (Event.is_expelled k) w = close_active_1to1_chat d c k w

  unfoldable pub handle_all : List Event → World d c → World d c
  unfolding handle
  handle_all [] w = w
  handle_all (e ∷ es) w = handle_all es (handle e w)

  pub handle-Sound : (e : Event) (w : World d c) → Sound d c w → Sound d c (handle e w)
  unfolding handle
  handle-Sound (Event.starts k username first_name pinned now) w v =
      start_chat-Sound d c k username first_name pinned now w v
  handle-Sound (Event.chooses k choice pinned now) w v =
      handle_desired_gender_callback-Sound d c k choice pinned now w v
  handle-Sound (Event.times_out k) w v = queue_timeout_job-Sound d c k w v
  handle-Sound (Event.stops k) w v = stop_chat-Sound d c k w v
  handle-Sound (Event.goes_next k pinned now) w v = next_chat-Sound d c k pinned now w v
  handle-Sound (Event.is_expelled k) w v = close_active_1to1_chat-Sound d c k w v

  -- Every history of `start_chat`, the choice of a gender, the time-out of a search, `stop_chat`,
  -- `next_chat` and `_close_active_1to1_chat` keeps three things that hold before it: if b is
  -- stored as the partner of a then a is stored as the partner of b, nobody is his own partner, and
  -- nobody with a partner is in the queue.
  pub handle_all-Sound :
      (es : List Event) (w : World d c) → Sound d c w → Sound d c (handle_all es w)
  unfolding handle_all
  handle_all-Sound [] w v = v
  handle_all-Sound (e ∷ es) w v = handle_all-Sound es (handle e w) (handle-Sound e w v)
