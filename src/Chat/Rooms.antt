-- ===== src/Chat/Rooms.antt =====
-- The handlers of the chat rooms: handlers/chatroom/creation.py, membership.py, moderation.py, the
-- kick of relay.py and `_remove_from_room` of ban_enforcement.py, over the state Lobby. Messages
-- are left out, and so are the offers to purge a room's history. The first read of the caller's
-- row is the row as it is, since each handler runs to its end before the next.
pub mod Mirrored
pub mod Handled
use bluechat.Base.{
  ℕ, zero, suc, ◌+◌, ◌-◌, Bool, true, false, not, Option, none, some, List, [], ◌∷◌, ◌==◌, elem,
  length, if◌then◌else◌, is_some, ltb,
}
use bluechat.Db.Models.{Database, State, User, ChatRoom, RoomStatus, RoomGenderPref, Reason}
use bluechat.Db.Users.{get_user}
use bluechat.Db.Rooms.{
  RoomError, Outcome, ok, err, LeaveInfo, KickInfo, MembersInfo, BanInfo, get_room, is_open,
  without, create_chat_room, join_chat_room, leave_chat_room, delete_chat_room, kick_room_member,
  set_room_open_status, remove_banned_user_from_room,
}
use bluechat.Redis.Keys.{RoomBucket, Redis, Store}
use bluechat.Redis.Queue.{is_waiting}
use bluechat.Redis.Partners.{get_partner}
use bluechat.Redis.RoomQueue.{
  Candidate, compatible_buckets, joining, dequeue_room_join, is_waiting_room_join,
  peek_oldest_room_join_candidate, purge_stale_room_join_queue,
}
use bluechat.Chat.World.{drop_all}
use bluechat.Chat.RoomSearch.{Lobby, is_conflict, set_active_room, refund_join}
use bluechat.Chat.Filling.{
  redis_conflict_check, clear_active_room, clear_all, suppress_all, forget,
  try_fill_room_from_queue,
}

-- `ROOM_CREATE_COST`
abbrev pub room_create_cost : ℕ
room_create_cost = 20

-- The refusals that tell who owns the room; the other one, `not_found`, tells that the caller is in
-- no room.
abbrev pub tells_owner : RoomError → Bool
tells_owner RoomError.is_owner = true
tells_owner RoomError.not_owner = true
tells_owner _ = false

module _ (d : Database) (c : Redis) where
  -- A caller who is in no room is dropped from the mirror.
  unfoldable pub after_refusal : ℕ → RoomError → Lobby d c → Lobby d c
  after_refusal k e w = if tells_owner e then w else forget d c k w

  -- `_handle_capacity_selected` behind the choice of a gender: the user may start unless a chat, a
  -- queue or a search holds him.
  unfoldable pub after_creation : ℕ → Lobby d c → State d × Outcome ℕ → Lobby d c
  unfolding try_fill_room_from_queue
  after_creation k w (s, err e) = record w { db = s }
  after_creation k w (s, ok r) =
      try_fill_room_from_queue d c r (record w { db = s; redis = set_active_room d c k r w.redis })

  unfoldable pub may_start_room_flow : ℕ → Store c → Bool
  unfolding redis_conflict_check
  may_start_room_flow k s =
      if is_some (redis_conflict_check d c k s)
      then false
      else not (is_some (is_waiting_room_join c k s))

  unfoldable pub handle_capacity_selected : ℕ → RoomGenderPref → ℕ → Lobby d c → Lobby d c
  unfolding after_creation may_start_room_flow
  handle_capacity_selected k pref capacity w =
      if may_start_room_flow k w.redis
      then after_creation k w (
          create_chat_room d k pref capacity room_create_cost (redis_conflict_check d c k w.redis)
            w.db)
      else w

  -- A room that has lost a member: what is over for all of its members, or a place to fill.
  unfoldable pub after_vacancy : ℕ → Bool → List ℕ → Lobby d c → Lobby d c
  unfolding clear_all try_fill_room_from_queue
  after_vacancy r true remaining w = record w { redis = clear_all d c remaining w.redis }
  after_vacancy r false remaining w = try_fill_room_from_queue d c r w

  unfoldable pub after_leave : ℕ → Lobby d c → State d × Outcome LeaveInfo → Lobby d c
  unfolding after_vacancy after_refusal
  after_leave k w (s, err e) = after_refusal k e (record w { db = s })
  after_leave k w (s, ok info) =
      after_vacancy info.room_id info.auto_deleted info.remaining_member_ids
        (forget d c k (record w { db = s }))

  unfoldable pub leave_room_button : ℕ → Lobby d c → Lobby d c
  unfolding after_leave
  leave_room_button k w = after_leave k w (leave_chat_room d (get_user d k w.db) k w.db)

  unfoldable pub after_deletion : ℕ → Lobby d c → State d × Outcome MembersInfo → Lobby d c
  unfolding clear_all after_refusal
  after_deletion k w (s, err e) = after_refusal k e (record w { db = s })
  after_deletion k w (s, ok info) = record w {
    db = s;
    redis = clear_all d c info.member_ids w.redis;
  }

  unfoldable pub delete_room_confirm_callback : ℕ → Lobby d c → Lobby d c
  unfolding after_deletion
  delete_room_confirm_callback k w =
      after_deletion k w (delete_chat_room d (get_user d k w.db) k w.db)

  -- The target is the sender of the message that the owner has answered.
  unfoldable pub after_kick : ℕ → Lobby d c → State d × Outcome KickInfo → Lobby d c
  unfolding after_vacancy
  after_kick target w (s, err e) = record w { db = s }
  after_kick target w (s, ok info) =
      after_vacancy info.room_id info.auto_deleted info.remaining_member_ids
        (forget d c target (record w { db = s }))

  unfoldable pub handle_kick_command : ℕ → ℕ → Lobby d c → Lobby d c
  unfolding after_kick
  handle_kick_command owner target w =
      if target == owner
      then w
      else after_kick target w (kick_room_member d (get_user d owner w.db) owner target w.db)

  unfoldable pub after_status : ℕ → Bool → Lobby d c → State d × Outcome MembersInfo → Lobby d c
  unfolding suppress_all after_refusal
  after_status k opens w (s, err e) = after_refusal k e (record w { db = s })
  after_status k opens w (s, ok info) = record w {
    db = s;
    redis = suppress_all d c (not opens) (without k info.member_ids) w.redis;
  }

  -- `close_room_button` and `reopen_room_button`.
  unfoldable pub set_room_status : ℕ → Bool → Lobby d c → Lobby d c
  unfolding after_status
  set_room_status k opens w =
      after_status k opens w (set_room_open_status d (get_user d k w.db) k opens w.db)

  unfoldable pub after_expulsion : ℕ → Lobby d c → State d × Option BanInfo → Lobby d c
  after_expulsion k w (s, none) = record w { db = s }
  after_expulsion k w (s, some info) = forget d c k (record w { db = s })

  unfoldable pub remove_from_room : ℕ → Lobby d c → Lobby d c
  unfolding after_expulsion
  remove_from_room k w =
      after_expulsion k w (remove_banned_user_from_room d (get_user d k w.db) k w.db)
