-- ===== src/Chat/Filling.antt =====
-- handlers/chatroom/matching.py: the filling of a room from the queue, with the check of the two
-- stores of creation.py and the mirror of `active_room_id` that redis_client.py keeps. Messages
-- are left out.
pub mod Ends
pub mod Kept
pub mod Filled
use bluechat.Base.{
  ℕ, zero, suc, ◌+◌, ◌-◌, Bool, true, false, not, Option, none, some, List, [], ◌∷◌, ◌==◌, elem,
  length, if◌then◌else◌, is_some, ltb,
}
use bluechat.Db.Models.{Database, State, User, ChatRoom, RoomStatus, RoomGenderPref, Reason}
use bluechat.Db.Users.{get_user}
use bluechat.Db.Rooms.{
  RoomError, Outcome, ok, err, LeaveInfo, KickInfo, MembersInfo, BanInfo, get_room, is_open,
  without, create_chat_room, join_chat_room, leave_chat_room, delete_chat_room, kick_room_member,
  set_room_open_status, remove_banned_user_from_room,
}
use bluechat.Redis.Keys.{RoomBucket, Redis, Store}
use bluechat.Redis.Queue.{is_waiting}
use bluechat.Redis.Partners.{get_partner}
use bluechat.Redis.RoomQueue.{
  Candidate, compatible_buckets, joining, dequeue_room_join, is_waiting_room_join,
  peek_oldest_room_join_candidate, purge_stale_room_join_queue,
}
use bluechat.Chat.World.{drop_all}
use bluechat.Chat.RoomSearch.{Lobby, is_conflict, set_active_room, refund_join}

-- The errors after which a room takes nobody, and the candidate keeps his place.
abbrev pub ends_filling : RoomError → Bool
ends_filling RoomError.room_full = true
ends_filling RoomError.room_not_open = true
ends_filling RoomError.not_found = true
ends_filling _ = false

module _ (d : Database) (c : Redis) where
  unfoldable pub redis_conflict_check : ℕ → Store c → Option RoomError
  redis_conflict_check k s =
      if is_some (get_partner c k s)
      then some RoomError.in_1to1
      else if is_waiting c k s
      then some RoomError.in_queue
      else none

  abbrev pub get_active_room : ℕ → Store c → Option ℕ
  get_active_room k s = c.active_room.get k s.active_room

  -- The mark of a suppressed room goes with the room.
  unfoldable pub clear_active_room : ℕ → Store c → Store c
  clear_active_room k s = record s {
    active_room = c.active_room.del k s.active_room;
    room_ui_suppressed = c.room_ui_suppressed.del k s.room_ui_suppressed;
  }

  unfoldable pub clear_all : List ℕ → Store c → Store c
  unfolding clear_active_room
  clear_all [] s = s
  clear_all (k ∷ ks) s = clear_all ks (clear_active_room k s)

  unfoldable pub suppress_room_ui : ℕ → Store c → Store c
  suppress_room_ui k s = record s {
    room_ui_suppressed = c.room_ui_suppressed.set k true s.room_ui_suppressed;
  }

  unfoldable pub unsuppress_room_ui : ℕ → Store c → Store c
  unsuppress_room_ui k s = record s {
    room_ui_suppressed = c.room_ui_suppressed.del k s.room_ui_suppressed;
  }

  unfoldable pub suppress_all : Bool → List ℕ → Store c → Store c
  unfolding suppress_room_ui unsuppress_room_ui
  suppress_all away [] s = s
  suppress_all away (k ∷ ks) s =
      suppress_all away ks (if away then suppress_room_ui k s else unsuppress_room_ui k s)

  abbrev pub forget : ℕ → Lobby d c → Lobby d c
  forget k w = record w { redis = clear_active_room k w.redis }

  -- What became of one candidate; the answer says whether the loop goes on.
  unfoldable pub after_claim : ℕ → Candidate → Lobby d c → State d × Outcome ℕ → Lobby d c × Bool
  unfolding set_active_room refund_join
  after_claim r b w (s, ok _) =
      let out : Store c = (dequeue_room_join c b.user_id b.bucket w.redis).0 in
      (
        record w {
          db = s;
          redis = set_active_room d c b.user_id r out;
          timeouts = drop_all b.user_id w.timeouts;
        },
        true,
      )
  after_claim r b w (s, err e) =
      let out : Lobby d c = record w {
        db = s;
        redis = (dequeue_room_join c b.user_id b.bucket w.redis).0;
        timeouts = drop_all b.user_id w.timeouts;
      } in
      if ends_filling e
      then (record w { db = s }, false)
      else if is_conflict e
      then (refund_join d c b.user_id Reason.room_join_conflict_refund out, true)
      else (out, true)

  -- One round of the loop of `try_fill_room_from_queue`.
  unfoldable pub fill_round : ℕ → List RoomBucket → Lobby d c → Lobby d c × Bool
  unfolding after_claim redis_conflict_check
  fill_round r gs w = elim (peek_oldest_room_join_candidate c gs w.redis) [
    | none ↦ (w, false)
    | some b ↦
        after_claim r b w
          (join_chat_room d b.user_id r (redis_conflict_check b.user_id w.redis) w.db)
  ]

  -- At most `fuel` rounds, and whether the loop has come to its own end by then.
  unfoldable pub fill : ℕ → ℕ → List RoomBucket → Lobby d c → Lobby d c × Bool
  unfolding fill_round
  fill zero r gs w = (w, false)
  fill (suc fuel) r gs w =
      let (after, goes_on) = fill_round r gs w in
      let rest = fill fuel r gs after in if goes_on then rest else (after, true)

  abbrev pub queued_in : RoomBucket → Store c → ℕ
  queued_in g s = length (c.room_join_queue.zrange (joining c g s))

  -- How many wait for a room.
  abbrev pub queued : Store c → ℕ
  queued s =
      queued_in RoomBucket.male s + queued_in RoomBucket.female s + queued_in RoomBucket.any s

  -- The loop with a round for everybody who waits, and one to find that nobody does.
  unfoldable pub try_fill_room_from_queue : ℕ → Lobby d c → Lobby d c
  unfolding fill
  try_fill_room_from_queue r w = elim (get_room d r w.db) [
    | none ↦ w
    | some room ↦
        let filled : Lobby d c =
          (fill (queued w.redis + 1) r (compatible_buckets room.gender_pref) w).0 in
        if is_open room.status then filled else w
  ]
