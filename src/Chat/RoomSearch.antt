-- ===== src/Chat/RoomSearch.antt =====
-- handlers/chatroom/matching.py: the paid search for a room, its cancellation and its time-out. The
-- room that `find_open_room_for_join` proposes is the argument `found`, since `join_chat_room`
-- decides again; `conflict` is what the check of the two stores returns inside that call.
pub mod Settled
use bluechat.Base.{ℕ, Bool, true, false, Option, none, some, List, [], ◌∷◌}
use bluechat.Db.Models.{Database, State, Reason}
use bluechat.Db.Coins.{refund_coins}
use bluechat.Db.Rooms.{RoomError, Outcome, ok, err, join_chat_room}
use bluechat.Redis.Keys.{RoomBucket, Redis, Store}
use bluechat.Redis.RoomQueue.{enqueue_room_join, dequeue_room_join, is_waiting_room_join}
use bluechat.Chat.World.{drop_all}

-- `ROOM_JOIN_COST`
abbrev pub room_join_cost : ℕ
room_join_cost = 3

-- Both stores, and the pending time-outs of the searches for a room.
pub record Lobby (d : Database) (c : Redis) : Type 0 where
  pub db : State d
  pub redis : Store c
  pub timeouts : List ℕ

-- The errors of a join that give the coins back; after any other the search goes on.
abbrev pub is_conflict : RoomError → Bool
is_conflict RoomError.in_1to1 = true
is_conflict RoomError.in_queue = true
is_conflict _ = false

module _ (d : Database) (c : Redis) where
  unfoldable pub set_active_room : ℕ → ℕ → Store c → Store c
  set_active_room k r s = record s { active_room = c.active_room.set k r s.active_room }

  unfoldable pub refund_join : ℕ → Reason → Lobby d c → Lobby d c
  refund_join k reason w = record w { db = (refund_coins d k room_join_cost reason w.db).0 }

  unfoldable pub wait_for_room : ℕ → RoomBucket → ℕ → Lobby d c → Lobby d c
  wait_for_room k g now w = record w {
    redis = enqueue_room_join c k g now w.redis;
    timeouts = k ∷ w.timeouts;
  }

  -- What follows the attempt to join the room that was proposed.
  unfoldable pub after_join : ℕ → RoomBucket → ℕ → Lobby d c → State d × Outcome ℕ → Lobby d c
  unfolding set_active_room refund_join wait_for_room
  after_join k g now w (s, ok r) = record w { db = s; redis = set_active_room k r w.redis }
  after_join k g now w (s, err e) = elim (is_conflict e) [
    | true ↦ refund_join k Reason.room_join_conflict_refund (record w { db = s })
    | false ↦ wait_for_room k g now (record w { db = s })
  ]

  unfoldable pub try_join_room :
      ℕ → RoomBucket → Option ℕ → Option RoomError → ℕ → Lobby d c → Lobby d c
  unfolding after_join wait_for_room
  try_join_room k g none conflict now w = wait_for_room k g now w
  try_join_room k g (some r) conflict now w =
      after_join k g now w (join_chat_room d k r conflict w.db)

  unfoldable pub handle_cancel_room_join_button : ℕ → Lobby d c → Lobby d c
  unfolding refund_join
  handle_cancel_room_join_button k w = elim (is_waiting_room_join c k w.redis) [
    | none ↦ w
    | some g ↦
        refund_join k Reason.room_join_cancel_refund (record w {
          redis = (dequeue_room_join c k g w.redis).0;
          timeouts = drop_all k w.timeouts;
        })
  ]

  -- `g` is the bucket that the time-out was scheduled with. The job that runs is no longer among
  -- the pending ones, which the scheduler sees to before the call.
  unfoldable pub room_join_timeout_job : ℕ → RoomBucket → Lobby d c → Lobby d c
  unfolding refund_join
  room_join_timeout_job k g w = elim (is_waiting_room_join c k w.redis) [
    | none ↦ w
    | some _ ↦
        refund_join k Reason.room_join_timeout_refund
          (record w { redis = (dequeue_room_join c k g w.redis).0 })
  ]
