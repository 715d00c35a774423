-- ===== src/Chat/RoomSearch/Settled.antt =====
-- How a search for a room ends.
use bluechat.Base.{
  ℕ, ◌+◌, ◌≡◌, ◌⊎◌, refl, ◌∙◌, inl, inr, true, false, Option, none, some, is_some, elem, arith,
  Option-cases, Bool-cases, ==-refl,
}
use bluechat.Db.Models.{Database, State, Reason}
use bluechat.Db.Users.{get_user}
use bluechat.Db.Coins.Balance.{balance}
use bluechat.Db.Rooms.{RoomError, Outcome, ok, err, join_chat_room}
use bluechat.Db.Rooms.Effects.{active}
use bluechat.Db.Rooms.Invariant.{RoomsInv}
use bluechat.Db.Rooms.Outcomes.{Joined, join_chat_room-Joined}
use bluechat.Redis.Keys.{RoomBucket, Redis, Store}
use bluechat.Redis.RoomQueue.{joining, dequeue_room_join, is_waiting_room_join}
use bluechat.Redis.RoomQueue.Oldest.{zscore-enqueue_room_join}
use bluechat.Chat.Refunds.{coins-refund_coins, elem-drop_all}
use bluechat.Chat.RoomSearch.{
  Lobby, room_join_cost, is_conflict, set_active_room, refund_join, wait_for_room, after_join,
  try_join_room, handle_cancel_room_join_button, room_join_timeout_job,
}

module _ (d : Database) (c : Redis) where
  -- He is in a room, in both stores.
  abbrev pub InRoom : ℕ → Lobby d c → Type 0
  InRoom k w =
      (r : ℕ) × (active d k w.db ≡ some r) × (c.active_room.get k w.redis.active_room ≡ some r)

  -- He waits since `now`, and a time-out is pending.
  abbrev pub InQueue : ℕ → RoomBucket → ℕ → Lobby d c → Type 0
  InQueue k g now w =
      (c.room_join_queue.zscore k (joining c g w.redis) ≡ some now) × (elem k w.timeouts ≡ true)

  -- The price of the search is back.
  abbrev pub Repaid : ℕ → Lobby d c → Lobby d c → Type 0
  Repaid k w w' = balance (get_user d k w'.db) ≡ balance (get_user d k w.db) + room_join_cost

  pub wait_for_room-InQueue :
      (k : ℕ) (g : RoomBucket) (now : ℕ) (w : Lobby d c)
      → InQueue k g now (wait_for_room d c k g now w)
  unfolding wait_for_room
  wait_for_room-InQueue k g now w =
      (zscore-enqueue_room_join c k g now w.redis, ground (arith, ==-refl k))

  zscore-dequeue_room_join :
      (k : ℕ) (g : RoomBucket) (s : Store c)
      → c.room_join_queue.zscore k (joining c g (dequeue_room_join c k g s).0) ≡ none
  unfolding dequeue_room_join
  zscore-dequeue_room_join k RoomBucket.male s =
      c.room_join_queue.zscore-zrem k k s.joining_male ∙ ground (arith, ==-refl k)
  zscore-dequeue_room_join k RoomBucket.female s =
      c.room_join_queue.zscore-zrem k k s.joining_female ∙ ground (arith, ==-refl k)
  zscore-dequeue_room_join k RoomBucket.any s =
      c.room_join_queue.zscore-zrem k k s.joining_any ∙ ground (arith, ==-refl k)

  after_join-settled :
      (k : ℕ) (g : RoomBucket) (r : ℕ) (conflict : Option RoomError) (now : ℕ) (w : Lobby d c)
      (answer : State d × Outcome ℕ)
      → is_some (get_user d k w.db) ≡ true
      → Joined d k r conflict w.db answer
      → let w' = after_join d c k g now w answer in
        InRoom k w' ⊎ (Repaid k w w' ⊎ InQueue k g now w')
  unfolding after_join set_active_room refund_join
  after_join-settled k g r conflict now w (s, ok q) known (same, could, count, moved) = inl (
    q,
    ground (arith, moved k, ==-refl k, same),
    ground (arith, c.active_room.get-set k k q w.redis.active_room, ==-refl k),
  )
  after_join-settled k g r conflict now w (s, err e) known (still, could) =
      elim (Bool-cases (is_conflict e)) [
        | inl clash ↦
            rw (clash, still, after_join)
              (inr (
                inl (
                  coins-refund_coins d c k room_join_cost Reason.room_join_conflict_refund w.db
                    known)))
        | inr free ↦
            rw (free, after_join) (inr (inr (wait_for_room-InQueue k g now (record w { db = s }))))
      ]

  -- The paid search of a known user, where the rooms are in order, ends in one of three ways: he is
  -- in a room in both stores, or the price is back, or he waits in the queue and a time-out is
  -- pending.
  pub try_join_room-settled :
      (k : ℕ) (g : RoomBucket) (found : Option ℕ) (conflict : Option RoomError) (now : ℕ)
      (w : Lobby d c)
      → is_some (get_user d k w.db) ≡ true
      → RoomsInv d w.db
      → let w' = try_join_room d c k g found conflict now w in
        InRoom k w' ⊎ (Repaid k w w' ⊎ InQueue k g now w')
  unfolding try_join_room
  try_join_room-settled k g none conflict now w known v =
      inr (inr (wait_for_room-InQueue k g now w))
  try_join_room-settled k g (some r) conflict now w known v =
      after_join-settled k g r conflict now w (join_chat_room d k r conflict w.db) known
        (join_chat_room-Joined d k r conflict w.db v)

  -- A known user who waits for a room and cancels gets the price back, leaves the bucket that he
  -- was found in, and has no pending time-out; one who does not wait changes nothing.
  pub handle_cancel_room_join_button-Repaid :
      (k : ℕ) (w : Lobby d c)
      → is_some (get_user d k w.db) ≡ true
      → let w' = handle_cancel_room_join_button d c k w in
        ((is_waiting_room_join c k w.redis ≡ none) × (w' ≡ w))
        ⊎ ((g : RoomBucket) × (is_waiting_room_join c k w.redis ≡ some g)
            × Repaid k w w'
            × (c.room_join_queue.zscore k (joining c g w'.redis) ≡ none)
            × (elem k w'.timeouts ≡ false))
  unfolding handle_cancel_room_join_button refund_join
  handle_cancel_room_join_button-Repaid k w known =
      elim (Option-cases (is_waiting_room_join c k w.redis)) [
        | inl e ↦ rw (e, handle_cancel_room_join_button) (inl (refl, refl))
        | inr (g, e) ↦
            rw (e, handle_cancel_room_join_button)
              (inr (
                g,
                refl,
                coins-refund_coins d c k room_join_cost Reason.room_join_cancel_refund w.db known,
                zscore-dequeue_room_join k g w.redis,
                ground (arith, elem-drop_all k k w.timeouts),
              ))
      ]

  -- The time-out of a known user who waits for a room, in whichever bucket, gives the price back
  -- and takes him out of the bucket that it was scheduled with; one of a user who does not wait
  -- changes nothing.
  pub room_join_timeout_job-Repaid :
      (k : ℕ) (g : RoomBucket) (w : Lobby d c)
      → is_some (get_user d k w.db) ≡ true
      → let w' = room_join_timeout_job d c k g w in
        ((is_waiting_room_join c k w.redis ≡ none) × (w' ≡ w))
        ⊎ ((is_some (is_waiting_room_join c k w.redis) ≡ true)
            × Repaid k w w'
            × (c.room_join_queue.zscore k (joining c g w'.redis) ≡ none))
  unfolding room_join_timeout_job refund_join
  room_join_timeout_job-Repaid k g w known =
      elim (Option-cases (is_waiting_room_join c k w.redis)) [
        | inl e ↦ rw (e, room_join_timeout_job) (inl (refl, refl))
        | inr (h, e) ↦
            rw (e, room_join_timeout_job)
              (inr (
                refl,
                coins-refund_coins d c k room_join_cost Reason.room_join_timeout_refund w.db known,
                zscore-dequeue_room_join k g w.redis,
              ))
      ]
