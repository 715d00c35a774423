-- ===== src/Chat/Exclusive/Fillings.antt =====
-- The queue for a room and the filling of a room are calm.
use bluechat.Base.{
  ℕ, zero, suc, ◌+◌, ◌≡◌, refl, inl, inr, Bool, true, false, not, ◌&&◌, Option, List, [], ◌∷◌, ◌==◌,
  is_some, arith, Option-cases, Bool-cases, eq_of_test, ◌-◌,
}
use bluechat.Db.Models.{Database, State, Reason}
use bluechat.Db.Rooms.{RoomError, Outcome, ok, err, get_room, is_open, join_chat_room}
use bluechat.Db.Rooms.Arrivals.{Arrivals, join_chat_room-Arrivals}
use bluechat.Redis.Keys.{RoomBucket, Redis, Store, room_join_timeout_seconds}
use bluechat.Redis.Queue.{waits_in, is_waiting}
use bluechat.Redis.RoomQueue.{
  Candidate, compatible_buckets, peek_oldest_room_join_candidate, dequeue_room_join,
  is_waiting_room_join, purge_stale_room_join_queue,
}
use bluechat.Chat.World.{drop_all}
use bluechat.Chat.RoomSearch.{Lobby, room_join_cost, is_conflict, set_active_room, refund_join}
use bluechat.Chat.Filling.{
  ends_filling, redis_conflict_check, after_claim, fill_round, fill, queued,
  try_fill_room_from_queue,
}
use bluechat.Chat.Filling.Kept.{active-refund_coins}
use bluechat.Chat.RoomJobs.{fill_rooms, sweep_room_join_queue}
use bluechat.Chat.Exclusive.{engaged}
use bluechat.Chat.Exclusive.Lobbies.{
  Calm, then-Calm, arrive-Calm, engaged-dequeue_room_join, seeks-dequeue_room_join,
  redis_conflict_check-engaged,
}
use bluechat.Db.RoomLists.{list_open_room_ids_with_spare_capacity}

module _ (d : Database) (c : Redis) where
  pub refl-Calm : (w : Lobby d c) → Calm d c w w
  refl-Calm w = record { same = λ j. refl; free = λ j. ground arith }

  pub refund_join-Calm :
      (k : ℕ) (reason : Reason) (w : Lobby d c) → Calm d c w (refund_join d c k reason w)
  unfolding refund_join
  refund_join-Calm k reason w = record {
    same = λ j. refl;
    free = λ j. ground (arith, active-refund_coins d c j k room_join_cost reason w.db);
  }

  -- A candidate who has been asked: whoever gets a room by it was not engaged.
  after_claim-Calm :
      (newcomer : ℕ → Bool) (r : ℕ) (b : Candidate) (w : Lobby d c) (answer : State d × Outcome ℕ)
      → Arrivals d newcomer w.db answer.0
      → ((j : ℕ) → newcomer j ≡ true → engaged d c j w.redis ≡ false)
      → Calm d c w (after_claim d c r b w answer).0
  unfolding after_claim set_active_room is_waiting waits_in is_waiting_room_join
  after_claim-Calm newcomer r b w (s, ok a) arrivals idle =
      arrive-Calm d c newcomer w _ (λ j. engaged-dequeue_room_join d c j b.user_id b.bucket w.redis)
        arrivals (λ j other. seeks-dequeue_room_join d c j b.user_id b.bucket w.redis) idle
  after_claim-Calm newcomer r b w (s, err e) arrivals idle =
      let out : Lobby d c = record w {
        db = s;
        redis = (dequeue_room_join c b.user_id b.bucket w.redis).0;
        timeouts = drop_all b.user_id w.timeouts;
      } in
      let calm : Calm d c w out =
        arrive-Calm d c newcomer w out
          (λ j. engaged-dequeue_room_join d c j b.user_id b.bucket w.redis) arrivals
          (λ j other. seeks-dequeue_room_join d c j b.user_id b.bucket w.redis) idle in
      elim (Bool-cases (ends_filling e)) [
        | inl ends ↦ rw ends (
            arrive-Calm d c newcomer w (record w { db = s }) (λ j. refl) arrivals
              (λ j other. ground arith) idle)
        | inr goes ↦ elim (Bool-cases (is_conflict e)) [
          | inl conflict ↦
              rw (goes, conflict)
                (then-Calm d c w out
                  (refund_join d c b.user_id Reason.room_join_conflict_refund out) calm
                  (refund_join-Calm b.user_id Reason.room_join_conflict_refund out))
          | inr other ↦ rw (goes, other) calm
        ]
      ]

  pub idle_without_conflict :
      (k : ℕ) (s : Store c) (j : ℕ)
      → ((j == k) && not (is_some (redis_conflict_check d c k s))) ≡ true
      → engaged d c j s ≡ false
  idle_without_conflict k s j new =
      let same : j == k ≡ true = ground (arith, new) in
      rw (eq_of_test j k same) (ground (arith, new, redis_conflict_check-engaged d c k s))

  fill_round-Calm :
      (r : ℕ) (gs : List RoomBucket) (w : Lobby d c) → Calm d c w (fill_round d c r gs w).0
  unfolding fill_round
  fill_round-Calm r gs w = elim (Option-cases (peek_oldest_room_join_candidate c gs w.redis)) [
    | inl nobody ↦ rw (nobody, fill_round) (refl-Calm w)
    | inr (b, found) ↦
        let conflict : Option RoomError = redis_conflict_check d c b.user_id w.redis in
        rw (found, fill_round)
          (after_claim-Calm (λ j. (j == b.user_id) && not (is_some conflict)) r b w
            (join_chat_room d b.user_id r conflict w.db)
            (join_chat_room-Arrivals d b.user_id r conflict w.db)
            (idle_without_conflict b.user_id w.redis))
  ]

  fill-Calm :
      (fuel r : ℕ) (gs : List RoomBucket) (w : Lobby d c) → Calm d c w (fill d c fuel r gs w).0
  unfolding fill
  fill-Calm zero r gs w = refl-Calm w
  fill-Calm (suc fuel) r gs w =
      let next : Lobby d c = (fill_round d c r gs w).0 in
      elim (Bool-cases (fill_round d c r gs w).1) [
        | inl goes_on ↦
            rw (goes_on, fill)
              (then-Calm d c w next (fill d c fuel r gs next).0 (fill_round-Calm r gs w)
                (fill-Calm fuel r gs next))
        | inr stops ↦ rw (stops, fill) (fill_round-Calm r gs w)
      ]

  pub try_fill_room_from_queue-Calm :
      (r : ℕ) (w : Lobby d c) → Calm d c w (try_fill_room_from_queue d c r w)
  unfolding try_fill_room_from_queue
  try_fill_room_from_queue-Calm r w = elim (Option-cases (get_room d r w.db)) [
    | inl absent ↦ rw (absent, try_fill_room_from_queue) (refl-Calm w)
    | inr (room, there) ↦ elim (Bool-cases (is_open room.status)) [
      | inl opened ↦
          rw (there, try_fill_room_from_queue, opened)
            (fill-Calm (queued d c w.redis + 1) r (compatible_buckets room.gender_pref) w)
      | inr closed ↦ rw (there, try_fill_room_from_queue, closed) (refl-Calm w)
    ]
  ]

  fill_rooms-Calm : (rs : List ℕ) (w : Lobby d c) → Calm d c w (fill_rooms d c rs w)
  unfolding fill_rooms
  fill_rooms-Calm [] w = refl-Calm w
  fill_rooms-Calm (r ∷ rs) w =
      let next : Lobby d c = try_fill_room_from_queue d c r w in
      then-Calm d c w next (fill_rooms d c rs next) (try_fill_room_from_queue-Calm r w)
        (fill_rooms-Calm rs next)

  purge-Calm :
      (now : ℕ) (w : Lobby d c)
      → Calm d c w (record w { redis = purge_stale_room_join_queue c now w.redis })
  unfolding purge_stale_room_join_queue is_waiting waits_in is_waiting_room_join
  purge-Calm now w =
      let cutoff : ℕ = now - room_join_timeout_seconds in
      arrive-Calm d c (λ j. false) w
        (record w { redis = purge_stale_room_join_queue c now w.redis }) (λ j. refl)
        (λ j other. ground arith)
        (λ j other. ground (
          arith,
          c.room_join_queue.zscore-zremrangebyscore j cutoff w.redis.joining_male,
          c.room_join_queue.zscore-zremrangebyscore j cutoff w.redis.joining_female,
          c.room_join_queue.zscore-zremrangebyscore j cutoff w.redis.joining_any,
        ))
        (λ j new. ground (arith, new))

  pub sweep_room_join_queue-Calm :
      (now : ℕ) (w : Lobby d c) → Calm d c w (sweep_room_join_queue d c now w)
  unfolding sweep_room_join_queue
  sweep_room_join_queue-Calm now w =
      let purged : Lobby d c = record w { redis = purge_stale_room_join_queue c now w.redis } in
      then-Calm d c w purged (sweep_room_join_queue d c now w) (purge-Calm now w)
        (fill_rooms-Calm (list_open_room_ids_with_spare_capacity d w.db) purged)
