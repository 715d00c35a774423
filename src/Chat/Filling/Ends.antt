-- ===== src/Chat/Filling/Ends.antt =====
-- The loop that fills a room comes to its end, and what it has done by then.
use bluechat.Base.{
  ℕ, zero, suc, ◌+◌, ◌≤◌, ◌<◌, ◌≡◌, refl, inl, inr, true, false, Option, none, some, List, length,
  length-drop_key, arith, Option-cases, Bool-cases,
}
use bluechat.Db.Models.{Database, State, User, ChatRoom}
use bluechat.Db.Users.{get_user}
use bluechat.Db.Rooms.{RoomError, Outcome, ok, err, get_room, is_open, join_chat_room}
use bluechat.Db.Rooms.Outcomes.{join_chat_room_refused, join_chat_room_unchanged}
use bluechat.Redis.Keys.{RoomBucket, Redis, Store}
use bluechat.Redis.RoomQueue.{
  Candidate, joining, dequeue_room_join, peek_oldest_room_join_candidate,
}
use bluechat.Redis.RoomQueue.Oldest.{peek_oldest_room_join_candidate-Stands}
use bluechat.Chat.RoomSearch.{Lobby, is_conflict, set_active_room, refund_join}
use bluechat.Chat.Filling.{
  ends_filling, redis_conflict_check, after_claim, fill_round, fill, queued,
}

module _ (d : Database) (c : Redis) where
  length-zrem :
      (k t : ℕ) (z : c.room_join_queue.Set)
      → c.room_join_queue.zscore k z ≡ some t
      → length (c.room_join_queue.zrange (c.room_join_queue.zrem k z)) + 1
        ≡ length (c.room_join_queue.zrange z)
  length-zrem k t z h = ground (
    arith,
    h,
    c.room_join_queue.zrange-zrem k z,
    c.room_join_queue.lookup-zrange k z,
    length-drop_key k (c.room_join_queue.zrange z) (c.room_join_queue.Distinct-zrange z),
  )

  -- Whoever stands in a bucket leaves one place less there.
  queued-dequeue_room_join :
      (k t : ℕ) (g : RoomBucket) (s : Store c)
      → c.room_join_queue.zscore k (joining c g s) ≡ some t
      → queued d c (dequeue_room_join c k g s).0 + 1 ≡ queued d c s
  unfolding dequeue_room_join
  queued-dequeue_room_join k t RoomBucket.male s h =
      ground (arith, length-zrem k t s.joining_male h)
  queued-dequeue_room_join k t RoomBucket.female s h =
      ground (arith, length-zrem k t s.joining_female h)
  queued-dequeue_room_join k t RoomBucket.any s h = ground (arith, length-zrem k t s.joining_any h)

  queued-after_claim :
      (r : ℕ) (b : Candidate) (w : Lobby d c) (answer : State d × Outcome ℕ)
      → c.room_join_queue.zscore b.user_id (joining c b.bucket w.redis) ≡ some b.score
      → let (w', goes_on) = after_claim d c r b w answer in
        goes_on ≡ true → queued d c w'.redis + 1 ≡ queued d c w.redis
  unfolding after_claim set_active_room refund_join
  queued-after_claim r b w (s, ok a) h on =
      queued-dequeue_room_join b.user_id b.score b.bucket w.redis h
  queued-after_claim r b w (s, err e) h on =
      let fewer = queued-dequeue_room_join b.user_id b.score b.bucket w.redis h in
      elim (Bool-cases (ends_filling e)) [
        | inl ends ↦ ground (arith, on, ends)
        | inr goes ↦ elim (Bool-cases (is_conflict e)) [
          | inl conflict ↦ rw (goes, conflict) fewer
          | inr other ↦ rw (goes, other) fewer
        ]
      ]

  queued-fill_round :
      (r : ℕ) (gs : List RoomBucket) (w : Lobby d c)
      → let (w', goes_on) = fill_round d c r gs w in
        goes_on ≡ true → queued d c w'.redis + 1 ≡ queued d c w.redis
  unfolding fill_round
  queued-fill_round r gs w on =
      let stands = (peek_oldest_room_join_candidate-Stands c gs w.redis).0 in
      elim (Option-cases (peek_oldest_room_join_candidate c gs w.redis)) [
        | inl nobody ↦ ground (arith, on, nobody)
        | inr (b, found) ↦
            rw (found, fill_round)
              (queued-after_claim r b w
                (join_chat_room d b.user_id r (redis_conflict_check d c b.user_id w.redis) w.db)
                (rw found at stands) (rw (found, fill_round) at on))
      ]

  -- A room that is there and open, once the filling stops.
  abbrev pub Full : ℕ → Option Candidate → State d → Type 0
  Full r none s = Unit {0}
  Full r (some b) s =
      (u : User)
      → (room : ChatRoom) → get_user d b.user_id s ≡ some u
      → get_room d r s ≡ some room
      → is_open room.status ≡ true
      → room.capacity ≤ d.members.count r s.members

  redis_conflict_check-mild :
      (k : ℕ) (s : Store c) (f : RoomError)
      → redis_conflict_check d c k s ≡ some f
      → ends_filling f ≡ false
  unfolding redis_conflict_check
  redis_conflict_check-mild k s f h = ground arith

  -- The claim that ends the loop was refused, and has changed nothing more.
  abbrev Refused : State d × Outcome ℕ → Type 0
  Refused (s, o) = (e : RoomError) × (o ≡ err e) × (ends_filling e ≡ true)

  after_claim-Refused :
      (r : ℕ) (b : Candidate) (w : Lobby d c) (answer : State d × Outcome ℕ)
      → let (w', goes_on) = after_claim d c r b w answer in
        goes_on ≡ false → (w'.redis ≡ w.redis) × (w'.db ≡ answer.0) × Refused answer
  unfolding after_claim
  after_claim-Refused r b w (s, ok a) stops = ground (arith, stops)
  after_claim-Refused r b w (s, err e) stops = elim (Bool-cases (ends_filling e)) [
    | inl ends ↦ rw ends (refl, refl, (e, refl, ends))
    | inr goes ↦ elim (Bool-cases (is_conflict e)) [
      | inl conflict ↦ ground (arith, stops, goes, conflict)
      | inr other ↦ ground (arith, stops, goes, other)
    ]
  ]

  claim-Full :
      (r : ℕ) (b : Candidate) (w : Lobby d c)
      → Refused (join_chat_room d b.user_id r (redis_conflict_check d c b.user_id w.redis) w.db)
      → Full r (some b) w.db
  claim-Full r b w (e, refused, ends) u room eu er opened =
      elim (join_chat_room_refused d b.user_id r (redis_conflict_check d c b.user_id w.redis) w.db e
        u room refused eu er opened) [
          | inl inside ↦ ground (arith, ends, inside)
          | inr (inl held) ↦
              ground (arith, ends, redis_conflict_check-mild b.user_id w.redis e held)
          | inr (inr full) ↦ full
        ]

  -- The loop has stopped: the next candidate finds no place.
  abbrev pub Stopped : ℕ → List RoomBucket → Lobby d c → Type 0
  Stopped r gs w = Full r (peek_oldest_room_join_candidate c gs w.redis) w.db

  fill_round-Stopped :
      (r : ℕ) (gs : List RoomBucket) (w : Lobby d c)
      → let (w', goes_on) = fill_round d c r gs w in goes_on ≡ false → Stopped r gs w'
  unfolding fill_round
  fill_round-Stopped r gs w stops =
      elim (Option-cases (peek_oldest_room_join_candidate c gs w.redis)) [
        | inl nobody ↦ rw (nobody, fill_round, nobody) tt
        | inr (b, found) ↦
            let (same, kept, refused) =
              after_claim-Refused r b w
                (join_chat_room d b.user_id r (redis_conflict_check d c b.user_id w.redis) w.db)
                (rw (found, fill_round) at stops) in
            let unchanged =
              join_chat_room_unchanged d b.user_id r (redis_conflict_check d c b.user_id w.redis)
                w.db refused.0 refused.1 in
            rw (found, fill_round, same, kept, unchanged, found) (claim-Full r b w refused)
      ]

  pub fill-Stopped :
      (fuel r : ℕ) (gs : List RoomBucket) (w : Lobby d c)
      → queued d c w.redis < fuel
      → let (w', ended) = fill d c fuel r gs w in (ended ≡ true) × Stopped r gs w'
  unfolding fill
  fill-Stopped zero r gs w h = elim h [ ]
  fill-Stopped (suc fuel) r gs w h = elim (Bool-cases (fill_round d c r gs w).1) [
    | inl goes_on ↦
        rw (goes_on, fill)
          (fill-Stopped fuel r gs (fill_round d c r gs w).0
            (ground (arith, h, queued-fill_round r gs w goes_on)))
    | inr stops ↦ rw (stops, fill) (refl, fill_round-Stopped r gs w stops)
  ]

  fill_any_fuel :
      (fuel more r : ℕ) (gs : List RoomBucket) (w : Lobby d c)
      → queued d c w.redis < fuel
      → queued d c w.redis < more
      → fill d c fuel r gs w ≡ fill d c more r gs w
  unfolding fill
  fill_any_fuel zero more r gs w h h' = elim h [ ]
  fill_any_fuel (suc fuel) zero r gs w h h' = elim h' [ ]
  fill_any_fuel (suc fuel) (suc more) r gs w h h' = elim (Bool-cases (fill_round d c r gs w).1) [
    | inl goes_on ↦
        let fewer = queued-fill_round r gs w goes_on in
        rw (goes_on, fill)
          (fill_any_fuel fuel more r gs (fill_round d c r gs w).0 (ground (arith, h, fewer))
            (ground (arith, h', fewer)))
    | inr stops ↦ rw (stops, fill) refl
  ]

  -- The loop that fills a room comes to its own end in as many rounds as users wait for a room,
  -- and one more: with that fuel or any larger it ends by itself, and always with the same result.
  pub fill_enough_fuel :
      (fuel r : ℕ) (gs : List RoomBucket) (w : Lobby d c)
      → queued d c w.redis < fuel
      → ((fill d c fuel r gs w).1 ≡ true)
        × (fill d c fuel r gs w ≡ fill d c (queued d c w.redis + 1) r gs w)
  fill_enough_fuel fuel r gs w h = (
    (fill-Stopped fuel r gs w h).0,
    fill_any_fuel fuel (queued d c w.redis + 1) r gs w h (omega arith),
  )
