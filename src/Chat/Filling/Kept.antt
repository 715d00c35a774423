-- ===== src/Chat/Filling/Kept.antt =====
-- What every round of the filling keeps.
use bluechat.Base.{
  ℕ, zero, suc, ◌≡◌, refl, inl, inr, Option, some, List, arith, ap, Option-cases, Bool-cases,
}
use bluechat.Db.Models.{Database, State, ChatRoom, Reason}
use bluechat.Db.Users.{get_user}
use bluechat.Db.Coins.{book, refund_coins}
use bluechat.Db.Rooms.{RoomError, Outcome, ok, err, get_room, join_chat_room}
use bluechat.Db.Rooms.Creation.{active-book}
use bluechat.Db.Rooms.Effects.{active}
use bluechat.Db.Rooms.Invariant.{RoomsInv}
use bluechat.Db.Rooms.Operations.{join_chat_room-RoomsInv}
use bluechat.Db.Rooms.Saves.{refund_coins-RoomsInv}
use bluechat.Db.Rooms.Outcomes.{Joined, join_chat_room-Joined, get_room-join_chat_room}
use bluechat.Redis.Keys.{RoomBucket, Redis, Store}
use bluechat.Redis.RoomQueue.{Candidate, dequeue_room_join, peek_oldest_room_join_candidate}
use bluechat.Chat.World.{drop_all}
use bluechat.Chat.RoomSearch.{Lobby, is_conflict, room_join_cost, set_active_room, refund_join}
use bluechat.Chat.Filling.{
  ends_filling, redis_conflict_check, after_claim, fill_round, fill, get_active_room,
}

module _ (d : Database) (c : Redis) where
  -- Rooms in order, a mirror that names no room but the user's own, and one room as it is.
  pub record Kept (r : ℕ) (room : Option ChatRoom) (w : Lobby d c) : Type 0 where
    pub rooms : RoomsInv d w.db
    pub mirror : (k q : ℕ) → get_active_room d c k w.redis ≡ some q → active d k w.db ≡ some q
    pub same : get_room d r w.db ≡ room

  pub active-refund_coins :
      (j k amount : ℕ) (reason : Reason) (s : State d)
      → active d j (refund_coins d k amount reason s).0 ≡ active d j s
  unfolding refund_coins
  active-refund_coins j k amount reason s = elim (Option-cases (get_user d k s)) [
    | inl e ↦ rw (e, refund_coins) refl
    | inr (u, e) ↦ rw (e, refund_coins) (active-book d j k u _ _ reason s e)
  ]

  get_room-refund_coins :
      (r k amount : ℕ) (reason : Reason) (s : State d)
      → get_room d r (refund_coins d k amount reason s).0 ≡ get_room d r s
  unfolding refund_coins book
  get_room-refund_coins r k amount reason s = elim (Option-cases (get_user d k s)) [
    | inl e ↦ rw (e, refund_coins) refl
    | inr (u, e) ↦ rw (e, refund_coins) refl
  ]

  -- Leaving the queue is no matter of the mirror.
  pub get_active_room-dequeue_room_join :
      (j k : ℕ) (g : RoomBucket) (s : Store c)
      → get_active_room d c j (dequeue_room_join c k g s).0 ≡ get_active_room d c j s
  unfolding dequeue_room_join
  get_active_room-dequeue_room_join j k RoomBucket.male s = refl
  get_active_room-dequeue_room_join j k RoomBucket.female s = refl
  get_active_room-dequeue_room_join j k RoomBucket.any s = refl

  -- A change that moves nobody.
  pub still-Kept :
      (q : ℕ) (room : Option ChatRoom) (w w' : Lobby d c)
      → RoomsInv d w'.db
      → ((k : ℕ) → active d k w'.db ≡ active d k w.db)
      → ((k : ℕ) → get_active_room d c k w'.redis ≡ get_active_room d c k w.redis)
      → get_room d q w'.db ≡ get_room d q w.db
      → Kept q room w
      → Kept q room w'
  still-Kept q room w w' rooms calm still same v = record {
    rooms = rooms;
    mirror = λ k p h. ground (arith, h, calm k, still k, v.mirror k p);
    same = ground (arith, same, v.same);
  }

  pub refund_join-Kept :
      (q : ℕ) (room : Option ChatRoom) (k : ℕ) (reason : Reason) (w : Lobby d c)
      → Kept q room w
      → Kept q room (refund_join d c k reason w)
  unfolding refund_join
  refund_join-Kept q room k reason w v =
      still-Kept q room w (refund_join d c k reason w)
        (refund_coins-RoomsInv d k room_join_cost reason w.db v.rooms)
        (λ j. active-refund_coins j k room_join_cost reason w.db) (λ j. refl)
        (get_room-refund_coins q k room_join_cost reason w.db) v

  after_claim-Kept :
      (r q : ℕ) (room : Option ChatRoom) (b : Candidate) (w : Lobby d c)
      (answer : State d × Outcome ℕ) (conflict : Option RoomError)
      → Joined d b.user_id r conflict w.db answer
      → RoomsInv d answer.0
      → get_room d q answer.0 ≡ get_room d q w.db
      → Kept q room w
      → Kept q room (after_claim d c r b w answer).0
  unfolding after_claim set_active_room refund_join
  after_claim-Kept r q room b w (s, ok a) conflict (same, able, grown, moved) rooms still v =
      record {
        rooms = rooms;
        mirror = λ k p h. ground (
          arith,
          h,
          moved k,
          c.active_room.get-set k b.user_id r
              (dequeue_room_join c b.user_id b.bucket w.redis).0.active_room,
          get_active_room-dequeue_room_join k b.user_id b.bucket w.redis,
          v.mirror k p,
        );
        same = ground (arith, still, v.same);
      }
  after_claim-Kept r q room b w (s, err e) conflict (unmoved, unable) rooms still v =
      let out : Lobby d c = record w {
        db = s;
        redis = (dequeue_room_join c b.user_id b.bucket w.redis).0;
        timeouts = drop_all b.user_id w.timeouts;
      } in
      let moves_nobody = λ (j : ℕ). ap (active d j) unmoved in
      let kept : Kept q room out =
        still-Kept q room w out rooms moves_nobody
          (λ j. get_active_room-dequeue_room_join j b.user_id b.bucket w.redis) still v in
      elim (Bool-cases (ends_filling e)) [
        | inl ends ↦
            rw ends
              (still-Kept q room w (record w { db = s }) rooms moves_nobody (λ j. refl) still v)
        | inr goes ↦ elim (Bool-cases (is_conflict e)) [
          | inl held ↦
              rw (goes, held)
                (refund_join-Kept q room b.user_id Reason.room_join_conflict_refund out kept)
          | inr other ↦ rw (goes, other) kept
        ]
      ]

  pub fill_round-Kept :
      (r q : ℕ) (room : Option ChatRoom) (gs : List RoomBucket) (w : Lobby d c)
      → Kept q room w
      → Kept q room (fill_round d c r gs w).0
  unfolding fill_round
  fill_round-Kept r q room gs w v =
      elim (Option-cases (peek_oldest_room_join_candidate c gs w.redis)) [
        | inl nobody ↦ rw (nobody, fill_round) v
        | inr (b, found) ↦
            let conflict : Option RoomError = redis_conflict_check d c b.user_id w.redis in
            rw (found, fill_round)
              (after_claim-Kept r q room b w (join_chat_room d b.user_id r conflict w.db) conflict
                (join_chat_room-Joined d b.user_id r conflict w.db v.rooms)
                (join_chat_room-RoomsInv d b.user_id r conflict w.db v.rooms)
                (get_room-join_chat_room d q b.user_id r conflict w.db) v)
      ]

  pub fill-Kept :
      (fuel r q : ℕ) (room : Option ChatRoom) (gs : List RoomBucket) (w : Lobby d c)
      → Kept q room w
      → Kept q room (fill d c fuel r gs w).0
  unfolding fill
  fill-Kept zero r q room gs w v = v
  fill-Kept (suc fuel) r q room gs w v =
      let kept = fill_round-Kept r q room gs w v in
      elim (Bool-cases (fill_round d c r gs w).1) [
        | inl goes_on ↦
            rw (goes_on, fill) (fill-Kept fuel r q room gs (fill_round d c r gs w).0 kept)
        | inr stops ↦ rw (stops, fill) kept
      ]
