-- ===== src/Chat/Exclusive/Requests.antt =====
-- The requests for a 1:1 chat, and the searches that follow the end of one.
use bluechat.Base.{
  ℕ, ◌≡◌, refl, ◌∙◌, inl, inr, false, not, ◌&&◌, ◌||◌, Option, none, some, List, [], ◌∷◌, ◌==◌,
  is_some, arith, Option-cases, Bool-cases, eq_of_test, ◌-◌,
}
use bluechat.Db.Models.{Database, State, Reason}
use bluechat.Db.Coins.{deduct_coins}
use bluechat.Db.Rooms.Effects.{active}
use bluechat.Redis.Keys.{ChatRequest, Redis, Store, chat_coin_cost, chat_request_timeout_seconds}
use bluechat.Redis.Queue.{waits_in, is_waiting, leave_queue, dequeue}
use bluechat.Redis.Queue.Matching.{is_waiting-leave_queue}
use bluechat.Redis.Partners.{set_partner, set_session_id}
use bluechat.Redis.Partners.Pairing.{get_partner-set_partner, is_waiting-set_partner}
use bluechat.Redis.RoomQueue.{is_waiting_room_join}
use bluechat.Redis.Requests.{
  create_chat_request, get_chat_request, clear_chat_request, pop_chat_requests,
  pop_expired_chat_requests, ids_up_to,
}
use bluechat.Chat.World.{World, Notice, send, with_redis}
use bluechat.Chat.Filling.Kept.{active-refund_coins}
use bluechat.Chat.Matching.{check_room_conflict}
use bluechat.Chat.RoomJobs.Mirrored.{active-deduct_coins}
use bluechat.Chat.Requests.{
  refusal, after_request_payment, handle_chat_request_button, begin_requested_chat, a_side_is_busy,
  accept_request, handle_chat_request_accept, refund_request, refund_requests,
  handle_chat_request_reject, expire_chat_requests_job,
}
use bluechat.Chat.Exclusive.{
  engaged, held, Exclusive, active-increment_total_chats, check_room_conflict-held,
}

module _ (d : Database) (c : Redis) where
  -- As before, as far as the rooms and the 1:1 chat are concerned.
  record Still (w w' : World d c) : Type 0 where
    rooms : (j : ℕ) → active d j w'.db ≡ active d j w.db
    seeking : (j : ℕ) → is_waiting_room_join c j w'.redis ≡ is_waiting_room_join c j w.redis
    same : (j : ℕ) → engaged d c j w'.redis ≡ engaged d c j w.redis

  Still-Exclusive :
      (w w' : World d c) → Still w w' → Exclusive d c w.db w.redis → Exclusive d c w'.db w'.redis
  Still-Exclusive w w' still v j = ground (arith, still.rooms j, still.seeking j, still.same j, v j)

  then-Still : (w w1 w2 : World d c) → Still w w1 → Still w1 w2 → Still w w2
  then-Still w w1 w2 a b = record {
    rooms = λ j. b.rooms j ∙ a.rooms j;
    seeking = λ j. b.seeking j ∙ a.seeking j;
    same = λ j. b.same j ∙ a.same j;
  }

  pop_chat_requests-Still :
      (ids : List ℕ) (w : World d c)
      → Still w (with_redis d c (pop_chat_requests c ids w.redis).0 w)
  unfolding pop_chat_requests clear_chat_request is_waiting waits_in is_waiting_room_join
  pop_chat_requests-Still [] w = record { rooms = λ j. refl; seeking = λ j. refl; same = λ j. refl }
  pop_chat_requests-Still (id ∷ ids) w =
      let rest = pop_chat_requests-Still ids (with_redis d c (clear_chat_request c id w.redis) w) in
      record { rooms = rest.rooms; seeking = rest.seeking; same = rest.same }

  refund_requests-Still :
      (qs : List ChatRequest) (w : World d c) → Still w (refund_requests d c qs w)
  unfolding refund_requests refund_request
  refund_requests-Still [] w = record { rooms = λ j. refl; seeking = λ j. refl; same = λ j. refl }
  refund_requests-Still (q ∷ qs) w =
      let next : World d c =
        refund_request d c q.requester_id Reason.chat_request_timeout_refund Notice.request_expired
          w in
      then-Still w next (refund_requests d c qs next)
        (record {
          rooms = λ j.
              active-refund_coins d c j q.requester_id chat_coin_cost
                Reason.chat_request_timeout_refund w.db;
          seeking = λ j. refl;
          same = λ j. refl;
        })
        (refund_requests-Still qs next)

  pub expire_chat_requests_job-Exclusive :
      (now : ℕ) (w : World d c)
      → Exclusive d c w.db w.redis
      → let w' = expire_chat_requests_job d c now w in Exclusive d c w'.db w'.redis
  unfolding expire_chat_requests_job pop_expired_chat_requests
  expire_chat_requests_job-Exclusive now w =
      let (after, expired) = pop_expired_chat_requests c now w.redis in
      Still-Exclusive w (expire_chat_requests_job d c now w) (
        then-Still w (with_redis d c after w) (expire_chat_requests_job d c now w)
          (pop_chat_requests-Still
            (ids_up_to (now - chat_request_timeout_seconds)
              (c.chat_request_pending.zrange w.redis.chat_request_pending))
            w)
          (refund_requests-Still expired (with_redis d c after w)))

  after_request_payment-Still :
      (id k target now : ℕ) (w : World d c) (answer : State d × Option ℕ)
      → ((j : ℕ) → active d j answer.0 ≡ active d j w.db)
      → Still w (after_request_payment d c id k target now w answer)
  unfolding after_request_payment create_chat_request is_waiting waits_in is_waiting_room_join
  after_request_payment-Still id k target now w (paid, none) same = record {
    rooms = same;
    seeking = λ j. refl;
    same = λ j. refl;
  }
  after_request_payment-Still id k target now w (paid, some left) same = record {
    rooms = same;
    seeking = λ j. refl;
    same = λ j. refl;
  }

  pub handle_chat_request_button-Exclusive :
      (id k target now : ℕ) (w : World d c)
      → Exclusive d c w.db w.redis
      → let w' = handle_chat_request_button d c id k target now w in Exclusive d c w'.db w'.redis
  unfolding handle_chat_request_button
  handle_chat_request_button-Exclusive id k target now w v =
      elim (Option-cases (refusal d c k target w)) [
        | inr (notice, refused) ↦ rw (refused, handle_chat_request_button) v
        | inl granted ↦
            rw (granted, handle_chat_request_button)
              (Still-Exclusive w _
                (after_request_payment-Still id k target now w
                  (deduct_coins d k chat_coin_cost Reason.chat_request_cost w.db)
                  (λ j. active-deduct_coins d c j k chat_coin_cost Reason.chat_request_cost w.db))
                v)
      ]

  cleared-Still :
      (id k : ℕ) (n : Notice) (w : World d c)
      → Still w (send d c k n (with_redis d c (clear_chat_request c id w.redis) w))
  unfolding clear_chat_request is_waiting waits_in is_waiting_room_join
  cleared-Still id k n w = record { rooms = λ j. refl; seeking = λ j. refl; same = λ j. refl }

  pub handle_chat_request_reject-Exclusive :
      (id k : ℕ) (w : World d c)
      → Exclusive d c w.db w.redis
      → let w' = handle_chat_request_reject d c id k w in Exclusive d c w'.db w'.redis
  unfolding handle_chat_request_reject refund_request
  handle_chat_request_reject-Exclusive id k w v =
      let cleared : World d c =
        send d c k Notice.request_rejected (with_redis d c (clear_chat_request c id w.redis) w) in
      let after : Exclusive d c cleared.db cleared.redis =
        Still-Exclusive w cleared (cleared-Still id k Notice.request_rejected w) v in
      elim (Option-cases (get_chat_request c id w.redis)) [
        | inl gone ↦ rw (gone, handle_chat_request_reject) after
        | inr (q, there) ↦
            rw (there, handle_chat_request_reject)
              (λ j. ground (
                arith,
                after j,
                active-refund_coins d c j q.requester_id chat_coin_cost
                    Reason.chat_request_reject_refund w.db,
              ))
      ]

  engaged-begin_requested_chat :
      (j id k requester now : ℕ) (w : World d c)
      → (not (j == k)
          && not (j == requester)
          && not (engaged d c j w.redis)
          && engaged d c j (begin_requested_chat d c id k requester now w).redis)
        ≡ false
  unfolding begin_requested_chat dequeue leave_queue clear_chat_request set_session_id is_waiting
      waits_in
  engaged-begin_requested_chat j id k requester now w =
      let first : Store c = leave_queue c k (clear_chat_request c id w.redis) in
      let out : Store c = leave_queue c requester first in
      ground (
        arith,
        get_partner-set_partner c j k requester now out,
        is_waiting-set_partner c j k requester now out,
        is_waiting-leave_queue c j requester first,
        is_waiting-leave_queue c j k (clear_chat_request c id w.redis),
      )

  active-begin_requested_chat :
      (j id k requester now : ℕ) (w : World d c)
      → active d j (begin_requested_chat d c id k requester now w).db ≡ active d j w.db
  unfolding begin_requested_chat
  active-begin_requested_chat j id k requester now w =
      active-increment_total_chats d c j (k ∷ requester ∷ []) _

  is_waiting_room_join-begin_requested_chat :
      (j id k requester now : ℕ) (w : World d c)
      → is_waiting_room_join c j (begin_requested_chat d c id k requester now w).redis
        ≡ is_waiting_room_join c j w.redis
  unfolding begin_requested_chat dequeue leave_queue clear_chat_request set_partner set_session_id
      is_waiting_room_join
  is_waiting_room_join-begin_requested_chat j id k requester now w = refl

  -- Both sides are held by no room, and all that a new chat changes is that they are engaged.
  begin_requested_chat-Exclusive :
      (id k requester now : ℕ) (w : World d c)
      → held d c k w.db w.redis ≡ false
      → held d c requester w.db w.redis ≡ false
      → Exclusive d c w.db w.redis
      → let w' = begin_requested_chat d c id k requester now w in Exclusive d c w'.db w'.redis
  begin_requested_chat-Exclusive id k requester now w free free' v j = ground (
    arith,
    v j,
    free,
    free',
    eq_of_test j k,
    eq_of_test j requester,
    engaged-begin_requested_chat j id k requester now w,
    active-begin_requested_chat j id k requester now w,
    is_waiting_room_join-begin_requested_chat j id k requester now w,
  )

  accept_request-Exclusive :
      (id k requester now : ℕ) (w : World d c)
      → Exclusive d c w.db w.redis
      → let w' = accept_request d c id k requester now w in Exclusive d c w'.db w'.redis
  unfolding accept_request
  accept_request-Exclusive id k requester now w v =
      elim (Bool-cases (a_side_is_busy d c k requester w)) [
        | inl busy ↦ rw busy (Still-Exclusive w _ (cleared-Still id k Notice.sides_busy w) v)
        | inr calm ↦
            elim (Bool-cases (
              is_some (check_room_conflict d c k w)
              || is_some (check_room_conflict d c requester w))) [
                | inl in_room ↦
                    rw (calm, in_room)
                      (Still-Exclusive w _ (cleared-Still id k Notice.room_busy w) v)
                | inr free ↦
                    rw (calm, free)
                      (begin_requested_chat-Exclusive id k requester now w
                        (ground (arith, free, check_room_conflict-held d c k w))
                        (ground (arith, free, check_room_conflict-held d c requester w)) v)
              ]
      ]

  pub handle_chat_request_accept-Exclusive :
      (id k now : ℕ) (w : World d c)
      → Exclusive d c w.db w.redis
      → let w' = handle_chat_request_accept d c id k now w in Exclusive d c w'.db w'.redis
  unfolding handle_chat_request_accept
  handle_chat_request_accept-Exclusive id k now w v =
      elim (Option-cases (get_chat_request c id w.redis)) [
        | inl gone ↦ rw (gone, handle_chat_request_accept) v
        | inr (q, there) ↦
            rw (there, handle_chat_request_accept)
              (accept_request-Exclusive id k q.requester_id now w v)
      ]
