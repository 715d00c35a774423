-- ===== src/Chat/Requests/Kept.antt =====
-- The pairs and the requests under the handlers of the requests for a chat.
use bluechat.Base.{
  ℕ, ◌≡◌, ◌≢◌, refl, inl, inr, Bool, true, Option, none, some, List, [], ◌∷◌, ◌==◌, leb, is_some,
  arith, Option-cases, Bool-cases, eq_of_test, ◌<◌, ◌||◌, ◌-◌,
}
use bluechat.Db.Models.{Database, State, Reason}
use bluechat.Db.Coins.{deduct_coins}
use bluechat.Redis.Keys.{
  ChatRequest, Redis, Store, chat_coin_cost, chat_request_timeout_seconds,
  max_active_chat_requests_per_user,
}
use bluechat.Redis.Queue.{waits_in, is_waiting, leave_queue, dequeue}
use bluechat.Redis.Queue.Matching.{is_waiting-leave_queue}
use bluechat.Redis.Partners.{get_partner, set_partner, set_session_id}
use bluechat.Redis.Partners.Pairing.{Paired, set_partner-Paired}
use bluechat.Redis.Partners.Searching.{leave_queue-Paired}
use bluechat.Redis.Requests.{
  get_chat_request, create_chat_request, count_active_chat_requests, clear_chat_request,
  pop_chat_requests, pop_expired_chat_requests, ids_up_to,
}
use bluechat.Redis.Requests.Invariant.{
  RequestsInv, create_chat_request-RequestsInv, clear_chat_request-RequestsInv,
}
use bluechat.Chat.World.{World, Notice, with_redis}
use bluechat.Chat.Matching.{check_room_conflict}
use bluechat.Chat.Requests.{
  refusal, after_request_payment, handle_chat_request_button, a_side_is_busy, begin_requested_chat,
  accept_request, handle_chat_request_accept, refund_request, handle_chat_request_reject,
  refund_requests, expire_chat_requests_job,
}

module _ (d : Database) (c : Redis) where
  -- Pairs, queue and requests are in order.
  pub record InOrder (s : Store c) : Type 0 where
    pub pairs : Paired c s
    pub requests : RequestsInv c s

  clear_chat_request-InOrder :
      (id : ℕ) (s : Store c) → InOrder s → InOrder (clear_chat_request c id s)
  unfolding clear_chat_request is_waiting waits_in
  clear_chat_request-InOrder id s v = record {
    pairs = v.pairs;
    requests = clear_chat_request-RequestsInv c id s v.requests;
  }

  pop_chat_requests-InOrder :
      (ids : List ℕ) (s : Store c) → InOrder s → InOrder (pop_chat_requests c ids s).0
  unfolding pop_chat_requests
  pop_chat_requests-InOrder [] s v = v
  pop_chat_requests-InOrder (id ∷ ids) s v =
      pop_chat_requests-InOrder ids (clear_chat_request c id s) (clear_chat_request-InOrder id s v)

  leave_queue-InOrder : (k : ℕ) (s : Store c) → InOrder s → InOrder (leave_queue c k s)
  unfolding leave_queue count_active_chat_requests
  leave_queue-InOrder k s v = record {
    pairs = leave_queue-Paired c k s v.pairs;
    requests = record {
      pending = v.requests.pending;
      listed = v.requests.listed;
      few = v.requests.few;
      apart = v.requests.apart;
    };
  }

  -- Two users who wait for nothing and have no partner begin a chat.
  begin_requested_chat-InOrder :
      (id k requester now : ℕ) (w : World d c)
      → k ≢ requester
      → get_partner c k w.redis ≡ none
      → get_partner c requester w.redis ≡ none
      → InOrder w.redis
      → InOrder (begin_requested_chat d c id k requester now w).redis
  unfolding begin_requested_chat dequeue leave_queue clear_chat_request set_partner set_session_id
      is_waiting waits_in count_active_chat_requests
  begin_requested_chat-InOrder id k requester now w ne alone alone' v =
      let cleared : Store c = clear_chat_request c id w.redis in
      let first : Store c = leave_queue c k cleared in
      let out : Store c = leave_queue c requester first in
      let kept =
        leave_queue-InOrder requester first
          (leave_queue-InOrder k cleared (clear_chat_request-InOrder id w.redis v)) in
      let paired =
        set_partner-Paired c k requester now out ne alone alone'
          (ground (
            arith,
            is_waiting-leave_queue c k requester first,
            is_waiting-leave_queue c k k cleared,
          ))
          (ground (arith, is_waiting-leave_queue c requester requester first)) kept.pairs in
      record {
        pairs = record { symmetric = paired.symmetric; apart = paired.apart; free = paired.free };
        requests = record {
          pending = kept.requests.pending;
          listed = kept.requests.listed;
          few = kept.requests.few;
          apart = kept.requests.apart;
        };
      }

  accept_request-InOrder :
      (id k requester now : ℕ) (w : World d c)
      → k ≢ requester
      → InOrder w.redis
      → InOrder (accept_request d c id k requester now w).redis
  unfolding accept_request a_side_is_busy
  accept_request-InOrder id k requester now w ne v =
      let cleared = clear_chat_request-InOrder id w.redis v in
      elim (Bool-cases (a_side_is_busy d c k requester w)) [
        | inl busy ↦ rw busy cleared
        | inr calm ↦
            elim (Bool-cases (
              is_some (check_room_conflict d c k w)
              || is_some (check_room_conflict d c requester w))) [
                | inl in_room ↦ rw (calm, in_room) cleared
                | inr free ↦
                    rw (calm, free)
                      (begin_requested_chat-InOrder id k requester now w ne (ground (arith, calm))
                        (ground (arith, calm)) v)
              ]
      ]

  -- The button stands in a message to the target alone, so it is the target who accepts.
  abbrev pub is_target : ℕ → Option ChatRequest → Bool
  is_target k none = true
  is_target k (some q) = k == q.target_id

  pub handle_chat_request_accept-InOrder :
      (id k now : ℕ) (w : World d c)
      → is_target k (get_chat_request c id w.redis) ≡ true
      → InOrder w.redis
      → InOrder (handle_chat_request_accept d c id k now w).redis
  unfolding handle_chat_request_accept
  handle_chat_request_accept-InOrder id k now w own v =
      elim (Option-cases (get_chat_request c id w.redis)) [
        | inl gone ↦ rw (gone, handle_chat_request_accept) v
        | inr (q, there) ↦
            rw (there, handle_chat_request_accept)
              (accept_request-InOrder id k q.requester_id now w
                (ground (arith, own, there, v.requests.apart id, eq_of_test k q.target_id)) v)
      ]

  after_request_payment-InOrder :
      (id k target now : ℕ) (w : World d c) (answer : State d × Option ℕ)
      → get_chat_request c id w.redis ≡ none
      → k ≢ target
      → count_active_chat_requests c k w.redis < max_active_chat_requests_per_user
      → InOrder w.redis
      → InOrder (after_request_payment d c id k target now w answer).redis
  unfolding after_request_payment create_chat_request is_waiting waits_in
  after_request_payment-InOrder id k target now w (paid, none) fresh ne room v = v
  after_request_payment-InOrder id k target now w (paid, some left) fresh ne room v = record {
    pairs = v.pairs;
    requests = create_chat_request-RequestsInv c id k target now w.redis fresh ne room v.requests;
  }

  refusal-none :
      (k target : ℕ) (w : World d c)
      → refusal d c k target w ≡ none
      → (k ≢ target) × (count_active_chat_requests c k w.redis < max_active_chat_requests_per_user)
  unfolding refusal
  refusal-none k target w h = elim (Bool-cases (target == k)) [
    | inl own ↦ ground (arith, h, own)
    | inr other ↦
        elim (Bool-cases
          (leb max_active_chat_requests_per_user (count_active_chat_requests c k w.redis))) [
            | inl full ↦ ground (arith, h, other, full)
            | inr room ↦ (ground (arith, other), ground (arith, room))
          ]
  ]

  pub handle_chat_request_button-InOrder :
      (id k target now : ℕ) (w : World d c)
      → get_chat_request c id w.redis ≡ none
      → InOrder w.redis
      → InOrder (handle_chat_request_button d c id k target now w).redis
  unfolding handle_chat_request_button
  handle_chat_request_button-InOrder id k target now w fresh v =
      elim (Option-cases (refusal d c k target w)) [
        | inr (notice, refused) ↦ rw (refused, handle_chat_request_button) v
        | inl granted ↦
            let (ne, room) = refusal-none k target w granted in
            rw (granted, handle_chat_request_button)
              (after_request_payment-InOrder id k target now w
                (deduct_coins d k chat_coin_cost Reason.chat_request_cost w.db) fresh ne room v)
      ]

  pub handle_chat_request_reject-InOrder :
      (id k : ℕ) (w : World d c)
      → InOrder w.redis
      → InOrder (handle_chat_request_reject d c id k w).redis
  unfolding handle_chat_request_reject refund_request
  handle_chat_request_reject-InOrder id k w v =
      let cleared = clear_chat_request-InOrder id w.redis v in
      elim (Option-cases (get_chat_request c id w.redis)) [
        | inl gone ↦ rw (gone, handle_chat_request_reject) cleared
        | inr (q, there) ↦ rw (there, handle_chat_request_reject) cleared
      ]

  pub refund_requests_frame :
      (qs : List ChatRequest) (w : World d c) → (refund_requests d c qs w).redis ≡ w.redis
  unfolding refund_requests refund_request
  refund_requests_frame [] w = refl
  refund_requests_frame (q ∷ qs) w = refund_requests_frame qs (
      refund_request d c q.requester_id Reason.chat_request_timeout_refund Notice.request_expired w)

  pub expire_chat_requests_job-InOrder :
      (now : ℕ) (w : World d c)
      → InOrder w.redis
      → InOrder (expire_chat_requests_job d c now w).redis
  unfolding expire_chat_requests_job pop_expired_chat_requests
  expire_chat_requests_job-InOrder now w v =
      let (after, expired) = pop_expired_chat_requests c now w.redis in
      rw (refund_requests_frame expired (with_redis d c after w)) (
        pop_chat_requests-InOrder
          (ids_up_to (now - chat_request_timeout_seconds)
            (c.chat_request_pending.zrange w.redis.chat_request_pending))
          w.redis v)
