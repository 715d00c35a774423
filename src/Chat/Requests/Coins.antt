-- ===== src/Chat/Requests/Coins.antt =====
-- The coins in the requests for a chat.
use bluechat.Base.{
  ℕ, ◌+◌, ◌*◌, ◌-◌, ◌≡◌, refl, ap, inl, inr, Bool, true, false, ◌||◌, Option, none, some, List, [],
  ◌∷◌, ◌==◌, if◌then◌else◌, is_some, arith, Option-cases, Bool-cases, eq_of_test,
}
use bluechat.Db.Models.{Database, State, Reason}
use bluechat.Db.Users.{get_user}
use bluechat.Db.Coins.{deduct_coins, refund_coins, book}
use bluechat.Db.Coins.Balance.{balance, Withdrawal, deduct_coins-Withdrawal}
use bluechat.Redis.Keys.{ChatRequest, Redis, Store, chat_coin_cost, chat_request_timeout_seconds}
use bluechat.Redis.Queue.{leave_queue, dequeue}
use bluechat.Redis.Partners.{set_partner, set_session_id}
use bluechat.Redis.Requests.{
  get_chat_request, count_active_chat_requests, clear_chat_request, pop_chat_requests,
  pop_expired_chat_requests, with_found, ids_up_to,
}
use bluechat.Redis.Requests.Invariant.{
  RequestsInv, is_from, count-clear_chat_request, clear_chat_request-RequestsInv,
  count-create_chat_request,
}
use bluechat.Chat.World.{World, Notice, with_redis}
use bluechat.Chat.Matching.{check_room_conflict}
use bluechat.Chat.Refunds.{coins_of, coins-increment_total_chats}
use bluechat.Chat.Requests.Kept.{refund_requests_frame}
use bluechat.Chat.Requests.Histories.{RequestEvent, respond, can_happen}
use bluechat.Chat.Requests.{
  refusal, after_request_payment, handle_chat_request_button, a_side_is_busy, begin_requested_chat,
  accept_request, handle_chat_request_accept, refund_request, handle_chat_request_reject,
  refund_requests, expire_chat_requests_job,
}

-- How many of these requests are from a user.
abbrev pub sent_by : ℕ → List ChatRequest → ℕ
sent_by j [] = 0
sent_by j (q ∷ qs) = (if j == q.requester_id then 1 else 0) + sent_by j qs

sent_by-with_found :
    (j : ℕ) (o : Option ChatRequest) (rest : List ChatRequest)
    → sent_by j (with_found o rest) ≡ (if is_from j o then 1 else 0) + sent_by j rest
sent_by-with_found j none rest = ground arith
sent_by-with_found j (some q) rest = refl

module _ (d : Database) (c : Redis) where
  -- A user's coins, with those that his open requests have cost.
  abbrev pub holdings : ℕ → World d c → ℕ
  holdings j w = coins_of d c j w + chat_coin_cost * count_active_chat_requests c j w.redis

  count-pop_chat_requests :
      (j : ℕ) (ids : List ℕ) (s : Store c)
      → RequestsInv c s
      → let (s', popped) = pop_chat_requests c ids s in
        count_active_chat_requests c j s' + sent_by j popped ≡ count_active_chat_requests c j s
  unfolding pop_chat_requests
  count-pop_chat_requests j [] s v = ground arith
  count-pop_chat_requests j (id ∷ ids) s v = ground (
    arith,
    count-pop_chat_requests j ids (clear_chat_request c id s)
        (clear_chat_request-RequestsInv c id s v),
    count-clear_chat_request c j id s v,
    sent_by-with_found j (get_chat_request c id s)
        (pop_chat_requests c ids (clear_chat_request c id s)).1,
  )

  known-refund_coins :
      (j k amount : ℕ) (r : Reason) (s : State d)
      → is_some (get_user d j s) ≡ true
      → is_some (get_user d j (refund_coins d k amount r s).0) ≡ true
  unfolding refund_coins book
  known-refund_coins j k amount r s h = elim (Option-cases (get_user d k s)) [
    | inl e ↦ rw (e, refund_coins) h
    | inr (u, e) ↦
        rw (e, refund_coins)
          (ground (arith, h, d.users.get-put j k (record u { coins = u.coins + amount }) s.users))
  ]

  -- A refund goes to one user.
  balance-refund_coins :
      (j k amount : ℕ) (r : Reason) (s : State d)
      → is_some (get_user d j s) ≡ true
      → balance (get_user d j (refund_coins d k amount r s).0)
        ≡ balance (get_user d j s) + (if j == k then amount else 0)
  unfolding refund_coins book
  balance-refund_coins j k amount r s h = elim (Option-cases (get_user d k s)) [
    | inl e ↦ rw (e, refund_coins) (ground (arith, h, e, eq_of_test j k))
    | inr (u, e) ↦
        rw (e, refund_coins)
          (ground (
            arith,
            h,
            e,
            eq_of_test j k,
            d.users.get-put j k (record u { coins = u.coins + amount }) s.users,
          ))
  ]

  coins-refund_requests :
      (j : ℕ) (qs : List ChatRequest) (w : World d c)
      → is_some (get_user d j w.db) ≡ true
      → coins_of d c j (refund_requests d c qs w) ≡ coins_of d c j w + chat_coin_cost * sent_by j qs
  unfolding refund_requests refund_request
  coins-refund_requests j [] w h = ground arith
  coins-refund_requests j (q ∷ qs) w h =
      let reason : Reason = Reason.chat_request_timeout_refund in
      let next : World d c = refund_request d c q.requester_id reason Notice.request_expired w in
      ground (
        arith,
        coins-refund_requests j qs next
            (known-refund_coins j q.requester_id chat_coin_cost reason w.db h),
        balance-refund_coins j q.requester_id chat_coin_cost reason w.db h,
      )

  expire_chat_requests_job-holdings :
      (j now : ℕ) (w : World d c)
      → is_some (get_user d j w.db) ≡ true
      → RequestsInv c w.redis
      → holdings j (expire_chat_requests_job d c now w) ≡ holdings j w
  unfolding expire_chat_requests_job pop_expired_chat_requests
  expire_chat_requests_job-holdings j now w h v =
      let (after, expired) = pop_expired_chat_requests c now w.redis in
      ground (
        arith,
        coins-refund_requests j expired (with_redis d c after w) h,
        ap (count_active_chat_requests c j)
            (refund_requests_frame d c expired (with_redis d c after w)),
        count-pop_chat_requests j
            (ids_up_to (now - chat_request_timeout_seconds)
              (c.chat_request_pending.zrange w.redis.chat_request_pending))
            w.redis v,
      )

  handle_chat_request_reject-holdings :
      (j id k : ℕ) (w : World d c)
      → is_some (get_user d j w.db) ≡ true
      → RequestsInv c w.redis
      → holdings j (handle_chat_request_reject d c id k w) ≡ holdings j w
  unfolding handle_chat_request_reject refund_request
  handle_chat_request_reject-holdings j id k w h v =
      let one = count-clear_chat_request c j id w.redis v in
      elim (Option-cases (get_chat_request c id w.redis)) [
        | inl gone ↦ rw (gone, handle_chat_request_reject) (ground (arith, one, gone))
        | inr (q, there) ↦
            rw (there, handle_chat_request_reject)
              (ground (
                arith,
                one,
                there,
                balance-refund_coins j q.requester_id chat_coin_cost
                    Reason.chat_request_reject_refund w.db h,
              ))
      ]

  -- The payment of a request, by what became of it.
  after_request_payment-holdings :
      (j id k target now : ℕ) (w : World d c) (answer : State d × Option ℕ)
      → Withdrawal d k chat_coin_cost w.db answer
      → get_chat_request c id w.redis ≡ none
      → RequestsInv c w.redis
      → holdings j (after_request_payment d c id k target now w answer) ≡ holdings j w
  unfolding after_request_payment
  after_request_payment-holdings j id k target now w (s, none) (same, why) fresh v =
      ground (arith, ap (λ s. balance (get_user d j s)) same)
  after_request_payment-holdings j id k target now w (s, some left) (exact, only) fresh v = ground (
    arith,
    exact,
    only j,
    eq_of_test j k,
    count-create_chat_request c j id k target now w.redis fresh v,
  )

  handle_chat_request_button-holdings :
      (j id k target now : ℕ) (w : World d c)
      → get_chat_request c id w.redis ≡ none
      → RequestsInv c w.redis
      → holdings j (handle_chat_request_button d c id k target now w) ≡ holdings j w
  unfolding handle_chat_request_button
  handle_chat_request_button-holdings j id k target now w fresh v =
      elim (Option-cases (refusal d c k target w)) [
        | inr (notice, refused) ↦ rw (refused, handle_chat_request_button) refl
        | inl granted ↦
            rw (granted, handle_chat_request_button)
              (after_request_payment-holdings j id k target now w
                (deduct_coins d k chat_coin_cost Reason.chat_request_cost w.db)
                (deduct_coins-Withdrawal d k chat_coin_cost Reason.chat_request_cost w.db) fresh v)
      ]

  count-leave_queue :
      (j k : ℕ) (s : Store c)
      → count_active_chat_requests c j (leave_queue c k s) ≡ count_active_chat_requests c j s
  unfolding leave_queue count_active_chat_requests
  count-leave_queue j k s = refl

  begin_requested_chat-holdings :
      (j id k requester now : ℕ) (w : World d c)
      → RequestsInv c w.redis
      → holdings j (begin_requested_chat d c id k requester now w)
          + (if is_from j (get_chat_request c id w.redis) then chat_coin_cost else 0)
        ≡ holdings j w
  unfolding begin_requested_chat dequeue leave_queue set_partner set_session_id
      count_active_chat_requests
  begin_requested_chat-holdings j id k requester now w v = ground (
    arith,
    count-clear_chat_request c j id w.redis v,
    coins-increment_total_chats d c j (k ∷ requester ∷ []) (record (w.db) {
      sessions =
          d.sessions.put (d.sessions.next_id w.db.sessions)
            (record { user_a_id = k; user_b_id = requester; ended_by = none }) w.db.sessions;
    }),
  )

  accept_request-holdings :
      (j id k requester now : ℕ) (w : World d c)
      → RequestsInv c w.redis
      → holdings j (accept_request d c id k requester now w)
          + (if is_from j (get_chat_request c id w.redis) then chat_coin_cost else 0)
        ≡ holdings j w
  unfolding accept_request
  accept_request-holdings j id k requester now w v =
      let one = count-clear_chat_request c j id w.redis v in
      elim (Bool-cases (a_side_is_busy d c k requester w)) [
        | inl busy ↦ rw busy (ground (arith, one))
        | inr calm ↦
            elim (Bool-cases (
              is_some (check_room_conflict d c k w)
              || is_some (check_room_conflict d c requester w))) [
                | inl in_room ↦ rw (calm, in_room) (ground (arith, one))
                | inr free ↦
                    rw (calm, free) (begin_requested_chat-holdings j id k requester now w v)
              ]
      ]

  handle_chat_request_accept-holdings :
      (j id k now : ℕ) (w : World d c)
      → RequestsInv c w.redis
      → holdings j (handle_chat_request_accept d c id k now w)
          + (if is_from j (get_chat_request c id w.redis) then chat_coin_cost else 0)
        ≡ holdings j w
  unfolding handle_chat_request_accept
  handle_chat_request_accept-holdings j id k now w v =
      elim (Option-cases (get_chat_request c id w.redis)) [
        | inl gone ↦ rw (gone, handle_chat_request_accept) (ground (arith, gone))
        | inr (q, there) ↦
            rw (there, handle_chat_request_accept)
              (ground (arith, there, accept_request-holdings j id k q.requester_id now w v))
      ]

  -- What an event costs a user for good: an accepted request is paid for.
  abbrev pub spent : ℕ → RequestEvent → World d c → ℕ
  spent j (RequestEvent.agrees id k now) w =
      if is_from j (get_chat_request c id w.redis) then chat_coin_cost else 0
  spent j _ w = 0

  abbrev pub is_chat : RequestEvent → Bool
  is_chat (RequestEvent.chats e) = true
  is_chat _ = false

  -- With the requests in order, a known user's coins together with the price of his open requests
  -- are the same after a new request, a rejection and the expiry of old requests, whosever they
  -- are. An answer "accept" takes the price from the requester for good, also when a side is busy or
  -- in a room and no chat begins.
  pub respond-holdings :
      (j : ℕ) (e : RequestEvent) (w : World d c)
      → is_some (get_user d j w.db) ≡ true
      → is_chat e ≡ false
      → can_happen d c e w ≡ true
      → RequestsInv c w.redis
      → holdings j (respond d c e w) + spent j e w ≡ holdings j w
  unfolding respond
  respond-holdings j (RequestEvent.chats e) w h other can v = ground (arith, other)
  respond-holdings j (RequestEvent.asks id k target now) w h other can v =
      ground
        (arith, handle_chat_request_button-holdings j id k target now w (ground (arith, can)) v)
  respond-holdings j (RequestEvent.agrees id k now) w h other can v =
      handle_chat_request_accept-holdings j id k now w v
  respond-holdings j (RequestEvent.rejects id k) w h other can v =
      ground (arith, handle_chat_request_reject-holdings j id k w h v)
  respond-holdings j (RequestEvent.expires now) w h other can v =
      ground (arith, expire_chat_requests_job-holdings j now w h v)
