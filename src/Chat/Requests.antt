-- ===== src/Chat/Requests.antt =====
-- Requests for a chat: handlers/public_profile.py, and the job of main.py that lets them expire.
-- The id of a new request and the time are arguments. Looking at a request changes nothing that is
-- kept here, and is left out.
pub mod Kept
pub mod Histories
pub mod Coins
use bluechat.Base.{
  ℕ, Bool, true, false, not, ◌||◌, Option, none, some, List, [], ◌∷◌, ◌==◌, leb, if◌then◌else◌,
  is_some,
}
use bluechat.Db.Models.{Database, State, User, ChatSession, Reason}
use bluechat.Db.Users.{get_user, increment_total_chats, is_sender_blocked}
use bluechat.Db.Coins.{deduct_coins, refund_coins}
use bluechat.Redis.Keys.{
  ChatRequest, Redis, Store, chat_coin_cost, max_active_chat_requests_per_user,
}
use bluechat.Redis.Queue.{is_waiting, dequeue}
use bluechat.Redis.Partners.{get_partner, set_partner, set_session_id}
use bluechat.Redis.Requests.{
  get_chat_request, create_chat_request, count_active_chat_requests, clear_chat_request,
  pop_expired_chat_requests,
}
use bluechat.Chat.World.{World, Notice, send, with_redis, with_db}
use bluechat.Chat.Matching.{check_room_conflict}

module _ (d : Database) (c : Redis) where
  -- Why the requester may not ask the target for a chat, in the order of the code's checks.
  unfoldable pub refusal : ℕ → ℕ → World d c → Option Notice
  refusal k target w =
      if target == k
      then some Notice.own_profile
      else if leb max_active_chat_requests_per_user (count_active_chat_requests c k w.redis)
      then some Notice.request_limit
      else if is_some (get_partner c k w.redis)
      then some Notice.already_in_chat
      else elim (check_room_conflict d c k w) [
        | some conflict ↦ some conflict
        | none ↦
            if is_some (get_partner c target w.redis)
            then some Notice.partner_busy
            else if is_sender_blocked d target k w.db
            then some Notice.sender_blocked
            else elim (get_user d target w.db) [
              | none ↦ some Notice.no_such_user
              | some u ↦ if u.is_silent then some Notice.silent else none
            ]
      ]

  unfoldable pub after_request_payment : ℕ → ℕ → ℕ → ℕ → World d c → State d × Option ℕ → World d c
  after_request_payment id k target now w (paid, none) =
      send d c k Notice.coins_missing (with_db d c paid w)
  after_request_payment id k target now w (paid, some left) = record w {
    db = paid;
    redis = create_chat_request c id k target now w.redis;
    sent = (target, Notice.request_received) ∷ (k, Notice.request_sent) ∷ w.sent;
  }

  unfoldable pub handle_chat_request_button : ℕ → ℕ → ℕ → ℕ → World d c → World d c
  unfolding refusal after_request_payment
  handle_chat_request_button id k target now w = elim (refusal k target w) [
    | some notice ↦ send d c k notice w
    | none ↦
        after_request_payment id k target now w
          (deduct_coins d k chat_coin_cost Reason.chat_request_cost w.db)
  ]

  -- One of the two chats already, or waits for a chat.
  unfoldable pub a_side_is_busy : ℕ → ℕ → World d c → Bool
  a_side_is_busy k requester w =
      is_some (get_partner c k w.redis)
      || is_some (get_partner c requester w.redis)
      || is_waiting c k w.redis
      || is_waiting c requester w.redis

  unfoldable pub begin_requested_chat : ℕ → ℕ → ℕ → ℕ → World d c → World d c
  begin_requested_chat id k requester now w =
      let cleared : Store c = clear_chat_request c id w.redis in
      let out : Store c = (dequeue c requester (dequeue c k cleared).0).0 in
      let session : ℕ = d.sessions.next_id w.db.sessions in
      let row : ChatSession = record { user_a_id = k; user_b_id = requester; ended_by = none } in
      let stored : State d = record (w.db) {
        sessions = d.sessions.put session row w.db.sessions;
      } in
      record w {
        redis = set_session_id c k requester session (set_partner c k requester now out);
        db = increment_total_chats d (k ∷ requester ∷ []) stored;
        sent = (requester, Notice.request_accepted) ∷ (k, Notice.request_accepted) ∷ w.sent;
      }

  unfoldable pub accept_request : ℕ → ℕ → ℕ → ℕ → World d c → World d c
  unfolding a_side_is_busy begin_requested_chat
  accept_request id k requester now w =
      let cleared : World d c = with_redis d c (clear_chat_request c id w.redis) w in
      if a_side_is_busy k requester w
      then send d c k Notice.sides_busy cleared
      else if is_some (check_room_conflict d c k w) || is_some (check_room_conflict d c requester w)
      then send d c k Notice.room_busy cleared
      else begin_requested_chat id k requester now w

  unfoldable pub handle_chat_request_accept : ℕ → ℕ → ℕ → World d c → World d c
  unfolding accept_request
  handle_chat_request_accept id k now w = elim (get_chat_request c id w.redis) [
    | none ↦ send d c k Notice.request_void w
    | some q ↦ accept_request id k q.requester_id now w
  ]

  unfoldable pub refund_request : ℕ → Reason → Notice → World d c → World d c
  refund_request requester reason notice w =
      send d c requester notice
        (with_db d c (refund_coins d requester chat_coin_cost reason w.db).0 w)

  unfoldable pub handle_chat_request_reject : ℕ → ℕ → World d c → World d c
  unfolding refund_request
  handle_chat_request_reject id k w =
      let cleared : World d c =
        send d c k Notice.request_rejected (with_redis d c (clear_chat_request c id w.redis) w) in
      elim (get_chat_request c id w.redis) [
        | none ↦ cleared
        | some q ↦
            refund_request q.requester_id Reason.chat_request_reject_refund Notice.request_undone
              cleared
      ]

  unfoldable pub refund_requests : List ChatRequest → World d c → World d c
  unfolding refund_request
  refund_requests [] w = w
  refund_requests (q ∷ qs) w =
      refund_requests qs
        (refund_request q.requester_id Reason.chat_request_timeout_refund Notice.request_expired w)

  unfoldable pub expire_chat_requests_job : ℕ → World d c → World d c
  unfolding refund_requests
  expire_chat_requests_job now w =
      let (after, expired) = pop_expired_chat_requests c now w.redis in
      refund_requests expired (with_redis d c after w)
