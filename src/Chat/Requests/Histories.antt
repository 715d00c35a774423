-- ===== src/Chat/Requests/Histories.antt =====
-- Any history of the 1:1 chat and the requests for one, each handler run to its end before the
-- next.
use bluechat.Base.{
  ℕ, ◌≡◌, ap, inl, inr, Bool, true, List, [], ◌∷◌, is_some, not, if◌then◌else◌, Bool-cases, arith,
}
use bluechat.Db.Models.{Database}
use bluechat.Redis.Keys.{Redis, Store}
use bluechat.Redis.Requests.{get_chat_request, count_active_chat_requests}
use bluechat.Redis.Requests.Invariant.{RequestsInv}
use bluechat.Redis.Untouched.{Elsewhere, elsewhere}
use bluechat.Chat.World.{World}
use bluechat.Chat.History.{Event, handle, handle-Sound}
use bluechat.Chat.Untouched.Endings.{handle-Untouched}
use bluechat.Chat.Requests.{
  handle_chat_request_button, handle_chat_request_accept, handle_chat_request_reject,
  expire_chat_requests_job,
}
use bluechat.Chat.Requests.Kept.{
  InOrder, is_target, handle_chat_request_button-InOrder, handle_chat_request_accept-InOrder,
  handle_chat_request_reject-InOrder, expire_chat_requests_job-InOrder,
}

pub data RequestEvent : Type 0 where
  chats : Event → RequestEvent
  asks : ℕ → ℕ → ℕ → ℕ → RequestEvent
  agrees : ℕ → ℕ → ℕ → RequestEvent
  rejects : ℕ → ℕ → RequestEvent
  expires : ℕ → RequestEvent

module _ (d : Database) (c : Redis) where
  -- An id is drawn that is not in use, and only the target is shown the buttons of a request.
  abbrev pub can_happen : RequestEvent → World d c → Bool
  can_happen (RequestEvent.asks id k target now) w = not (is_some (get_chat_request c id w.redis))
  can_happen (RequestEvent.agrees id k now) w = is_target d c k (get_chat_request c id w.redis)
  can_happen (RequestEvent.rejects id k) w = is_target d c k (get_chat_request c id w.redis)
  can_happen _ w = true

  unfoldable pub respond : RequestEvent → World d c → World d c
  respond (RequestEvent.chats e) w = handle d c e w
  respond (RequestEvent.asks id k target now) w = handle_chat_request_button d c id k target now w
  respond (RequestEvent.agrees id k now) w = handle_chat_request_accept d c id k now w
  respond (RequestEvent.rejects id k) w = handle_chat_request_reject d c id k w
  respond (RequestEvent.expires now) w = expire_chat_requests_job d c now w

  -- What cannot happen is passed over.
  unfoldable pub respond_all : List RequestEvent → World d c → World d c
  unfolding respond
  respond_all [] w = w
  respond_all (e ∷ es) w = respond_all es (if can_happen e w then respond e w else w)

  RequestsInv-elsewhere :
      (s s' : Store c) → elsewhere c s' ≡ elsewhere c s → RequestsInv c s → RequestsInv c s'
  unfolding count_active_chat_requests
  RequestsInv-elsewhere s s' same v =
      let requests = ap (λ (e : Elsewhere c). e.chat_request) same in
      let pending = ap (λ (e : Elsewhere c). e.chat_request_pending) same in
      let listed = ap (λ (e : Elsewhere c). e.chat_request_by_requester) same in
      record {
        pending = λ id. rw (pending, requests) (v.pending id);
        listed = λ r id. rw (listed, requests) (v.listed r id);
        few = λ r. rw listed (v.few r);
        apart = λ id. rw requests (v.apart id);
      }

  respond-InOrder :
      (e : RequestEvent) (w : World d c)
      → can_happen e w ≡ true
      → InOrder d c w.redis
      → InOrder d c (respond e w).redis
  unfolding respond
  respond-InOrder (RequestEvent.chats e) w h v = record {
    pairs = handle-Sound d c e w v.pairs;
    requests =
        RequestsInv-elsewhere w.redis (handle d c e w).redis (handle-Untouched d c e w) v.requests;
  }
  respond-InOrder (RequestEvent.asks id k target now) w h v =
      handle_chat_request_button-InOrder d c id k target now w (ground (arith, h)) v
  respond-InOrder (RequestEvent.agrees id k now) w h v =
      handle_chat_request_accept-InOrder d c id k now w h v
  respond-InOrder (RequestEvent.rejects id k) w h v =
      handle_chat_request_reject-InOrder d c id k w v
  respond-InOrder (RequestEvent.expires now) w h v = expire_chat_requests_job-InOrder d c now w v

  -- Every history of the handlers of the 1:1 chat and of the requests for one, in which new ids are
  -- not in use and only its target answers a request, keeps the pairs and the queue in order, and of
  -- the requests that the pending ones are those that are stored, that each stands in the set of
  -- its requester alone and is to somebody else, and that nobody has more than five.
  pub respond_all-InOrder :
      (es : List RequestEvent) (w : World d c)
      → InOrder d c w.redis
      → InOrder d c (respond_all es w).redis
  unfolding respond_all
  respond_all-InOrder [] w v = v
  respond_all-InOrder (e ∷ es) w v = elim (Bool-cases (can_happen e w)) [
    | inl can ↦
        rw (can, respond_all) (respond_all-InOrder es (respond e w) (respond-InOrder e w can v))
    | inr cannot ↦ rw (cannot, respond_all) (respond_all-InOrder es w v)
  ]
