-- ===== src/Redis/Requests.antt =====
-- The requests for a chat (redis_client.py). Ids are drawn at random, so a new one is an argument.
pub mod Invariant
pub mod Expiry
use bluechat.Base.{ℕ, ◌-◌, Option, none, some, List, [], ◌∷◌, leb, if◌then◌else◌}
use bluechat.Redis.Keys.{ChatRequest, Redis, Store, chat_request_timeout_seconds}

-- The members up to a score, as ZRANGEBYSCORE -inf gives them.
abbrev pub ids_up_to : ℕ → List (ℕ × ℕ) → List ℕ
ids_up_to cutoff [] = []
ids_up_to cutoff ((id, t) ∷ m) =
    let rest = ids_up_to cutoff m in if leb t cutoff then id ∷ rest else rest

-- One more result, if there is one.
abbrev pub with_found : Option ChatRequest → List ChatRequest → List ChatRequest
with_found none rest = rest
with_found (some q) rest = q ∷ rest

module _ (c : Redis) where
  abbrev pub get_chat_request : ℕ → Store c → Option ChatRequest
  get_chat_request id s = c.chat_request.get id s.chat_request

  unfoldable pub create_chat_request : ℕ → ℕ → ℕ → ℕ → Store c → Store c
  create_chat_request id requester target now s = record s {
    chat_request =
        c.chat_request.set id (record { requester_id = requester; target_id = target })
          s.chat_request;
    chat_request_pending = c.chat_request_pending.zadd id now s.chat_request_pending;
    chat_request_by_requester =
        c.chat_request_by_requester.insert requester id s.chat_request_by_requester;
  }

  unfoldable pub count_active_chat_requests : ℕ → Store c → ℕ
  count_active_chat_requests requester s =
      c.chat_request_by_requester.count requester s.chat_request_by_requester

  -- The request goes, and leaves its requester's set if it was still there.
  unfoldable pub clear_chat_request : ℕ → Store c → Store c
  clear_chat_request id s = record s {
    chat_request = c.chat_request.del id s.chat_request;
    chat_request_pending = c.chat_request_pending.zrem id s.chat_request_pending;
    chat_request_by_requester = elim (get_chat_request id s) [
      | none ↦ s.chat_request_by_requester
      | some q ↦ c.chat_request_by_requester.remove q.requester_id id s.chat_request_by_requester
    ];
  }

  -- The loop of `pop_expired_chat_requests`.
  unfoldable pub pop_chat_requests : List ℕ → Store c → Store c × List ChatRequest
  unfolding clear_chat_request
  pop_chat_requests [] s = (s, [])
  pop_chat_requests (id ∷ ids) s =
      let (after, rest) = pop_chat_requests ids (clear_chat_request id s) in
      (after, with_found (get_chat_request id s) rest)

  unfoldable pub pop_expired_chat_requests : ℕ → Store c → Store c × List ChatRequest
  unfolding pop_chat_requests
  pop_expired_chat_requests now s =
      let cutoff : ℕ = now - chat_request_timeout_seconds in
      pop_chat_requests (ids_up_to cutoff (c.chat_request_pending.zrange s.chat_request_pending)) s
