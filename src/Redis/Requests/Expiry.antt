-- ===== src/Redis/Requests/Expiry.antt =====
-- How long a request for a chat stays open.
use bluechat.Base.{
  ℕ, ◌+◌, ◌-◌, ◌≤◌, ◌≡◌, refl, ◌∙◌, Bool, false, Option, none, some, List, [], ◌∷◌, ltb, leb,
  if◌then◌else◌, elem, lookup, Distinct, arith, eq_of_test,
}
use bluechat.Redis.Keys.{Redis, Store, chat_request_timeout_seconds}
use bluechat.Redis.Requests.{
  ids_up_to, get_chat_request, clear_chat_request, pop_chat_requests, pop_expired_chat_requests,
}
use bluechat.Redis.Requests.Invariant.{get_chat_request-clear_chat_request}

-- Whether a score is there and is no later than the cutoff.
abbrev pub is_by : ℕ → Option ℕ → Bool
is_by cutoff none = false
is_by cutoff (some t) = leb t cutoff

elem-ids_up_to :
    (id cutoff : ℕ) (m : List (ℕ × ℕ))
    → Distinct m
    → elem id (ids_up_to cutoff m) ≡ is_by cutoff (lookup id m)
elem-ids_up_to id cutoff [] h = refl
elem-ids_up_to id cutoff ((j, t) ∷ m) (fresh, h) =
    ground (arith, fresh, eq_of_test id j, elem-ids_up_to id cutoff m h)

module _ (c : Redis) where
  get_chat_request-pop_chat_requests :
      (j : ℕ) (ids : List ℕ) (s : Store c)
      → get_chat_request c j (pop_chat_requests c ids s).0
        ≡ (if elem j ids then none else get_chat_request c j s)
  unfolding pop_chat_requests
  get_chat_request-pop_chat_requests j [] s = refl
  get_chat_request-pop_chat_requests j (id ∷ ids) s = ground (
    arith,
    get_chat_request-pop_chat_requests j ids (clear_chat_request c id s),
    get_chat_request-clear_chat_request c j id s,
  )

  -- A stored request that has been pending since `t` is still there after the expiry at `now`, with
  -- the clock at 300 or more, exactly if fewer than 300 seconds have passed; and then unchanged.
  pub get_chat_request-pop_expired_chat_requests :
      (id t now : ℕ) (s : Store c)
      → c.chat_request_pending.zscore id s.chat_request_pending ≡ some t
      → chat_request_timeout_seconds ≤ now
      → get_chat_request c id (pop_expired_chat_requests c now s).0
        ≡ (if ltb now (t + chat_request_timeout_seconds) then get_chat_request c id s else none)
  unfolding pop_expired_chat_requests
  get_chat_request-pop_expired_chat_requests id t now s since late =
      let cutoff : ℕ = now - chat_request_timeout_seconds in
      let range : List (ℕ × ℕ) = c.chat_request_pending.zrange s.chat_request_pending in
      get_chat_request-pop_chat_requests id (ids_up_to cutoff range) s
      ∙ ground (
        arith,
        late,
        since,
        elem-ids_up_to id cutoff range
            (c.chat_request_pending.Distinct-zrange s.chat_request_pending),
        c.chat_request_pending.lookup-zrange id s.chat_request_pending,
      )
