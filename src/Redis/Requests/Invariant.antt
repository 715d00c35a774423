-- ===== src/Redis/Requests/Invariant.antt =====
-- The keys of the requests for a chat agree, and nobody has more than five.
use bluechat.Base.{
  ℕ, ◌+◌, ◌≤◌, ◌<◌, ◌≡◌, ◌≢◌, inl, inr, Bool, true, false, not, ◌&&◌, Option, none, some, List, [],
  ◌∷◌, ◌==◌, if◌then◌else◌, is_some, arith, Option-cases, eq_of_test, ==-refl,
}
use bluechat.Redis.Keys.{ChatRequest, Redis, Store, max_active_chat_requests_per_user}
use bluechat.Redis.Requests.{
  get_chat_request, create_chat_request, count_active_chat_requests, clear_chat_request,
  pop_chat_requests,
}

-- Whether a request is there and comes from this user.
abbrev pub is_from : ℕ → Option ChatRequest → Bool
is_from r none = false
is_from r (some q) = r == q.requester_id

-- A request is no request to oneself.
abbrev pub to_other : Option ChatRequest → Bool
to_other none = true
to_other (some q) = not (q.requester_id == q.target_id)

module _ (c : Redis) where
  abbrev pub is_pending : ℕ → Store c → Bool
  is_pending id s = is_some (c.chat_request_pending.zscore id s.chat_request_pending)

  abbrev pub is_listed : ℕ → ℕ → Store c → Bool
  is_listed r id s = c.chat_request_by_requester.has r id s.chat_request_by_requester

  pub record RequestsInv (s : Store c) : Type 0 where
    pub pending : (id : ℕ) → is_pending id s ≡ is_some (get_chat_request c id s)
    pub listed : (r id : ℕ) → is_listed r id s ≡ is_from r (get_chat_request c id s)
    pub few : (r : ℕ) → count_active_chat_requests c r s ≤ max_active_chat_requests_per_user
    pub apart : (id : ℕ) → to_other (get_chat_request c id s) ≡ true

  pub create_chat_request-RequestsInv :
      (id requester target now : ℕ) (s : Store c)
      → get_chat_request c id s ≡ none
      → requester ≢ target
      → count_active_chat_requests c requester s < max_active_chat_requests_per_user
      → RequestsInv s
      → RequestsInv (create_chat_request c id requester target now s)
  unfolding create_chat_request count_active_chat_requests
  create_chat_request-RequestsInv id requester target now s fresh ne room v = record {
    pending = λ j. ground (
      arith,
      c.chat_request_pending.zscore-zadd j id now s.chat_request_pending,
      c.chat_request.get-set j id (record { requester_id = requester; target_id = target })
          s.chat_request,
      v.pending j,
    );
    listed = λ r j. ground (
      arith,
      c.chat_request_by_requester.has-insert r j requester id s.chat_request_by_requester,
      c.chat_request.get-set j id (record { requester_id = requester; target_id = target })
          s.chat_request,
      v.listed r j,
      eq_of_test j id,
      fresh,
    );
    few = λ r. ground (
      arith,
      room,
      eq_of_test r requester,
      c.chat_request_by_requester.count-insert r requester id s.chat_request_by_requester,
      v.listed requester id,
      fresh,
      v.few r,
    );
    apart = λ j. ground (
      arith,
      ne,
      c.chat_request.get-set j id (record { requester_id = requester; target_id = target })
          s.chat_request,
      v.apart j,
    );
  }

  pub get_chat_request-clear_chat_request :
      (j id : ℕ) (s : Store c)
      → get_chat_request c j (clear_chat_request c id s)
        ≡ (if j == id then none else get_chat_request c j s)
  unfolding clear_chat_request
  get_chat_request-clear_chat_request j id s = c.chat_request.get-del j id s.chat_request

  is_listed-clear_chat_request :
      (r j id : ℕ) (s : Store c)
      → RequestsInv s
      → is_listed r j (clear_chat_request c id s) ≡ (not (j == id) && is_listed r j s)
  unfolding clear_chat_request
  is_listed-clear_chat_request r j id s v = elim (Option-cases (get_chat_request c id s)) [
    | inl gone ↦ rw (gone, clear_chat_request) (ground (arith, gone, v.listed r j, eq_of_test j id))
    | inr (q, there) ↦
        rw (there, clear_chat_request)
          (ground (
            arith,
            there,
            v.listed r j,
            eq_of_test j id,
            c.chat_request_by_requester.has-remove r j q.requester_id id
                s.chat_request_by_requester,
          ))
  ]

  pub clear_chat_request-RequestsInv :
      (id : ℕ) (s : Store c) → RequestsInv s → RequestsInv (clear_chat_request c id s)
  unfolding clear_chat_request count_active_chat_requests
  clear_chat_request-RequestsInv id s v = record {
    pending = λ j. ground (
      arith,
      c.chat_request_pending.zscore-zrem j id s.chat_request_pending,
      c.chat_request.get-del j id s.chat_request,
      v.pending j,
    );
    listed = λ r j. ground (
      arith,
      is_listed-clear_chat_request r j id s v,
      c.chat_request.get-del j id s.chat_request,
      v.listed r j,
    );
    few = λ r. elim (Option-cases (get_chat_request c id s)) [
      | inl gone ↦ rw gone (v.few r)
      | inr (q, there) ↦ rw there (
          ground (
            arith,
            v.few r,
            c.chat_request_by_requester.count-remove r q.requester_id id
                s.chat_request_by_requester,
          ))
    ];
    apart = λ j. ground (arith, c.chat_request.get-del j id s.chat_request, v.apart j);
  }

  pub pop_chat_requests-RequestsInv :
      (ids : List ℕ) (s : Store c) → RequestsInv s → RequestsInv (pop_chat_requests c ids s).0
  unfolding pop_chat_requests
  pop_chat_requests-RequestsInv [] s v = v
  pop_chat_requests-RequestsInv (id ∷ ids) s v =
      pop_chat_requests-RequestsInv ids (clear_chat_request c id s)
        (clear_chat_request-RequestsInv id s v)

  -- A request that goes leaves its requester one less.
  pub count-clear_chat_request :
      (r id : ℕ) (s : Store c)
      → RequestsInv s
      → count_active_chat_requests c r (clear_chat_request c id s)
          + (if is_from r (get_chat_request c id s) then 1 else 0)
        ≡ count_active_chat_requests c r s
  unfolding clear_chat_request count_active_chat_requests
  count-clear_chat_request r id s v = elim (Option-cases (get_chat_request c id s)) [
    | inl gone ↦ rw gone (ground arith)
    | inr (q, there) ↦ rw there (
        ground (
          arith,
          there,
          v.listed q.requester_id id,
          ==-refl q.requester_id,
          c.chat_request_by_requester.count-remove r q.requester_id id s.chat_request_by_requester,
        ))
  ]

  pub count-create_chat_request :
      (r id requester target now : ℕ) (s : Store c)
      → get_chat_request c id s ≡ none
      → RequestsInv s
      → count_active_chat_requests c r (create_chat_request c id requester target now s)
        ≡ count_active_chat_requests c r s + (if r == requester then 1 else 0)
  unfolding create_chat_request count_active_chat_requests
  count-create_chat_request r id requester target now s fresh v = ground (
    arith,
    c.chat_request_by_requester.count-insert r requester id s.chat_request_by_requester,
    v.listed requester id,
    fresh,
  )
