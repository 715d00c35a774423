-- ===== src/Redis/RoomQueue/Oldest.antt =====
-- Whom a room takes from the queue next, and how long one waits for a room.
use bluechat.Base.{
  Option-cases, ℕ, ◌+◌, ◌-◌, ◌≤◌, ◌≡◌, ◌⊎◌, ◌||◌, refl, sym, ◌∙◌, ap, inl, inr, Bool, true, false,
  Option, none, some, List, [], ◌∷◌, ltb, leb, is_some, lookup, arith, Bool-cases, ==-refl, ◌==◌,
}
use bluechat.Redis.Stores.{above, AtLeast, Ascending}
use bluechat.Redis.Keys.{RoomBucket, Redis, Store, room_join_timeout_seconds}
use bluechat.Redis.RoomQueue.{
  Candidate, earlier, joining, enqueue_room_join, best_of, peek_oldest_room_join_candidate,
  purge_stale_room_join_queue,
}

-- The candidate is there and came at `t` or before.
abbrev pub came_by : ℕ → Option Candidate → Bool
came_by t none = false
came_by t (some b) = leb b.score t

-- Whoever stands first in a range has a candidate that came no later.
abbrev pub first_beaten : List (ℕ × ℕ) → Option Candidate → Bool
first_beaten [] found = true
first_beaten ((k, t) ∷ rest) found = came_by t found

abbrev same_bucket : RoomBucket → RoomBucket → Bool
same_bucket RoomBucket.male RoomBucket.male = true
same_bucket RoomBucket.female RoomBucket.female = true
same_bucket RoomBucket.any RoomBucket.any = true
same_bucket _ _ = false

-- The candidate's bucket is one of these.
abbrev pub is_from : List RoomBucket → Option Candidate → Bool
is_from gs none = true
is_from [] (some b) = false
is_from (g ∷ gs) (some b) = same_bucket g b.bucket || is_from gs (some b)

came_by-earlier :
    (t : ℕ) (g : RoomBucket) (m : List (ℕ × ℕ)) (best : Option Candidate)
    → came_by t best ≡ true
    → came_by t (earlier g m best) ≡ true
came_by-earlier t g [] best h = h
came_by-earlier t g ((k, u) ∷ rest) none h = cc
came_by-earlier t g ((k, u) ∷ rest) (some b) h = ground (arith, h)

first_beaten-earlier :
    (g : RoomBucket) (m : List (ℕ × ℕ)) (best : Option Candidate)
    → first_beaten m (earlier g m best) ≡ true
first_beaten-earlier g [] best = refl
first_beaten-earlier g ((k, t) ∷ rest) none = ground arith
first_beaten-earlier g ((k, t) ∷ rest) (some b) = ground arith

AtLeast-lookup : (u k t : ℕ) (m : List (ℕ × ℕ)) → AtLeast u m → lookup k m ≡ some t → u ≤ t
AtLeast-lookup u k t [] a e = cc
AtLeast-lookup u k t ((j, v) ∷ m) (le, a) e = elim (Bool-cases (k == j)) [
  | inl same ↦ ground (arith, le, e, same)
  | inr other ↦ AtLeast-lookup u k t m a (ground (arith, e, other))
]

-- The first of a range in order came no later than anybody in it.
first_beaten-all :
    (m : List (ℕ × ℕ)) (found : Option Candidate) (k t : ℕ)
    → Ascending m
    → first_beaten m found ≡ true
    → lookup k m ≡ some t
    → came_by t found ≡ true
first_beaten-all [] found k t h first e = cc
first_beaten-all ((j, u) ∷ m) found k t (a, h) first e =
    let u-le-t : u ≤ t = elim (Bool-cases (k == j)) [
      | inl same ↦ ground (arith, e, same)
      | inr other ↦ AtLeast-lookup u k t m a (ground (arith, e, other))
    ] in
    elim (Option-cases found) [
      | inl none_found ↦ ground (arith, none_found, first)
      | inr (b, some_found) ↦ ground (arith, some_found, first, u-le-t)
    ]

module _ (c : Redis) where
  abbrev pub range : RoomBucket → Store c → List (ℕ × ℕ)
  range g s = c.room_join_queue.zrange (joining c g s)

  -- The candidate stands in his bucket since the time that he is given with.
  abbrev pub Stands : Store c → Option Candidate → Type 0
  Stands s none = Unit {0}
  Stands s (some b) = c.room_join_queue.zscore b.user_id (joining c b.bucket s) ≡ some b.score

  -- No range of these buckets has a first that came before the candidate.
  abbrev pub AllBeaten : List RoomBucket → Store c → Option Candidate → Type 0
  AllBeaten [] s found = Unit {0}
  AllBeaten (g ∷ gs) s found = (first_beaten (range g s) found ≡ true) × AllBeaten gs s found

  came_by-best_of :
      (t : ℕ) (gs : List RoomBucket) (best : Option Candidate) (s : Store c)
      → came_by t best ≡ true
      → came_by t (best_of c gs best s) ≡ true
  unfolding best_of
  came_by-best_of t [] best s h = h
  came_by-best_of t (g ∷ gs) best s h =
      came_by-best_of t gs (earlier g (range g s) best) s (came_by-earlier t g (range g s) best h)

  first_beaten-best_of :
      (m : List (ℕ × ℕ)) (gs : List RoomBucket) (best : Option Candidate) (s : Store c)
      → first_beaten m best ≡ true
      → first_beaten m (best_of c gs best s) ≡ true
  first_beaten-best_of [] gs best s h = refl
  first_beaten-best_of ((k, t) ∷ rest) gs best s h = came_by-best_of t gs best s h

  best_of-AllBeaten :
      (gs : List RoomBucket) (best : Option Candidate) (s : Store c)
      → AllBeaten gs s (best_of c gs best s)
  unfolding best_of
  best_of-AllBeaten [] best s = tt
  best_of-AllBeaten (g ∷ gs) best s = (
    first_beaten-best_of (range g s) gs (earlier g (range g s) best) s
        (first_beaten-earlier g (range g s) best),
    best_of-AllBeaten gs (earlier g (range g s) best) s,
  )

  first_stands :
      (g : RoomBucket) (k t : ℕ) (rest : List (ℕ × ℕ)) (s : Store c)
      → (k, t) ∷ rest ≡ range g s
      → c.room_join_queue.zscore k (joining c g s) ≡ some t
  first_stands g k t rest s e =
      sym (c.room_join_queue.lookup-zrange k (joining c g s))
      ∙ ap (lookup k) (sym e)
      ∙ ground (arith, ==-refl k)

  earlier-Stands :
      (g : RoomBucket) (m : List (ℕ × ℕ)) (best : Option Candidate) (s : Store c)
      → m ≡ range g s
      → Stands s best
      → Stands s (earlier g m best)
  earlier-Stands g [] best s e h = h
  earlier-Stands g ((k, t) ∷ rest) none s e h = first_stands g k t rest s e
  earlier-Stands g ((k, t) ∷ rest) (some b) s e h = elim (Bool-cases (ltb t b.score)) [
    | inl sooner ↦ rw sooner (first_stands g k t rest s e)
    | inr later ↦ rw later h
  ]

  best_of-Stands :
      (gs : List RoomBucket) (best : Option Candidate) (s : Store c)
      → Stands s best
      → Stands s (best_of c gs best s)
  unfolding best_of
  best_of-Stands [] best s h = h
  best_of-Stands (g ∷ gs) best s h =
      best_of-Stands gs (earlier g (range g s) best) s (earlier-Stands g (range g s) best s refl h)

  same_bucket_refl : (g : RoomBucket) → same_bucket g g ≡ true
  same_bucket_refl RoomBucket.male = refl
  same_bucket_refl RoomBucket.female = refl
  same_bucket_refl RoomBucket.any = refl

  is_from-more :
      (g : RoomBucket) (gs : List RoomBucket) (found : Option Candidate)
      → is_from gs found ≡ true
      → is_from (g ∷ gs) found ≡ true
  is_from-more g gs none h = refl
  is_from-more g gs (some b) h = ground (arith, h)

  -- Of a bucket searched: the candidate so far, or one of this bucket.
  is_from-earlier :
      (g : RoomBucket) (gs : List RoomBucket) (m : List (ℕ × ℕ)) (best : Option Candidate)
      → (earlier g m best ≡ best) ⊎ (is_from (g ∷ gs) (earlier g m best) ≡ true)
  is_from-earlier g gs [] best = inl refl
  is_from-earlier g gs ((k, t) ∷ rest) none = inr (ground (arith, same_bucket_refl g))
  is_from-earlier g gs ((k, t) ∷ rest) (some b) = elim (Bool-cases (ltb t b.score)) [
    | inl sooner ↦ inr (rw sooner (ground (arith, same_bucket_refl g)))
    | inr later ↦ inl (rw later refl)
  ]

  is_from-best_of :
      (gs : List RoomBucket) (best : Option Candidate) (s : Store c)
      → (best_of c gs best s ≡ best) ⊎ (is_from gs (best_of c gs best s) ≡ true)
  unfolding best_of
  is_from-best_of [] best s = inl refl
  is_from-best_of (g ∷ gs) best s =
      let next : Option Candidate = earlier g (range g s) best in
      elim (is_from-best_of gs next s) [
        | inr of_gs ↦ inr (is_from-more g gs (best_of c gs next s) of_gs)
        | inl same ↦ elim (is_from-earlier g gs (range g s) best) [
          | inl kept ↦ inl (same ∙ kept)
          | inr of_g ↦ inr (ap (is_from (g ∷ gs)) same ∙ of_g)
        ]
      ]

  peek_oldest_room_join_candidate-is_from :
      (gs : List RoomBucket) (s : Store c)
      → is_from gs (peek_oldest_room_join_candidate c gs s) ≡ true
  unfolding peek_oldest_room_join_candidate
  peek_oldest_room_join_candidate-is_from gs s = elim (is_from-best_of gs none s) [
    | inl nobody ↦ ap (is_from gs) nobody
    | inr of_gs ↦ of_gs
  ]

  -- The candidate that is found stands in his bucket since the time that he was compared by, and
  -- the first of every bucket searched came no earlier; if none is found, these are empty.
  pub peek_oldest_room_join_candidate-Stands :
      (gs : List RoomBucket) (s : Store c)
      → let found = peek_oldest_room_join_candidate c gs s in Stands s found × AllBeaten gs s found
  unfolding peek_oldest_room_join_candidate
  peek_oldest_room_join_candidate-Stands gs s =
      (best_of-Stands gs none s tt, best_of-AllBeaten gs none s)

  zscore-purge_stale :
      (k : ℕ) (g : RoomBucket) (now : ℕ) (s : Store c)
      → c.room_join_queue.zscore k (joining c g (purge_stale_room_join_queue c now s))
        ≡ above (now - room_join_timeout_seconds) (c.room_join_queue.zscore k (joining c g s))
  unfolding purge_stale_room_join_queue
  zscore-purge_stale k RoomBucket.male now s =
      c.room_join_queue.zscore-zremrangebyscore k (now - room_join_timeout_seconds) s.joining_male
  zscore-purge_stale k RoomBucket.female now s =
      c.room_join_queue.zscore-zremrangebyscore k (now - room_join_timeout_seconds) s.joining_female
  zscore-purge_stale k RoomBucket.any now s =
      c.room_join_queue.zscore-zremrangebyscore k (now - room_join_timeout_seconds) s.joining_any

  pub zscore-enqueue_room_join :
      (k : ℕ) (g : RoomBucket) (t : ℕ) (s : Store c)
      → c.room_join_queue.zscore k (joining c g (enqueue_room_join c k g t s)) ≡ some t
  unfolding enqueue_room_join
  zscore-enqueue_room_join k RoomBucket.male t s =
      c.room_join_queue.zscore-zadd k k t s.joining_male ∙ ground (arith, ==-refl k)
  zscore-enqueue_room_join k RoomBucket.female t s =
      c.room_join_queue.zscore-zadd k k t s.joining_female ∙ ground (arith, ==-refl k)
  zscore-enqueue_room_join k RoomBucket.any t s =
      c.room_join_queue.zscore-zadd k k t s.joining_any ∙ ground (arith, ==-refl k)

  -- A user who starts to wait for a room at `t` still stands in his bucket after a purge at `now`,
  -- with the clock at 120 or more, exactly if fewer than 120 seconds have passed.
  purge_stale_room_join_queue-enqueue_room_join :
      (k : ℕ) (g : RoomBucket) (t now : ℕ) (s : Store c)
      → room_join_timeout_seconds ≤ now
      → let purged = purge_stale_room_join_queue c now (enqueue_room_join c k g t s) in
        is_some (c.room_join_queue.zscore k (joining c g purged))
        ≡ ltb now (t + room_join_timeout_seconds)
  purge_stale_room_join_queue-enqueue_room_join k g t now s h = ground (
    arith,
    h,
    zscore-purge_stale k g now (enqueue_room_join c k g t s),
    zscore-enqueue_room_join k g t s,
  )

  -- Nobody who waits in these buckets came before the candidate.
  abbrev pub NobodyEarlier : List RoomBucket → Store c → Option Candidate → Type 0
  NobodyEarlier [] s found = Unit {0}
  NobodyEarlier (g ∷ gs) s found =
      ((k t : ℕ) → c.room_join_queue.zscore k (joining c g s) ≡ some t → came_by t found ≡ true)
      × NobodyEarlier gs s found

  AllBeaten-NobodyEarlier :
      (gs : List RoomBucket) (s : Store c) (found : Option Candidate)
      → AllBeaten gs s found
      → NobodyEarlier gs s found
  AllBeaten-NobodyEarlier [] s found h = tt
  AllBeaten-NobodyEarlier (g ∷ gs) s found (first, h) = (
    λ k t e.
        first_beaten-all (range g s) found k t (c.room_join_queue.Ascending-zrange (joining c g s))
          first (c.room_join_queue.lookup-zrange k (joining c g s) ∙ e),
    AllBeaten-NobodyEarlier gs s found h,
  )

  -- The candidate that is found is from one of the buckets searched, stands there since the time that
  -- he is given with, and nobody who waits in a bucket searched came before him; if none is found,
  -- nobody waits there.
  pub peek_oldest_room_join_candidate-NobodyEarlier :
      (gs : List RoomBucket) (s : Store c)
      → let found = peek_oldest_room_join_candidate c gs s in
        (is_from gs found ≡ true) × Stands s found × NobodyEarlier gs s found
  peek_oldest_room_join_candidate-NobodyEarlier gs s =
      let (stands, beaten) = peek_oldest_room_join_candidate-Stands gs s in
      (
        peek_oldest_room_join_candidate-is_from gs s,
        stands,
        AllBeaten-NobodyEarlier gs s (peek_oldest_room_join_candidate c gs s) beaten,
      )
