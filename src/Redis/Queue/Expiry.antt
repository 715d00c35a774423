-- ===== src/Redis/Queue/Expiry.antt =====
-- How long a place in the waiting queue lasts (redis_client.py).
use bluechat.Base.{ℕ, ◌+◌, ◌-◌, ◌≤◌, ◌≡◌, Option, some, arith, ltb}
use bluechat.Redis.Keys.{PartnerGender, Redis, Store, queue_timeout_seconds}
use bluechat.Redis.Queue.{waits_in, join_queue, enqueue, purge_stale_queue_entries}

module _ (c : Redis) where
  -- A user who enters the queue at `t` is still there after a purge at `now` exactly if fewer than
  -- 120 seconds have passed; the clock reads at least 120.
  purge_stale_queue_entries-enqueue :
      (k : ℕ) (own : PartnerGender) (wanted : Option PartnerGender) (t now : ℕ) (s : Store c)
      → queue_timeout_seconds ≤ now
      → waits_in c own k (purge_stale_queue_entries c now (enqueue c k (some own) wanted t s).0)
        ≡ ltb now (t + queue_timeout_seconds)
  unfolding waits_in purge_stale_queue_entries enqueue join_queue
  purge_stale_queue_entries-enqueue k PartnerGender.male wanted t now s h = ground (
    arith,
    h,
    c.waiting_queue.zscore-zremrangebyscore k (now - queue_timeout_seconds)
        (c.waiting_queue.zadd k t s.waiting_male),
    c.waiting_queue.zscore-zadd k k t s.waiting_male,
  )
  purge_stale_queue_entries-enqueue k PartnerGender.female wanted t now s h = ground (
    arith,
    h,
    c.waiting_queue.zscore-zremrangebyscore k (now - queue_timeout_seconds)
        (c.waiting_queue.zadd k t s.waiting_female),
    c.waiting_queue.zscore-zadd k k t s.waiting_female,
  )
