-- ===== src/Redis/RoomQueue.antt =====
-- The queue of those who look for a room (redis_client.py), in a bucket for each kind of room
-- looked for.
pub mod Oldest
use bluechat.Base.{ℕ, ◌-◌, Bool, Option, none, some, List, [], ◌∷◌, ltb, if◌then◌else◌, is_some}
use bluechat.Db.Models.{RoomGenderPref}
use bluechat.Redis.Keys.{RoomBucket, Redis, Store, room_join_timeout_seconds}

-- `room_join_compatible_genders`
abbrev pub compatible_buckets : RoomGenderPref → List RoomBucket
compatible_buckets RoomGenderPref.any = RoomBucket.male ∷ RoomBucket.female ∷ RoomBucket.any ∷ []
compatible_buckets RoomGenderPref.male = RoomBucket.male ∷ RoomBucket.any ∷ []
compatible_buckets RoomGenderPref.female = RoomBucket.female ∷ RoomBucket.any ∷ []

-- A user, his bucket and the time that he came.
pub record Candidate : Type 0 where
  pub user_id : ℕ
  pub bucket : RoomBucket
  pub score : ℕ

-- The first of a range, if it came before the best so far.
abbrev pub earlier : RoomBucket → List (ℕ × ℕ) → Option Candidate → Option Candidate
earlier g [] best = best
earlier g ((k, t) ∷ rest) none = some (record { user_id = k; bucket = g; score = t })
earlier g ((k, t) ∷ rest) (some best) =
    if ltb t best.score then some (record { user_id = k; bucket = g; score = t }) else some best

module _ (c : Redis) where
  abbrev pub joining : RoomBucket → Store c → c.room_join_queue.Set
  joining RoomBucket.male s = s.joining_male
  joining RoomBucket.female s = s.joining_female
  joining RoomBucket.any s = s.joining_any

  abbrev pub set_joining : RoomBucket → c.room_join_queue.Set → Store c → Store c
  set_joining RoomBucket.male z s = record s { joining_male = z }
  set_joining RoomBucket.female z s = record s { joining_female = z }
  set_joining RoomBucket.any z s = record s { joining_any = z }

  abbrev joins_in : RoomBucket → ℕ → Store c → Bool
  joins_in g k s = is_some (c.room_join_queue.zscore k (joining g s))

  unfoldable pub enqueue_room_join : ℕ → RoomBucket → ℕ → Store c → Store c
  enqueue_room_join k g now s = set_joining g (c.room_join_queue.zadd k now (joining g s)) s

  unfoldable pub dequeue_room_join : ℕ → RoomBucket → Store c → Store c × Bool
  dequeue_room_join k g s =
      (set_joining g (c.room_join_queue.zrem k (joining g s)) s, joins_in g k s)

  unfoldable pub is_waiting_room_join : ℕ → Store c → Option RoomBucket
  is_waiting_room_join k s =
      if joins_in RoomBucket.male k s
      then some RoomBucket.male
      else if joins_in RoomBucket.female k s
      then some RoomBucket.female
      else if joins_in RoomBucket.any k s
      then some RoomBucket.any
      else none

  unfoldable pub best_of : List RoomBucket → Option Candidate → Store c → Option Candidate
  best_of [] best s = best
  best_of (g ∷ gs) best s = best_of gs (earlier g (c.room_join_queue.zrange (joining g s)) best) s

  unfoldable pub peek_oldest_room_join_candidate : List RoomBucket → Store c → Option Candidate
  unfolding best_of
  peek_oldest_room_join_candidate gs s = best_of gs none s

  unfoldable pub purge_stale_room_join_queue : ℕ → Store c → Store c
  purge_stale_room_join_queue now s =
      let cutoff : ℕ = now - room_join_timeout_seconds in
      record s {
        joining_male = c.room_join_queue.zremrangebyscore cutoff s.joining_male;
        joining_female = c.room_join_queue.zremrangebyscore cutoff s.joining_female;
        joining_any = c.room_join_queue.zremrangebyscore cutoff s.joining_any;
      }
