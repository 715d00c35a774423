-- ===== src/Limiter.antt =====
-- gemini_limiter.py: the token bucket before the calls of the language model. The source counts
-- tokens in floats; here one token is `unit` parts, `rate` the parts that come in one tick of the
-- clock, and `capacity` the parts that the bucket holds, so that no rounding is needed. The lock
-- makes one turn of the loop of `acquire` a single step.
pub mod Bounds
use Prim.Native.Nat.{◌*◌}
use bluechat.Base.{
  ℕ, ◌+◌, ◌-◌, Bool, true, false, Option, none, some, List, [], ◌∷◌, leb, if◌then◌else◌, min,
}

pub record TokenBucket : Type 0 where
  pub tokens : ℕ
  pub last : ℕ

module _ (unit rate capacity : ℕ) where
  unfoldable pub refill : ℕ → TokenBucket → TokenBucket
  refill now b = record { tokens = min capacity (b.tokens + (now - b.last) * rate); last = now }

  -- One turn of the loop: a token is taken, or the answer says how many parts are missing; the
  -- source sleeps for as long as these take to come.
  unfoldable pub turn : ℕ → TokenBucket → TokenBucket × Option ℕ
  unfolding refill
  turn now b =
      let full : TokenBucket = refill now b in
      if leb unit full.tokens
      then (record full { tokens = full.tokens - unit }, none)
      else (full, some (unit - full.tokens))

  abbrev pub granted : Option ℕ → ℕ
  granted none = 1
  granted (some missing) = 0

  -- Turns of any callers at the given times, and how many of them got a token.
  unfoldable pub turns : List ℕ → TokenBucket → TokenBucket × ℕ
  unfolding turn
  turns [] b = (b, 0)
  turns (now ∷ later) b =
      let (after, answer) = turn now b in
      let (end, count) = turns later after in (end, granted answer + count)
