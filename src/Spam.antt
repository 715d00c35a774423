-- ===== src/Spam.antt =====
-- spam_guard.py: the sliding windows of a user's messages and commands, and his block. A window is
-- a sorted set of time stamps, each its own score, so that two calls at one instant count once.
pub mod Blocks
pub mod Bursts
use bluechat.Base.{
  ℕ, zero, ◌+◌, ◌-◌, ◌≡◌, Bool, true, false, not, ◌&&◌, ◌||◌, Option, none, some, ◌==◌, leb,
  if◌then◌else◌, is_some,
}
use bluechat.Redis.Stores.{Keyspace}

-- ZREMRANGEBYSCORE -inf, ZADD and ZCARD on one such set, and the set of a key that is not there.
pub record Window : Type 1 where
  pub Set : Type 0
  pub empty : Set
  pub has : ℕ → Set → Bool
  pub zadd : ℕ → Set → Set
  pub zremrangebyscore : ℕ → Set → Set
  pub zcard : Set → ℕ
  pub has-empty : (t : ℕ) → has t empty ≡ false
  pub zcard-empty : zcard empty ≡ 0
  pub has-zadd : (t now : ℕ) (z : Set) → has t (zadd now z) ≡ ((t == now) || has t z)
  pub zcard-zadd :
      (now : ℕ) (z : Set) → zcard (zadd now z) ≡ (if has now z then zcard z else zcard z + 1)
  pub has-zremrangebyscore :
      (t cutoff : ℕ) (z : Set) → has t (zremrangebyscore cutoff z) ≡ (not (leb t cutoff) && has t z)
  pub zcard-zremrangebyscore :
      (cutoff : ℕ) (z : Set)
      → ((t : ℕ) → (has t z && leb t cutoff) ≡ false)
      → zcard (zremrangebyscore cutoff z) ≡ zcard z

pub data SpamResult : Type 0 where
  allowed just_blocked already_blocked : SpamResult

abbrev pub msg_limit : ℕ
msg_limit = 12

abbrev pub msg_window : ℕ
msg_window = 5

abbrev pub cmd_limit : ℕ
cmd_limit = 8

abbrev pub cmd_window : ℕ
cmd_window = 10

abbrev pub flood_limit : ℕ
flood_limit = 30

abbrev pub flood_window : ℕ
flood_window = 30

pub record Guard (c : Window) (blocks : Keyspace Bool) : Type 0 where
  pub block : blocks.Keys
  pub flood : ℕ → c.Set
  pub rate_msg : ℕ → c.Set
  pub rate_cmd : ℕ → c.Set

module _ (c : Window) where
  -- The window after one more call, and whether the call is within the limit. The clock is past
  -- the first window, so that the subtraction is exact.
  unfoldable pub sliding_window : ℕ → ℕ → ℕ → c.Set → c.Set × Bool
  sliding_window limit window now z =
      let after : c.Set = c.zadd now (c.zremrangebyscore (now - window) z) in
      (after, leb (c.zcard after) limit)

  abbrev pub set_window : ℕ → c.Set → (ℕ → c.Set) → ℕ → c.Set
  set_window k z windows j = if j == k then z else windows j

  module _ (blocks : Keyspace Bool) where
    abbrev pub is_blocked : ℕ → Guard c blocks → Bool
    is_blocked k g = is_some (blocks.get k g.block)

    -- The key is given a time to live, after which the server deletes it.
    abbrev pub block_user : ℕ → Guard c blocks → Guard c blocks
    block_user k g = record g { block = blocks.set k true g.block }

    unfoldable pub check_message : ℕ → ℕ → Guard c blocks → Guard c blocks × SpamResult
    unfolding sliding_window
    check_message k now g =
        let (flood, flood_ok) = sliding_window flood_limit flood_window now (g.flood k) in
        let (rate, msg_ok) = sliding_window msg_limit msg_window now (g.rate_msg k) in
        let counted : Guard c blocks = record g {
          flood = set_window k flood g.flood;
          rate_msg = set_window k rate g.rate_msg;
        } in
        if is_blocked k g
        then (g, SpamResult.already_blocked)
        else if not flood_ok || not msg_ok
        then (block_user k counted, SpamResult.just_blocked)
        else (counted, SpamResult.allowed)

    unfoldable pub check_command : ℕ → ℕ → Guard c blocks → Guard c blocks × SpamResult
    unfolding sliding_window
    check_command k now g =
        let (rate, ok) = sliding_window cmd_limit cmd_window now (g.rate_cmd k) in
        let counted : Guard c blocks = record g { rate_cmd = set_window k rate g.rate_cmd } in
        if is_blocked k g
        then (g, SpamResult.already_blocked)
        else if not ok
        then (block_user k counted, SpamResult.just_blocked)
        else (counted, SpamResult.allowed)
