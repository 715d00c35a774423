-- ===== src/Spam/Blocks.antt =====
-- Whom the guard blocks, and what a blocked user's calls do.
use bluechat.Base.{
  ℕ, ◌-◌, ◌≤◌, ◌≡◌, refl, inl, inr, Bool, true, false, not, ◌&&◌, ◌||◌, ◌==◌, leb, arith,
  Bool-cases, ==-refl,
}
use bluechat.Redis.Stores.{Keyspace}
use bluechat.Spam.{
  Window, SpamResult, Guard, sliding_window, is_blocked, check_message, check_command, msg_limit,
  flood_limit,
}

module _ (c : Window) (blocks : Keyspace Bool) where
  -- The answer, what is then stored, and who is blocked.
  abbrev pub MessageChecked : ℕ → Guard c blocks → Guard c blocks × SpamResult → Type 0
  MessageChecked k g (g', SpamResult.already_blocked) = (is_blocked c blocks k g ≡ true) × (g' ≡ g)
  MessageChecked k g (g', SpamResult.just_blocked) =
      (is_blocked c blocks k g ≡ false)
      × ((leb (c.zcard (g'.flood k)) flood_limit && leb (c.zcard (g'.rate_msg k)) msg_limit)
          ≡ false)
      × ((j : ℕ) → is_blocked c blocks j g' ≡ ((j == k) || is_blocked c blocks j g))
  MessageChecked k g (g', SpamResult.allowed) =
      (is_blocked c blocks k g ≡ false)
      × (c.zcard (g'.flood k) ≤ flood_limit)
      × (c.zcard (g'.rate_msg k) ≤ msg_limit)
      × (g'.block ≡ g.block)

  passes :
      (k now : ℕ) (g : Guard c blocks)
      → is_blocked c blocks k g ≡ false
      → (leb (c.zcard (sliding_window c 30 30 now (g.flood k)).0) 30
          && leb (c.zcard (sliding_window c 12 5 now (g.rate_msg k)).0) 12)
        ≡ true
      → MessageChecked k g (check_message c blocks k now g)
  unfolding check_message sliding_window
  passes k now g free ok =
      let flood : c.Set = c.zadd now (c.zremrangebyscore (now - 30) (g.flood k)) in
      let rate : c.Set = c.zadd now (c.zremrangebyscore (now - 5) (g.rate_msg k)) in
      let flood_ok : leb (c.zcard flood) 30 ≡ true = ground (arith, ok) in
      let msg_ok : leb (c.zcard rate) 12 ≡ true = ground (arith, ok) in
      rw (free, flood_ok, msg_ok, check_message)
        (free, ground (arith, flood_ok, ==-refl k), ground (arith, msg_ok, ==-refl k), refl)

  blocks_sender :
      (k now : ℕ) (g : Guard c blocks)
      → is_blocked c blocks k g ≡ false
      → (leb (c.zcard (sliding_window c 30 30 now (g.flood k)).0) 30
          && leb (c.zcard (sliding_window c 12 5 now (g.rate_msg k)).0) 12)
        ≡ false
      → MessageChecked k g (check_message c blocks k now g)
  unfolding check_message sliding_window
  blocks_sender k now g free over =
      let flood : c.Set = c.zadd now (c.zremrangebyscore (now - 30) (g.flood k)) in
      let rate : c.Set = c.zadd now (c.zremrangebyscore (now - 5) (g.rate_msg k)) in
      let exceeds : (not (leb (c.zcard flood) 30) || not (leb (c.zcard rate) 12)) ≡ true =
        ground (arith, over) in
      rw (free, exceeds, check_message)
        (
          free,
          ground (arith, over, ==-refl k),
          λ j. ground (arith, blocks.get-set j k true g.block),
        )

  -- A message of a blocked user changes nothing. Any other passes exactly if neither of its
  -- sender's windows, as they then stand, exceeds its limit, and else its sender, and nobody else,
  -- is blocked by it.
  pub check_message-MessageChecked :
      (k now : ℕ) (g : Guard c blocks) → MessageChecked k g (check_message c blocks k now g)
  unfolding check_message
  check_message-MessageChecked k now g = elim (Bool-cases (is_blocked c blocks k g)) [
    | inl held ↦ rw (held, check_message) (held, refl)
    | inr free ↦
        let flood : c.Set = c.zadd now (c.zremrangebyscore (now - 30) (g.flood k)) in
        let rate : c.Set = c.zadd now (c.zremrangebyscore (now - 5) (g.rate_msg k)) in
        elim (Bool-cases (leb (c.zcard flood) 30 && leb (c.zcard rate) 12)) [
          | inl ok ↦ passes k now g free ok
          | inr over ↦ blocks_sender k now g free over
        ]
  ]

  -- A blocked user's calls are not counted.
  message_held :
      (k later : ℕ) (g : Guard c blocks)
      → is_blocked c blocks k g ≡ true
      → check_message c blocks k later g ≡ (g, SpamResult.already_blocked)
  unfolding check_message
  message_held k later g held = rw (held, check_message) refl

  command_held :
      (k later : ℕ) (g : Guard c blocks)
      → is_blocked c blocks k g ≡ true
      → check_command c blocks k later g ≡ (g, SpamResult.already_blocked)
  unfolding check_command
  command_held k later g held = rw (held, check_command) refl

  just_blocked_held :
      (k : ℕ) (g : Guard c blocks) (r : Guard c blocks × SpamResult)
      → MessageChecked k g r
      → r.1 ≡ SpamResult.just_blocked
      → is_blocked c blocks k r.0 ≡ true
  just_blocked_held k g (g', SpamResult.allowed) h e = cc
  just_blocked_held k g (g', SpamResult.already_blocked) h e = cc
  just_blocked_held k g (g', SpamResult.just_blocked) (free, over, who) e =
      ground (arith, who k, ==-refl k)

  -- Once a message has blocked its sender, his next message or command is neither counted nor
  -- passed while the block lasts.
  pub check_message-just_blocked :
      (k now later : ℕ) (g : Guard c blocks)
      → (check_message c blocks k now g).1 ≡ SpamResult.just_blocked
      → let g' = (check_message c blocks k now g).0 in
        (check_message c blocks k later g' ≡ (g', SpamResult.already_blocked))
        × (check_command c blocks k later g' ≡ (g', SpamResult.already_blocked))
  check_message-just_blocked k now later g e =
      let g' : Guard c blocks = (check_message c blocks k now g).0 in
      let held : is_blocked c blocks k g' ≡ true =
        just_blocked_held k g (check_message c blocks k now g)
          (check_message-MessageChecked k now g) e in
      (message_held k later g' held, command_held k later g' held)
