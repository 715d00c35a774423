-- ===== src/Db/Blocking.antt =====
-- The senders that the owner of a link has blocked, and the ban mark (db/queries.py).
use bluechat.Base.{ℕ, ◌≡◌, true, not, ◌&&◌, ◌||◌, ◌==◌, is_some, arith, Option-cases, inl, inr}
use bluechat.Db.Models.{Database, State}
use bluechat.Db.Users.{
  get_user, ban_user, is_user_banned, block_sender, unblock_sender, is_sender_blocked,
}

module _ (d : Database) where
  pub is_sender_blocked-block_sender :
      (o k owner sender : ℕ) (s : State d)
      → is_sender_blocked d o k (block_sender d owner sender s)
        ≡ ((o == owner) && (k == sender) || is_sender_blocked d o k s)
  unfolding is_sender_blocked block_sender
  is_sender_blocked-block_sender o k owner sender s =
      ground (arith, d.blocked.has-insert o k owner sender s.blocked)

  is_sender_blocked-unblock_sender :
      (o k owner sender : ℕ) (s : State d)
      → is_sender_blocked d o k (unblock_sender d owner sender s).0
        ≡ (not ((o == owner) && (k == sender)) && is_sender_blocked d o k s)
  unfolding is_sender_blocked unblock_sender
  is_sender_blocked-unblock_sender o k owner sender s =
      ground (arith, d.blocked.has-remove o k owner sender s.blocked)

  unblock_sender_answer :
      (owner sender : ℕ) (s : State d)
      → is_sender_blocked d owner sender s ≡ true
      → (unblock_sender d owner sender s).1 ≡ true
  unfolding is_sender_blocked unblock_sender
  unblock_sender_answer owner sender s h = ground (arith, h)

  -- After `block_sender` the sender is blocked by that owner, and after a following
  -- `unblock_sender`, which answers that it has unblocked, he is not; what any other owner and
  -- sender have with each other is as it was before both.
  pub unblock_sender-block_sender :
      (owner sender : ℕ) (s : State d)
      → let blocked = block_sender d owner sender s in
        let (undone, answer) = unblock_sender d owner sender blocked in
        (is_sender_blocked d owner sender blocked ≡ true)
        × (answer ≡ true)
        × ((o k : ℕ)
            → is_sender_blocked d o k undone
              ≡ (not ((o == owner) && (k == sender)) && is_sender_blocked d o k s))
  unblock_sender-block_sender owner sender s =
      let blocked : State d = block_sender d owner sender s in
      let held : is_sender_blocked d owner sender blocked ≡ true =
        ground (arith, is_sender_blocked-block_sender owner sender owner sender s) in
      (
        held,
        unblock_sender_answer owner sender blocked held,
        λ o k. ground (
          arith,
          is_sender_blocked-unblock_sender o k owner sender blocked,
          is_sender_blocked-block_sender o k owner sender s,
        ),
      )

  -- `ban_user` bans a known user and nobody else.
  is_user_banned-ban_user :
      (j k : ℕ) (s : State d)
      → is_user_banned d j (ban_user d k s)
        ≡ ((j == k) && is_some (get_user d k s) || is_user_banned d j s)
  unfolding is_user_banned ban_user
  is_user_banned-ban_user j k s = elim (Option-cases (get_user d k s)) [
    | inl e ↦ rw (e, ban_user) (ground arith)
    | inr (u, e) ↦
        rw (e, ban_user)
          (ground (arith, d.users.get-put j k (record u { is_banned = true }) s.users))
  ]
