-- ===== src/Db/Moderation.antt =====
-- Warnings and bans: how a user comes to be banned, and that nothing else of his changes.
use bluechat.Base.{
  ℕ, suc, zero, ◌+◌, ◌≡◌, refl, ◌∙◌, inl, inr, Bool, true, ◌||◌, ◌&&◌, Option, none, some, ltb, leb,
  arith, Option-cases, if◌then◌else◌,
}
use bluechat.Db.Models.{Database, State, User}
use bluechat.Db.Users.{get_user, add_warning, ban_user}
use bluechat.Db.Coins.Balance.{Balanced, save_user-Balanced}
use bluechat.Db.Rooms.Invariant.{RoomsInv}
use bluechat.Db.Rooms.Saves.{save_user-RoomsInv}

-- The user's row after one more warning.
abbrev with_warning : User → User
with_warning u = record u {
  warning_count = u.warning_count + 1;
  is_banned = if leb 5 (u.warning_count + 1) then true else u.is_banned;
}

threshold :
    (w n : ℕ) (b : Bool)
    → ((if leb 5 (w + 1) then true else b) || (ltb 0 n && leb 5 (w + 1 + n)))
      ≡ (b || (ltb 0 (suc n) && leb 5 (w + suc n)))
threshold w n b = ground arith

module _ (d : Database) where
  pub add_warning-Balanced :
      (k : ℕ) (report : Option ℕ) (s : State d)
      → Balanced d s
      → Balanced d (add_warning d k report s).0
  unfolding add_warning
  add_warning-Balanced k report s b = elim (Option-cases (get_user d k s)) [
    | inl e ↦ rw (e, add_warning) b
    | inr (u, e) ↦ rw (e, add_warning) (save_user-Balanced d k u _ s e refl b)
  ]

  pub ban_user-Balanced : (k : ℕ) (s : State d) → Balanced d s → Balanced d (ban_user d k s)
  unfolding ban_user
  ban_user-Balanced k s b = elim (Option-cases (get_user d k s)) [
    | inl e ↦ rw (e, ban_user) b
    | inr (u, e) ↦ rw (e, ban_user) (save_user-Balanced d k u _ s e refl b)
  ]

  pub add_warning-RoomsInv :
      (k : ℕ) (report : Option ℕ) (s : State d)
      → RoomsInv d s
      → RoomsInv d (add_warning d k report s).0
  unfolding add_warning
  add_warning-RoomsInv k report s v = elim (Option-cases (get_user d k s)) [
    | inl e ↦ rw (e, add_warning) v
    | inr (u, e) ↦
        let saved = save_user-RoomsInv d k (with_warning u) s (rw e refl) v in
        rw (e, add_warning) (record { agree = saved.agree; fits = saved.fits })
  ]

  pub ban_user-RoomsInv : (k : ℕ) (s : State d) → RoomsInv d s → RoomsInv d (ban_user d k s)
  unfolding ban_user
  ban_user-RoomsInv k s v = elim (Option-cases (get_user d k s)) [
    | inl e ↦ rw (e, ban_user) v
    | inr (u, e) ↦ rw (e, ban_user) (save_user-RoomsInv d k _ s (rw e refl) v)
  ]

  -- `n` warnings of one user in a row, no report named.
  pub warn_times : ℕ → ℕ → State d → State d
  warn_times zero k s = s
  warn_times (suc n) k s = warn_times n k (add_warning d k none s).0

  warned :
      (k : ℕ) (report : Option ℕ) (u : User) (s : State d)
      → get_user d k s ≡ some u
      → get_user d k (add_warning d k report s).0 ≡ some (with_warning u)
  unfolding add_warning
  warned k report u s e =
      rw (e, add_warning) (ground (arith, d.users.get-put k k (with_warning u) s.users))

  -- After any number of warnings a known user's count has grown by that number, his coins are as
  -- before, and he is banned exactly if he was before, or at least one came and the count has
  -- reached five.
  pub warn_times_lem :
      (n k : ℕ) (u : User) (s : State d)
      → get_user d k s ≡ some u
      → (v : User) × (get_user d k (warn_times n k s) ≡ some v)
        × (v.warning_count ≡ u.warning_count + n)
        × (v.is_banned ≡ u.is_banned || (ltb 0 n && leb 5 (u.warning_count + n)))
        × (v.coins ≡ u.coins)
  unfolding warn_times
  warn_times_lem zero k u s e = (u, e, omega arith, ground arith, refl)
  warn_times_lem (suc n) k u s e =
      let (v, ev, counted, banned, coins) =
        warn_times_lem n k (with_warning u) (add_warning d k none s).0 (warned k none u s e) in
      (v, ev, omega (arith, counted), banned ∙ threshold u.warning_count n u.is_banned, coins)
