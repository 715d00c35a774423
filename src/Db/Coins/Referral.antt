-- ===== src/Db/Coins/Referral.antt =====
-- The bonus for bringing a user (db/queries.py).
use bluechat.Base.{
  ℕ, ◌+◌, ◌≡◌, refl, ap, inl, inr, true, false, none, some, arith, Option-cases, Bool-cases,
  ==-refl,
}
use bluechat.Base.Int.{pos}
use bluechat.Db.Models.{Database, State, User, Reason}
use bluechat.Db.Users.{get_user}
use bluechat.Db.Coins.{book, rewarded, grant_referral_bonus}

module _ (d : Database) where
  rewarded-book :
      (inviter invitee : ℕ) (u : User) (n : ℕ) (s : State d)
      → rewarded inviter invitee (
          d.transactions.rows
            (book d inviter u n (pos 5) (Reason.referral_bonus invitee) s).transactions)
        ≡ true
  unfolding book
  rewarded-book inviter invitee u n s = ground (
    arith,
    d.transactions.rows-add
        (record { user_id = inviter; amount = pos 5; reason = Reason.referral_bonus invitee })
        s.transactions,
    ==-refl inviter,
    ==-refl invitee,
  )

  rewarded_already :
      (inviter invitee : ℕ) (s : State d)
      → rewarded inviter invitee (d.transactions.rows s.transactions) ≡ true
      → grant_referral_bonus d inviter invitee s ≡ (s, none)
  unfolding grant_referral_bonus
  rewarded_already inviter invitee s h = elim (Option-cases (get_user d inviter s)) [
    | inl e ↦ rw (e, grant_referral_bonus) refl
    | inr (u, e) ↦ rw (e, h, grant_referral_bonus) refl
  ]

  unknown :
      (inviter invitee : ℕ) (s : State d)
      → get_user d inviter s ≡ none
      → grant_referral_bonus d inviter invitee s ≡ (s, none)
  unfolding grant_referral_bonus
  unknown inviter invitee s e = rw (e, grant_referral_bonus) refl

  granted :
      (inviter invitee : ℕ) (u : User) (s : State d)
      → get_user d inviter s ≡ some u
      → rewarded inviter invitee (d.transactions.rows s.transactions) ≡ false
      → grant_referral_bonus d inviter invitee s ≡ (
        book d inviter u (u.coins + 5) (pos 5) (Reason.referral_bonus invitee) s,
        some (u.coins + 5),
      )
  unfolding grant_referral_bonus
  granted inviter invitee u s e fresh = rw (e, fresh, grant_referral_bonus) refl

  -- Whether or not the first call for an inviter and an invitee pays the bonus, a second one pays
  -- nothing and changes nothing.
  pub grant_referral_bonus_once :
      (inviter invitee : ℕ) (s : State d)
      → let s' = (grant_referral_bonus d inviter invitee s).0 in
        grant_referral_bonus d inviter invitee s' ≡ (s', none)
  grant_referral_bonus_once inviter invitee s = elim (Option-cases (get_user d inviter s)) [
    | inl e ↦ rw (ap (λ t. t.0) (unknown inviter invitee s e)) (unknown inviter invitee s e)
    | inr (u, e) ↦
        elim (Bool-cases (rewarded inviter invitee (d.transactions.rows s.transactions))) [
          | inl paid ↦
              rw (ap (λ t. t.0) (rewarded_already inviter invitee s paid))
                (rewarded_already inviter invitee s paid)
          | inr fresh ↦
              let s' : State d =
                book d inviter u (u.coins + 5) (pos 5) (Reason.referral_bonus invitee) s in
              rw (ap (λ t. t.0) (granted inviter invitee u s e fresh)) (
                rewarded_already inviter invitee s'
                  (rewarded-book inviter invitee u (u.coins + 5) s))
        ]
  ]
