-- ===== src/Db/Coins.antt =====
-- The coin operations of db/queries.py. Amounts are those that the callers pass: constants that
-- are not negative. A result of `none` is the source's `None`.
pub mod Balance
pub mod Referral
use bluechat.Base.{
  ℕ, ◌+◌, ◌-◌, Bool, true, false, ◌&&◌, ◌||◌, Option, none, some, List, [], ◌∷◌, ltb, ◌==◌,
  if◌then◌else◌,
}
use bluechat.Base.Int.{ℤ, pos, neg}
use bluechat.Db.Tables.{Table, Journal}
use bluechat.Db.Models.{Database, State, User, CoinTransaction, Reason}
use bluechat.Db.Users.{get_user}

-- A transaction of this user with the reason `referral_bonus:<invitee>`.
abbrev pub is_bonus_for : ℕ → Reason → Bool
is_bonus_for invitee (Reason.referral_bonus k) = invitee == k
is_bonus_for invitee _ = false

abbrev pub rewarded : ℕ → ℕ → List CoinTransaction → Bool
rewarded inviter invitee [] = false
rewarded inviter invitee (t ∷ ts) =
    ((inviter == t.user_id) && is_bonus_for invitee t.reason) || rewarded inviter invitee ts

module _ (d : Database) where
  -- The balance is written and the transaction recorded in one commit.
  unfoldable pub book : ℕ → User → ℕ → ℤ → Reason → State d → State d
  book k u balance amount reason s = record s {
    users = d.users.put k (record u { coins = balance }) s.users;
    transactions =
        d.transactions.add (record { user_id = k; amount = amount; reason = reason })
          s.transactions;
  }

  unfoldable pub deduct_coins : ℕ → ℕ → Reason → State d → State d × Option ℕ
  deduct_coins k amount reason s = elim (get_user d k s) [
    | none ↦ (s, none)
    | some u ↦
        if ltb u.coins amount
        then (s, none)
        else (book k u (u.coins - amount) (neg amount) reason s, some (u.coins - amount))
  ]

  unfoldable pub refund_coins : ℕ → ℕ → Reason → State d → State d × Option ℕ
  refund_coins k amount reason s = elim (get_user d k s) [
    | none ↦ (s, none)
    | some u ↦ (book k u (u.coins + amount) (pos amount) reason s, some (u.coins + amount))
  ]

  unfoldable pub grant_report_reward : ℕ → ℕ → Option ℕ → State d → State d × Option ℕ
  grant_report_reward k amount report_id s = elim (get_user d k s) [
    | none ↦ (s, none)
    | some u ↦ (
      book k u (u.coins + amount) (pos amount) (Reason.report_reward report_id) s,
      some (u.coins + amount),
    )
  ]

  unfoldable pub grant_referral_bonus : ℕ → ℕ → State d → State d × Option ℕ
  grant_referral_bonus inviter invitee s = elim (get_user d inviter s) [
    | none ↦ (s, none)
    | some u ↦
        if rewarded inviter invitee (d.transactions.rows s.transactions) then (s, none) else (
          book inviter u (u.coins + 5) (pos 5) (Reason.referral_bonus invitee) s,
          some (u.coins + 5),
        )
  ]
