-- ===== src/Examples/Coins.antt =====
-- Withdrawals, bonuses, warnings, bans and blocked senders of a single user.
use bluechat.Base.{
  ℕ, ◌+◌, ◌≡◌, refl, true, false, ◌&&◌, ◌||◌, none, some, [], ◌∷◌, ltb, leb, not, ◌==◌,
}
use bluechat.Db.Models.{State, User, Reason}
use bluechat.Db.Users.{get_user, new_user, block_sender, unblock_sender, is_sender_blocked}
use bluechat.Db.Blocking.{unblock_sender-block_sender}
use bluechat.Db.Coins.{deduct_coins, grant_referral_bonus}
use bluechat.Db.Coins.Referral.{grant_referral_bonus_once}
use bluechat.Db.Coins.Balance.{Withdrawal, deduct_coins-Withdrawal}
use bluechat.Db.Moderation.{warn_times, warn_times_lem}
use bluechat.Memory.{memory}

abbrev anna : User
anna = record (new_user none none none) { warning_count = 3 }

abbrev house : State memory
house = record {
  users = (7, anna) ∷ [];
  rooms = [];
  sessions = [];
  members = [];
  blocked = [];
  transactions = [];
  warnings = [];
}

deduct_coins-Withdrawal_example :
    Withdrawal memory 7 4 house (deduct_coins memory 7 4 Reason.gender_search house)
deduct_coins-Withdrawal_example = deduct_coins-Withdrawal memory 7 4 Reason.gender_search house

warn_times_lem_example :
    (v : User) × (get_user memory 7 (warn_times memory 2 7 house) ≡ some v)
    × (v.warning_count ≡ 3 + 2)
    × (v.is_banned ≡ false || (ltb 0 2 && leb 5 (3 + 2)))
    × (v.coins ≡ 10)
warn_times_lem_example = warn_times_lem memory 2 7 anna house refl

unblock_sender-block_sender_example :
    let blocked = block_sender memory 7 9 house in
    let (undone, answer) = unblock_sender memory 7 9 blocked in
    (is_sender_blocked memory 7 9 blocked ≡ true)
    × (answer ≡ true)
    × ((o k : ℕ)
        → is_sender_blocked memory o k undone
          ≡ (not ((o == 7) && (k == 9)) && is_sender_blocked memory o k house))
unblock_sender-block_sender_example = unblock_sender-block_sender memory 7 9 house

grant_referral_bonus_once_example :
    let s' = (grant_referral_bonus memory 7 8 house).0 in
    grant_referral_bonus memory 7 8 s' ≡ (s', none)
grant_referral_bonus_once_example = grant_referral_bonus_once memory 7 8 house
