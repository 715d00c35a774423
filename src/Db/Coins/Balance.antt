-- ===== src/Db/Coins/Balance.antt =====
-- Every coin is accounted for: the balance against the recorded transactions.
use bluechat.Base.{
  ℕ, ◌+◌, ◌-◌, ◌≡◌, ◌⊎◌, ◌<◌, refl, Option, none, some, List, [], ◌∷◌, arith, ◌==◌, String,
  if◌then◌else◌, Option-cases, Bool-cases, zero, suc, ltb, inl, inr,
}
use bluechat.Base.Int.{ℤ, pos, neg, pos_part, neg_part}
use bluechat.Db.Models.{Database, State, User, CoinTransaction, Reason}
use bluechat.Db.Users.{get_user, save_user, get_or_create_user, new_user, refresh_user, differs}
use bluechat.Db.Coins.{
  book, deduct_coins, refund_coins, grant_report_reward, grant_referral_bonus, rewarded,
}

-- The sums of a user's deposits and of his withdrawals.
abbrev pub credits : ℕ → List CoinTransaction → ℕ
credits k [] = 0
credits k (t ∷ ts) = (if k == t.user_id then pos_part t.amount else 0) + credits k ts

abbrev pub debits : ℕ → List CoinTransaction → ℕ
debits k [] = 0
debits k (t ∷ ts) = (if k == t.user_id then neg_part t.amount else 0) + debits k ts

abbrev pub balance : Option User → ℕ
balance none = 0
balance (some u) = u.coins

abbrev pub with_coins : ℕ → Option User → Option User
with_coins n none = none
with_coins n (some u) = some (record u { coins = n })

-- The gift that a user starts with.
abbrev pub opening : Option User → ℕ
opening none = 0
opening (some u) = 10

-- For each user: balance and withdrawals make up the gift and the deposits.
abbrev pub Balanced : (d : Database) → State d → Type 0
Balanced d s =
    (k : ℕ)
    → balance (d.users.get k s.users) + debits k (d.transactions.rows s.transactions)
      ≡ opening (d.users.get k s.users) + credits k (d.transactions.rows s.transactions)

pub neg_parts : (n : ℕ) → (pos_part (neg n) ≡ 0) × (neg_part (neg n) ≡ n)
neg_parts zero = (refl, refl)
neg_parts (suc n) = (refl, refl)

module _ (d : Database) where
  -- A booking whose new balance differs from the old one by its amount.
  pub book-Balanced :
      (k : ℕ) (u : User) (new : ℕ) (a : ℤ) (r : Reason) (s : State d)
      → get_user d k s ≡ some u
      → new + neg_part a ≡ u.coins + pos_part a
      → Balanced d s
      → Balanced d (book d k u new a r s)
  unfolding book
  book-Balanced k u new a r s e h b j = ground (
    arith,
    b j,
    d.users.get-put j k (record u { coins = new }) s.users,
    d.transactions.rows-add (record { user_id = k; amount = a; reason = r }) s.transactions,
  )

  -- Saving a user with the same number of coins moves nothing.
  pub save_user-Balanced :
      (k : ℕ) (u v : User) (s : State d)
      → get_user d k s ≡ some u
      → v.coins ≡ u.coins
      → Balanced d s
      → Balanced d (save_user d k v s)
  save_user-Balanced k u v s e h b j = ground (arith, b j, d.users.get-put j k v s.users)

  pub deduct_coins-Balanced :
      (k amount : ℕ) (r : Reason) (s : State d)
      → Balanced d s
      → Balanced d (deduct_coins d k amount r s).0
  unfolding deduct_coins
  deduct_coins-Balanced k amount r s b = elim (Option-cases (get_user d k s)) [
    | inl e ↦ rw (e, deduct_coins) b
    | inr (u, e) ↦ elim (Bool-cases (ltb u.coins amount)) [
      | inl short ↦ rw (e, short, deduct_coins) b
      | inr enough ↦
          rw (e, enough, deduct_coins)
            (book-Balanced k u (u.coins - amount) (neg amount) r s e
              (ground (arith, neg_parts amount)) b)
    ]
  ]

  pub refund_coins-Balanced :
      (k amount : ℕ) (r : Reason) (s : State d)
      → Balanced d s
      → Balanced d (refund_coins d k amount r s).0
  unfolding refund_coins
  refund_coins-Balanced k amount r s b = elim (Option-cases (get_user d k s)) [
    | inl e ↦ rw (e, refund_coins) b
    | inr (u, e) ↦
        rw (e, refund_coins)
          (book-Balanced k u (u.coins + amount) (pos amount) r s e (omega arith) b)
  ]

  pub grant_report_reward-Balanced :
      (k amount : ℕ) (report : Option ℕ) (s : State d)
      → Balanced d s
      → Balanced d (grant_report_reward d k amount report s).0
  unfolding grant_report_reward
  grant_report_reward-Balanced k amount report s b = elim (Option-cases (get_user d k s)) [
    | inl e ↦ rw (e, grant_report_reward) b
    | inr (u, e) ↦
        rw (e, grant_report_reward)
          (book-Balanced k u (u.coins + amount) (pos amount) _ s e (omega arith) b)
  ]

  pub grant_referral_bonus-Balanced :
      (inviter invitee : ℕ) (s : State d)
      → Balanced d s
      → Balanced d (grant_referral_bonus d inviter invitee s).0
  unfolding grant_referral_bonus
  grant_referral_bonus-Balanced inviter invitee s b = elim (Option-cases (get_user d inviter s)) [
    | inl e ↦ rw (e, grant_referral_bonus) b
    | inr (u, e) ↦
        elim (Bool-cases (rewarded inviter invitee (d.transactions.rows s.transactions))) [
          | inl before ↦ rw (e, before, grant_referral_bonus) b
          | inr first ↦
              rw (e, first, grant_referral_bonus)
                (book-Balanced inviter u (u.coins + 5) (pos 5) _ s e (omega arith) b)
        ]
  ]

  refresh_user-Balanced :
      (k : ℕ) (u : User) (username first_name : Option String) (s : State d)
      → get_user d k s ≡ some u
      → Balanced d s
      → Balanced d (refresh_user d k u username first_name s)
  unfolding refresh_user
  refresh_user-Balanced k u username first_name s e b =
      elim (Bool-cases (differs username u.username)) [
        | inl p ↦ elim (Bool-cases (differs first_name u.first_name)) [
          | inl q ↦ rw (p, q) (save_user-Balanced k u _ s e refl b)
          | inr q ↦ rw (p, q) (save_user-Balanced k u _ s e refl b)
        ]
        | inr p ↦ elim (Bool-cases (differs first_name u.first_name)) [
          | inl q ↦ rw (p, q) (save_user-Balanced k u _ s e refl b)
          | inr q ↦ rw (p, q) b
        ]
      ]

  pub get_or_create_user-Balanced :
      (k : ℕ) (username first_name : Option String) (invited_by : Option ℕ) (s : State d)
      → Balanced d s
      → Balanced d (get_or_create_user d k username first_name invited_by s)
  unfolding get_or_create_user
  get_or_create_user-Balanced k username first_name invited_by s b =
      elim (Option-cases (get_user d k s)) [
        | inl e ↦
            rw (e, get_or_create_user)
              λ j.
                ground (
                  arith,
                  b j,
                  d.users.get-put j k (new_user username first_name invited_by) s.users,
                )
        | inr (u, e) ↦
            rw (e, get_or_create_user) (refresh_user-Balanced k u username first_name s e b)
      ]

  -- What became of a withdrawal: refused with nothing changed, or paid in full.
  abbrev pub Withdrawal : ℕ → ℕ → State d → State d × Option ℕ → Type 0
  Withdrawal k amount s (s', none) =
      (s' ≡ s) × ((get_user d k s ≡ none) ⊎ (balance (get_user d k s) < amount))
  Withdrawal k amount s (s', some left) =
      (left + amount ≡ balance (get_user d k s))
      × ((j : ℕ)
          → get_user d j s' ≡ (if j == k then with_coins left (get_user d k s) else get_user d j s))

  -- A withdrawal goes through exactly when the user exists and has the coins; it then takes the
  -- amount from him and touches no other user, and otherwise it changes nothing.
  pub deduct_coins-Withdrawal :
      (k amount : ℕ) (r : Reason) (s : State d)
      → Withdrawal k amount s (deduct_coins d k amount r s)
  unfolding deduct_coins book
  deduct_coins-Withdrawal k amount r s = elim (Option-cases (get_user d k s)) [
    | inl e ↦ rw (e, deduct_coins) (refl, inl e)
    | inr (u, e) ↦ elim (Bool-cases (ltb u.coins amount)) [
      | inl short ↦ rw (e, short, deduct_coins) (refl, inr (rw e (ground arith)))
      | inr enough ↦
          rw (e, enough, deduct_coins)
            (
              rw e (ground arith),
              λ j.
                  ground
                    (arith, d.users.get-put j k (record u { coins = u.coins - amount }) s.users),
            )
    ]
  ]
