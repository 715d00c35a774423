-- ===== src/Db/Rooms/Saves.antt =====
-- Writes to the users' table that leave `active_room_id` alone keep the rooms in order.
use bluechat.Base.{
  ℕ, ◌≡◌, refl, eq_of_test, inl, inr, Option, some, ltb, arith, Option-cases, Bool-cases, String,
}
use bluechat.Base.Int.{neg, pos}
use bluechat.Db.Models.{Database, State, User, Reason}
use bluechat.Db.Users.{get_user, save_user, get_or_create_user, refresh_user, new_user, differs}
use bluechat.Db.Coins.{
  deduct_coins, refund_coins, grant_report_reward, grant_referral_bonus, rewarded,
}
use bluechat.Db.Rooms.Effects.{active}
use bluechat.Db.Rooms.Invariant.{RoomsInv}
use bluechat.Db.Rooms.Creation.{book-RoomsInv}

module _ (d : Database) where
  -- A user written with the room that he had.
  pub save_user-RoomsInv :
      (k : ℕ) (v : User) (s : State d)
      → v.active_room_id ≡ active d k s
      → RoomsInv d s
      → RoomsInv d (save_user d k v s)
  save_user-RoomsInv k v s same inv = record {
    agree = λ q j. ground (arith, inv.agree q j, d.users.get-put j k v s.users);
    fits = inv.fits;
  }

  refresh_user-RoomsInv :
      (k : ℕ) (u : User) (username first_name : Option String) (s : State d)
      → get_user d k s ≡ some u
      → RoomsInv d s
      → RoomsInv d (refresh_user d k u username first_name s)
  unfolding refresh_user
  refresh_user-RoomsInv k u username first_name s e v =
      elim (Bool-cases (differs username u.username)) [
        | inl p ↦ elim (Bool-cases (differs first_name u.first_name)) [
          | inl q ↦ rw (p, q) (save_user-RoomsInv k _ s (rw e refl) v)
          | inr q ↦ rw (p, q) (save_user-RoomsInv k _ s (rw e refl) v)
        ]
        | inr p ↦ elim (Bool-cases (differs first_name u.first_name)) [
          | inl q ↦ rw (p, q) (save_user-RoomsInv k _ s (rw e refl) v)
          | inr q ↦ rw (p, q) v
        ]
      ]

  pub get_or_create_user-RoomsInv :
      (k : ℕ) (username first_name : Option String) (invited_by : Option ℕ) (s : State d)
      → RoomsInv d s
      → RoomsInv d (get_or_create_user d k username first_name invited_by s)
  unfolding get_or_create_user
  get_or_create_user-RoomsInv k username first_name invited_by s v =
      elim (Option-cases (get_user d k s)) [
        | inl e ↦
            rw (e, get_or_create_user)
              (save_user-RoomsInv k (new_user username first_name invited_by) s (rw e refl) v)
        | inr (u, e) ↦
            rw (e, get_or_create_user) (refresh_user-RoomsInv k u username first_name s e v)
      ]

  pub deduct_coins-RoomsInv :
      (k amount : ℕ) (r : Reason) (s : State d)
      → RoomsInv d s
      → RoomsInv d (deduct_coins d k amount r s).0
  unfolding deduct_coins
  deduct_coins-RoomsInv k amount r s v = elim (Option-cases (get_user d k s)) [
    | inl e ↦ rw (e, deduct_coins) v
    | inr (u, e) ↦ elim (Bool-cases (ltb u.coins amount)) [
      | inl short ↦ rw (e, short, deduct_coins) v
      | inr enough ↦ rw (e, enough, deduct_coins) (book-RoomsInv d k u _ (neg amount) r s e v)
    ]
  ]

  pub refund_coins-RoomsInv :
      (k amount : ℕ) (r : Reason) (s : State d)
      → RoomsInv d s
      → RoomsInv d (refund_coins d k amount r s).0
  unfolding refund_coins
  refund_coins-RoomsInv k amount r s v = elim (Option-cases (get_user d k s)) [
    | inl e ↦ rw (e, refund_coins) v
    | inr (u, e) ↦ rw (e, refund_coins) (book-RoomsInv d k u _ (pos amount) r s e v)
  ]

  pub grant_report_reward-RoomsInv :
      (k amount : ℕ) (report : Option ℕ) (s : State d)
      → RoomsInv d s
      → RoomsInv d (grant_report_reward d k amount report s).0
  unfolding grant_report_reward
  grant_report_reward-RoomsInv k amount report s v = elim (Option-cases (get_user d k s)) [
    | inl e ↦ rw (e, grant_report_reward) v
    | inr (u, e) ↦ rw (e, grant_report_reward) (book-RoomsInv d k u _ (pos amount) _ s e v)
  ]

  pub grant_referral_bonus-RoomsInv :
      (inviter invitee : ℕ) (s : State d)
      → RoomsInv d s
      → RoomsInv d (grant_referral_bonus d inviter invitee s).0
  unfolding grant_referral_bonus
  grant_referral_bonus-RoomsInv inviter invitee s v = elim (Option-cases (get_user d inviter s)) [
    | inl e ↦ rw (e, grant_referral_bonus) v
    | inr (u, e) ↦
        elim (Bool-cases (rewarded inviter invitee (d.transactions.rows s.transactions))) [
          | inl before ↦ rw (e, before, grant_referral_bonus) v
          | inr first ↦
              rw (e, first, grant_referral_bonus) (book-RoomsInv d inviter u _ (pos 5) _ s e v)
        ]
  ]

  -- A write that keeps the user's room moves nobody.
  active-save_user :
      (j k : ℕ) (v : User) (s : State d)
      → v.active_room_id ≡ active d k s
      → active d j (save_user d k v s) ≡ active d j s
  active-save_user j k v s same =
      ground (arith, same, eq_of_test j k, d.users.get-put j k v s.users)

  active-refresh_user :
      (j k : ℕ) (u : User) (username first_name : Option String) (s : State d)
      → get_user d k s ≡ some u
      → active d j (refresh_user d k u username first_name s) ≡ active d j s
  unfolding refresh_user
  active-refresh_user j k u username first_name s e =
      elim (Bool-cases (differs username u.username)) [
        | inl p ↦ elim (Bool-cases (differs first_name u.first_name)) [
          | inl q ↦ rw (p, q) (active-save_user j k _ s (rw e refl))
          | inr q ↦ rw (p, q) (active-save_user j k _ s (rw e refl))
        ]
        | inr p ↦ elim (Bool-cases (differs first_name u.first_name)) [
          | inl q ↦ rw (p, q) (active-save_user j k _ s (rw e refl))
          | inr q ↦ rw (p, q) refl
        ]
      ]

  pub active-get_or_create_user :
      (j k : ℕ) (username first_name : Option String) (invited_by : Option ℕ) (s : State d)
      → active d j (get_or_create_user d k username first_name invited_by s) ≡ active d j s
  unfolding get_or_create_user
  active-get_or_create_user j k username first_name invited_by s =
      elim (Option-cases (get_user d k s)) [
        | inl e ↦
            rw (e, get_or_create_user)
              (active-save_user j k (new_user username first_name invited_by) s (rw e refl))
        | inr (u, e) ↦
            rw (e, get_or_create_user) (active-refresh_user j k u username first_name s e)
      ]
