-- ===== src/Db/History.antt =====
-- Any history of the transactions of db/queries.py.
use bluechat.Base.{ℕ, ◌≡◌, Bool, true, ◌&&◌, Option, List, [], ◌∷◌, refl, String, arith}
use bluechat.Db.Models.{Database, State, User, RoomGenderPref, Reason}
use bluechat.Db.Users.{get_user, get_or_create_user, add_warning, ban_user}
use bluechat.Db.Coins.{deduct_coins, refund_coins, grant_report_reward, grant_referral_bonus}
use bluechat.Db.Coins.Balance.{
  Balanced, deduct_coins-Balanced, refund_coins-Balanced, grant_report_reward-Balanced,
  grant_referral_bonus-Balanced, get_or_create_user-Balanced,
}
use bluechat.Db.Moderation.{
  add_warning-Balanced, add_warning-RoomsInv, ban_user-Balanced, ban_user-RoomsInv,
}
use bluechat.Db.Rooms.{
  RoomError, create_chat_room, join_chat_room, leave_chat_room, delete_chat_room, kick_room_member,
  remove_banned_user_from_room, set_room_open_status,
}
use bluechat.Db.Rooms.Effects.{still_there}
use bluechat.Db.Rooms.Invariant.{RoomsInv}
use bluechat.Db.Rooms.Operations.{
  leave_chat_room-RoomsInv, kick_room_member-RoomsInv, delete_chat_room-RoomsInv,
  set_room_open_status-RoomsInv, join_chat_room-RoomsInv, remove_banned_user_from_room-RoomsInv,
}
use bluechat.Db.Rooms.Creation.{create_chat_room-RoomsInv}
use bluechat.Db.Rooms.Saves.{
  get_or_create_user-RoomsInv, deduct_coins-RoomsInv, refund_coins-RoomsInv,
  grant_report_reward-RoomsInv, grant_referral_bonus-RoomsInv,
}
use bluechat.Db.Rooms.Coins.{
  leave_chat_room-Balanced, kick_room_member-Balanced, delete_chat_room-Balanced,
  set_room_open_status-Balanced, join_chat_room-Balanced, remove_banned_user_from_room-Balanced,
  create_chat_room-Balanced,
}

-- One committed transaction. Where the source reads the caller's row before it locks the room,
-- the first read is part of the call, and may be out of date; an expulsion reads the row as it is.
pub data Call : Type 0 where
  registers : ℕ → Option String → Option String → Option ℕ → Call
  deducts refunds : ℕ → ℕ → Reason → Call
  rewards : ℕ → ℕ → Option ℕ → Call
  refers : ℕ → ℕ → Call
  warns : ℕ → Option ℕ → Call
  bans : ℕ → Call
  creates : ℕ → RoomGenderPref → ℕ → ℕ → Option RoomError → Call
  joins : ℕ → ℕ → Option RoomError → Call
  leaves : Option User → ℕ → Call
  deletes : Option User → ℕ → Call
  kicks : Option User → ℕ → ℕ → Call
  sets_open : Option User → ℕ → Bool → Call
  expels : ℕ → Call

module _ (d : Database) where
  pub step : State d → Call → State d
  step s (registers k username first_name invited_by) =
      get_or_create_user d k username first_name invited_by s
  step s (deducts k amount reason) = (deduct_coins d k amount reason s).0
  step s (refunds k amount reason) = (refund_coins d k amount reason s).0
  step s (rewards k amount report) = (grant_report_reward d k amount report s).0
  step s (refers inviter invitee) = (grant_referral_bonus d inviter invitee s).0
  step s (warns k report) = (add_warning d k report s).0
  step s (bans k) = ban_user d k s
  step s (creates owner pref capacity cost conflict) =
      (create_chat_room d owner pref capacity cost conflict s).0
  step s (joins k r conflict) = (join_chat_room d k r conflict s).0
  step s (leaves peek k) = (leave_chat_room d peek k s).0
  step s (deletes peek owner) = (delete_chat_room d peek owner s).0
  step s (kicks peek owner target) = (kick_room_member d peek owner target s).0
  step s (sets_open peek owner opens) = (set_room_open_status d peek owner opens s).0
  step s (expels k) = (remove_banned_user_from_room d (get_user d k s) k s).0

  pub run : State d → List Call → State d
  unfolding step
  run s [] = s
  run s (c ∷ cs) = run (step s c) cs

  -- No leave rests on a first read that saw the user in a room that is not his any more.
  abbrev pub is_current : State d → Call → Bool
  is_current s (leaves peek k) = still_there d peek k s
  is_current s _ = true

  unfoldable pub all_current : State d → List Call → Bool
  unfolding step
  all_current s [] = true
  all_current s (c ∷ cs) = is_current s c && all_current (step s c) cs

  step-RoomsInv :
      (s : State d) (c : Call) → is_current s c ≡ true → RoomsInv d s → RoomsInv d (step s c)
  unfolding step
  step-RoomsInv s (registers k username first_name invited_by) now v =
      get_or_create_user-RoomsInv d k username first_name invited_by s v
  step-RoomsInv s (deducts k amount reason) now v = deduct_coins-RoomsInv d k amount reason s v
  step-RoomsInv s (refunds k amount reason) now v = refund_coins-RoomsInv d k amount reason s v
  step-RoomsInv s (rewards k amount report) now v =
      grant_report_reward-RoomsInv d k amount report s v
  step-RoomsInv s (refers inviter invitee) now v =
      grant_referral_bonus-RoomsInv d inviter invitee s v
  step-RoomsInv s (warns k report) now v = add_warning-RoomsInv d k report s v
  step-RoomsInv s (bans k) now v = ban_user-RoomsInv d k s v
  step-RoomsInv s (creates owner pref capacity cost conflict) now v =
      create_chat_room-RoomsInv d owner pref capacity cost conflict s v
  step-RoomsInv s (joins k r conflict) now v = join_chat_room-RoomsInv d k r conflict s v
  step-RoomsInv s (leaves peek k) now v = leave_chat_room-RoomsInv d peek k s now v
  step-RoomsInv s (deletes peek owner) now v = delete_chat_room-RoomsInv d peek owner s v
  step-RoomsInv s (kicks peek owner target) now v =
      kick_room_member-RoomsInv d peek owner target s v
  step-RoomsInv s (sets_open peek owner opens) now v =
      set_room_open_status-RoomsInv d peek owner opens s v
  step-RoomsInv s (expels k) now v =
      remove_banned_user_from_room-RoomsInv d (get_user d k s) k s refl v

  step-Balanced : (s : State d) (c : Call) → Balanced d s → Balanced d (step s c)
  unfolding step
  step-Balanced s (registers k username first_name invited_by) b =
      get_or_create_user-Balanced d k username first_name invited_by s b
  step-Balanced s (deducts k amount reason) b = deduct_coins-Balanced d k amount reason s b
  step-Balanced s (refunds k amount reason) b = refund_coins-Balanced d k amount reason s b
  step-Balanced s (rewards k amount report) b = grant_report_reward-Balanced d k amount report s b
  step-Balanced s (refers inviter invitee) b = grant_referral_bonus-Balanced d inviter invitee s b
  step-Balanced s (warns k report) b = add_warning-Balanced d k report s b
  step-Balanced s (bans k) b = ban_user-Balanced d k s b
  step-Balanced s (creates owner pref capacity cost conflict) b =
      create_chat_room-Balanced d owner pref capacity cost conflict s b
  step-Balanced s (joins k r conflict) b = join_chat_room-Balanced d k r conflict s b
  step-Balanced s (leaves peek k) b = leave_chat_room-Balanced d peek k s b
  step-Balanced s (deletes peek owner) b = delete_chat_room-Balanced d peek owner s b
  step-Balanced s (kicks peek owner target) b = kick_room_member-Balanced d peek owner target s b
  step-Balanced s (sets_open peek owner opens) b =
      set_room_open_status-Balanced d peek owner opens s b
  step-Balanced s (expels k) b = remove_banned_user_from_room-Balanced d (get_user d k s) k s b

  -- If it holds at the start, then after any history of these transactions, in which no leave and no
  -- expulsion rests on a first read of the user's row that is out of date: the membership rows agree with the
  -- users' `active_room_id`, so nobody is in two rooms; every room has 2 to 5 places and no more
  -- members than places; a room that is not deleted has its owner in it; a deleted one is empty.
  pub run-RoomsInv :
      (s : State d) (cs : List Call)
      → all_current s cs ≡ true
      → RoomsInv d s
      → RoomsInv d (run s cs)
  unfolding run all_current
  run-RoomsInv s [] now v = v
  run-RoomsInv s (c ∷ cs) now v =
      run-RoomsInv (step s c) cs (ground (arith, now)) (step-RoomsInv s c (ground (arith, now)) v)

  -- If it holds at the start, then after any history of these transactions each user's balance
  -- and recorded withdrawals together make up the gift of 10 and the recorded deposits.
  pub run-Balanced : (s : State d) (cs : List Call) → Balanced d s → Balanced d (run s cs)
  unfolding run
  run-Balanced s [] b = b
  run-Balanced s (c ∷ cs) b = run-Balanced (step s c) cs (step-Balanced s c b)
