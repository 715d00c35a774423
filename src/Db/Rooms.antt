-- ===== src/Db/Rooms.antt =====
-- The chat rooms of db/queries.py, each operation one transaction. An operation that reads the
-- caller's row before it takes the room's lock is given that first read as `peek`: the row may
-- have changed by the time the lock is granted, and what the session has loaded is not refreshed. `conflict` is what the callback
-- `conflict_check` returns, `none` if there is no callback or no conflict.
use bluechat.Base.{
  ℕ, ◌-◌, Bool, true, false, not, Option, none, some, List, [], ◌∷◌, ltb, leb, ◌==◌, if◌then◌else◌,
  is_id, is_some, min,
}
use Prim.Native.Nat.{max}
use bluechat.Base.Int.{neg}
use bluechat.Db.Models.{Database, State, User, ChatRoom, RoomStatus, RoomGenderPref, Reason}
use bluechat.Db.Users.{get_user, save_user}
use bluechat.Db.Coins.{book}
mod Moves
pub mod Effects
pub mod Coins
pub mod Guards
pub mod Operations
pub mod Creation
pub mod Saves
pub mod Moved
pub mod Arrivals
pub mod Outcomes
pub mod Departures
pub mod Outdated
pub mod Invariant
pub use bluechat.Db.Rooms.Moves.{
  RoomError, Outcome, ◌>>=◌, ◌>>◌, or_fail, require, no_conflict, active_room, is_open, is_deleted,
  LeaveInfo, KickInfo, MembersInfo, BanOutcome, BanInfo, without, get_room, save_room, ok, err,
}
unfoldable pub use bluechat.Db.Rooms.Moves.{
  set_active, release_all, disband, remove_member, add_member,
}

module _ (d : Database) where
  pub may_create : ℕ → ℕ → Option RoomError → State d → Outcome User
  may_create owner cost conflict s = do
    u ← or_fail (get_user d owner s) RoomError.not_found
    require (not (is_some u.active_room_id)) RoomError.has_active_room
    no_conflict conflict
    require (leb cost u.coins) RoomError.insufficient_coins
    ok u

  pub create_chat_room :
      ℕ → RoomGenderPref → ℕ → ℕ → Option RoomError → State d → State d × Outcome ℕ
  unfolding may_create add_member
  create_chat_room owner gender_pref capacity cost conflict s =
      elim (may_create owner cost conflict s) [
        | err e ↦ (s, err e)
        | ok u ↦
            let r : ℕ = d.rooms.next_id s.rooms in
            let room : ChatRoom = record {
              owner_id = owner;
              gender_pref = gender_pref;
              capacity = max 2 (min 5 capacity);
              status = RoomStatus.opened;
            } in
            let paid : State d =
              book d owner u (u.coins - cost) (neg cost) Reason.chat_room_create s in
            (add_member d r owner (save_room d r room paid), ok r)
      ]

  pub may_join : ℕ → ℕ → Option RoomError → State d → Outcome User
  may_join k r conflict s = do
    room ← or_fail (get_room d r s) RoomError.not_found
    require (is_open room.status) RoomError.room_not_open
    u ← or_fail (get_user d k s) RoomError.not_found
    require (not (is_some u.active_room_id)) RoomError.has_active_room
    no_conflict conflict
    require (ltb (d.members.count r s.members) room.capacity) RoomError.room_full
    ok u

  pub join_chat_room : ℕ → ℕ → Option RoomError → State d → State d × Outcome ℕ
  unfolding may_join add_member
  join_chat_room k r conflict s = elim (may_join k r conflict s) [
    | err e ↦ (s, err e)
    | ok _ ↦ (add_member d r k s, ok r)
  ]

  -- The part that `leave_chat_room` and `kick_room_member` share: the member goes, and if only
  -- the owner is left the room goes too.
  pub vacate : ℕ → ChatRoom → ℕ → State d → State d × Bool × List ℕ
  unfolding remove_member disband
  vacate r room k s =
      let left : State d = remove_member d r k s in
      let remaining : List ℕ = d.members.user_ids r left.members in
      if leb (d.members.count r left.members) 1
      then (disband d r room remaining left, true, remaining)
      else (left, false, remaining)

  -- The second select of the user, under the lock, finds his row, but hands out the object that
  -- the session has loaded by the first read, with the values of then: `peek` again.
  pub may_leave : Option User → ℕ → State d → Outcome (ℕ × ChatRoom)
  may_leave peek k s = do
    u ← or_fail peek RoomError.not_found
    r ← or_fail u.active_room_id RoomError.not_found
    room ← or_fail (get_room d r s) RoomError.not_found
    require (is_some (get_user d k s)) RoomError.not_found
    require (is_id r u.active_room_id) RoomError.not_found
    require (not (room.owner_id == k)) RoomError.is_owner
    ok (r, room)

  pub leave_chat_room : Option User → ℕ → State d → State d × Outcome LeaveInfo
  unfolding may_leave vacate
  leave_chat_room peek k s = elim (may_leave peek k s) [
    | err e ↦ (s, err e)
    | ok (r, room) ↦
        let (after, gone, remaining) = vacate r room k s in
        (
          after,
          ok (record {
            room_id = r;
            owner_id = room.owner_id;
            auto_deleted = gone;
            remaining_member_ids = remaining;
          }),
        )
  ]

  -- The caller's room, if he owns it.
  pub owned_room : Option User → ℕ → State d → Outcome (ℕ × ChatRoom)
  owned_room peek owner s = do
    r ← or_fail (active_room peek) RoomError.not_found
    room ← or_fail (get_room d r s) RoomError.not_found
    require (room.owner_id == owner) RoomError.not_owner
    ok (r, room)

  pub delete_chat_room : Option User → ℕ → State d → State d × Outcome MembersInfo
  unfolding owned_room disband
  delete_chat_room peek owner s = elim (owned_room peek owner s) [
    | err e ↦ (s, err e)
    | ok (r, room) ↦
        let ids : List ℕ = d.members.user_ids r s.members in
        (disband d r room ids s, ok (record { room_id = r; member_ids = ids }))
  ]

  pub may_kick : Option User → ℕ → ℕ → State d → Outcome (ℕ × ChatRoom)
  unfolding owned_room
  may_kick peek owner target s = do
    (r, room) ← owned_room peek owner s
    require (not (target == owner)) RoomError.cannot_kick_self
    u ← or_fail (get_user d target s) RoomError.not_a_member
    require (is_id r u.active_room_id) RoomError.not_a_member
    ok (r, room)

  pub kick_room_member : Option User → ℕ → ℕ → State d → State d × Outcome KickInfo
  unfolding may_kick vacate
  kick_room_member peek owner target s = elim (may_kick peek owner target s) [
    | err e ↦ (s, err e)
    | ok (r, room) ↦
        let (after, gone, remaining) = vacate r room target s in
        (
          after,
          ok (record {
            room_id = r;
            target_user_id = target;
            auto_deleted = gone;
            remaining_member_ids = remaining;
          }),
        )
  ]

  -- A room that is there and not deleted.
  pub live_room : ℕ → State d → Outcome ChatRoom
  live_room r s = do
    room ← or_fail (get_room d r s) RoomError.not_found
    require (not (is_deleted room.status)) RoomError.not_found
    ok room

  pub remove_banned : ℕ → ChatRoom → ℕ → State d → State d × BanInfo
  unfolding remove_member
  remove_banned r room k s =
      let left : State d = remove_member d r k s in
      let remaining : List ℕ = d.members.user_ids r left.members in
      if leb (d.members.count r left.members) 1
      then (
        save_room d r (record room { status = RoomStatus.closed }) left,
        record {
          outcome = BanOutcome.member_banned_last;
          room_id = r;
          remaining_member_ids = remaining;
        },
      )
      else (
        left,
        record {
          outcome = BanOutcome.member_banned;
          room_id = r;
          remaining_member_ids = remaining;
        },
      )

  pub close_for_ban : ℕ → ChatRoom → ℕ → State d → State d × BanInfo
  close_for_ban r room k s = (
    save_room d r (record room { status = RoomStatus.closed }) s,
    record {
      outcome = BanOutcome.owner_banned;
      room_id = r;
      remaining_member_ids = without k (d.members.user_ids r s.members);
    },
  )

  -- Here the user's row is read once, before the room is locked, and not again.
  pub remove_banned_user_from_room : Option User → ℕ → State d → State d × Option BanInfo
  unfolding live_room remove_banned close_for_ban
  remove_banned_user_from_room none k s = (s, none)
  remove_banned_user_from_room (some u) k s = elim u.active_room_id [
    | none ↦ (s, none)
    | some r ↦ elim (live_room r s) [
      | err e ↦ (s, none)
      | ok room ↦
          let (after, info) =
            if room.owner_id == k then close_for_ban r room k s else remove_banned r room k s in
          (after, some info)
    ]
  ]

  pub may_set_open : Option User → ℕ → State d → Outcome (ℕ × ChatRoom)
  unfolding live_room
  may_set_open peek owner s = do
    r ← or_fail (active_room peek) RoomError.not_found
    room ← live_room r s
    require (room.owner_id == owner) RoomError.not_owner
    ok (r, room)

  pub set_room_open_status : Option User → ℕ → Bool → State d → State d × Outcome MembersInfo
  unfolding may_set_open
  set_room_open_status peek owner opens s = elim (may_set_open peek owner s) [
    | err e ↦ (s, err e)
    | ok (r, room) ↦
        let status : RoomStatus = if opens then RoomStatus.opened else RoomStatus.closed in
        (
          save_room d r (record room { status = status }) s,
          ok (record { room_id = r; member_ids = d.members.user_ids r s.members }),
        )
  ]
