-- ===== src/Db/Rooms/Moves.antt =====
-- The error codes and results of the room operations of db/queries.py, and the writes that they
-- share.
use bluechat.Base.{ℕ, Bool, true, false, Option, none, some, List, [], ◌∷◌, ◌==◌, if◌then◌else◌}
use bluechat.Db.Models.{Database, State, User, ChatRoom, RoomStatus}
use bluechat.Db.Users.{get_user, save_user}

-- The error codes. `in_1to1` and `in_queue` are those that a conflict check returns.
pub data RoomError : Type 0 where
  not_found has_active_room insufficient_coins room_not_open room_full : RoomError
  is_owner not_owner cannot_kick_self not_a_member in_1to1 in_queue : RoomError

pub data Outcome {ℓ} (A : Type ℓ) : Type ℓ where
  ok : A → Outcome A
  err : RoomError → Outcome A

infixl 5 ◌>>=◌ ◌>>◌
abbrev pub ◌>>=◌ {ℓ κ} : {A : Type ℓ} {B : Type κ} → Outcome A → (A → Outcome B) → Outcome B
ok a >>= f = f a
err e >>= f = err e

abbrev pub ◌>>◌ {ℓ} : {B : Type ℓ} → Outcome (Unit {0}) → Outcome B → Outcome B
m >> k = m >>= λ _. k

abbrev pub or_fail {ℓ} : {A : Type ℓ} → Option A → RoomError → Outcome A
or_fail none e = err e
or_fail (some a) e = ok a

abbrev pub require : Bool → RoomError → Outcome (Unit {0})
require true e = ok tt
require false e = err e

abbrev pub no_conflict : Option RoomError → Outcome (Unit {0})
no_conflict none = ok tt
no_conflict (some e) = err e

abbrev pub active_room : Option User → Option ℕ
active_room none = none
active_room (some u) = u.active_room_id

abbrev pub is_open : RoomStatus → Bool
is_open RoomStatus.opened = true
is_open _ = false

abbrev pub is_deleted : RoomStatus → Bool
is_deleted RoomStatus.deleted = true
is_deleted _ = false

pub record LeaveInfo : Type 0 where
  pub room_id : ℕ
  pub owner_id : ℕ
  pub auto_deleted : Bool
  pub remaining_member_ids : List ℕ

pub record KickInfo : Type 0 where
  pub room_id : ℕ
  pub target_user_id : ℕ
  pub auto_deleted : Bool
  pub remaining_member_ids : List ℕ

pub record MembersInfo : Type 0 where
  pub room_id : ℕ
  pub member_ids : List ℕ

pub data BanOutcome : Type 0 where
  owner_banned member_banned_last member_banned : BanOutcome

pub record BanInfo : Type 0 where
  pub outcome : BanOutcome
  pub room_id : ℕ
  pub remaining_member_ids : List ℕ

-- `[uid for uid in ids if uid != user_id]`
abbrev pub without : ℕ → List ℕ → List ℕ
without k [] = []
without k (j ∷ js) = if j == k then without k js else j ∷ without k js

module _ (d : Database) where
  abbrev pub get_room : ℕ → State d → Option ChatRoom
  get_room r s = d.rooms.get r s.rooms

  abbrev pub save_room : ℕ → ChatRoom → State d → State d
  save_room r room s = record s { rooms = d.rooms.put r room s.rooms }

  -- `user.active_room_id = ...`: the one column is written.
  unfoldable pub set_active : ℕ → Option ℕ → State d → State d
  set_active k room_id s = elim (get_user d k s) [
    | none ↦ s
    | some u ↦ save_user d k (record u { active_room_id = room_id }) s
  ]

  -- `for uid in ids: user.active_room_id = None`, for the users that exist.
  unfoldable pub release_all : List ℕ → State d → State d
  unfolding set_active
  release_all [] s = s
  release_all (k ∷ ks) s = release_all ks (set_active k none s)

  -- The room is gone: its status, its members' rows, and their `active_room_id`.
  unfoldable pub disband : ℕ → ChatRoom → List ℕ → State d → State d
  unfolding release_all
  disband r room ids s =
      let freed : State d = release_all ids s in
      record freed {
        rooms = d.rooms.put r (record room { status = RoomStatus.deleted }) freed.rooms;
        members = d.members.clear r freed.members;
      }

  -- The row of one member is deleted, and his `active_room_id` cleared.
  unfoldable pub remove_member : ℕ → ℕ → State d → State d
  unfolding set_active
  remove_member r k s = set_active k none (record s { members = d.members.remove r k s.members })

  unfoldable pub add_member : ℕ → ℕ → State d → State d
  unfolding set_active
  add_member r k s = set_active k (some r) (record s { members = d.members.insert r k s.members })
