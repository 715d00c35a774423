-- ===== src/Db/Models.antt =====
-- The tables of db/models.py that the operations below read and write, and the state of the
-- database. Display texts that no decision reads, locations and time stamps are left out.
use bluechat.Base.{ℕ, Bool, Option, String}
use bluechat.Base.Int.{ℤ}
use bluechat.Db.Tables.{Table, Journal, Pairs}

pub data Gender : Type 0 where
  male female unset : Gender

-- Also the values of `User.next_gender_pref` and of a room search.
pub data RoomGenderPref : Type 0 where
  male female any : RoomGenderPref

-- `open` and `closed` as the members can enter, or not; `deleted` for good.
pub data RoomStatus : Type 0 where
  opened closed deleted : RoomStatus

pub record User : Type 0 where
  pub username : Option String
  pub first_name : Option String
  pub display_name : Option String
  pub gender : Gender
  pub age : Option ℕ
  pub coins : ℕ
  pub invited_by : Option ℕ
  pub is_banned : Bool
  pub is_silent : Bool
  pub warning_count : ℕ
  pub next_gender_pref : Option RoomGenderPref
  pub total_chats : ℕ
  pub active_room_id : Option ℕ

pub record ChatRoom : Type 0 where
  pub owner_id : ℕ
  pub gender_pref : RoomGenderPref
  pub capacity : ℕ
  pub status : RoomStatus

-- `ended_by` is also the mark that `ended_at` is set.
pub record ChatSession : Type 0 where
  pub user_a_id : ℕ
  pub user_b_id : ℕ
  pub ended_by : Option ℕ

-- The `reason` column; a formatted reason keeps the id that it is formatted with.
pub data Reason : Type 0 where
  gender_search failed_chat_refund search_timeout_refund search_cancel_refund : Reason
  chat_room_create chat_room_join_search : Reason
  room_join_conflict_refund room_join_cancel_refund room_join_timeout_refund : Reason
  chat_request_cost chat_request_reject_refund chat_request_timeout_refund direct_msg_cost : Reason
  report_reward : Option ℕ → Reason
  referral_bonus : ℕ → Reason

pub record CoinTransaction : Type 0 where
  pub user_id : ℕ
  pub amount : ℤ
  pub reason : Reason

pub record Warning : Type 0 where
  pub user_id : ℕ
  pub report_id : Option ℕ
  pub warning_number : ℕ

pub record Database : Type 1 where
  pub users : Table User
  pub rooms : Table ChatRoom
  pub sessions : Table ChatSession
  pub members : Pairs
  pub blocked : Pairs
  pub transactions : Journal CoinTransaction
  pub warnings : Journal Warning

pub record State (d : Database) : Type 0 where
  pub users : d.users.Rows
  pub rooms : d.rooms.Rows
  pub sessions : d.sessions.Rows
  pub members : d.members.Rows
  pub blocked : d.blocked.Rows
  pub transactions : d.transactions.Rows
  pub warnings : d.warnings.Rows
