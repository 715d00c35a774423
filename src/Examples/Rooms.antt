-- ===== src/Examples/Rooms.antt =====
-- A town of two rooms, and what happens in them. Rooms 0 and 5 belong to users 1 and 4; user 3 is
-- in room 0, user 2 in room 5, and user 6 in none.
use bluechat.Base.{
  ℕ, ◌≡◌, refl, true, none, some, List, [], ◌∷◌, ◌==◌, arith, Bool-cases, eq_of_test, inl, inr,
}
use bluechat.Db.Models.{State, User, Gender, ChatRoom, RoomStatus, RoomGenderPref}
use bluechat.Db.Users.{new_user}
use bluechat.Db.Rooms.{
  join_chat_room, leave_chat_room, kick_room_member, delete_chat_room, remove_banned_user_from_room,
  get_room, LeaveInfo, ok,
}
use bluechat.Db.Rooms.Invariant.{RoomsInv, RoomOk}
use bluechat.Db.Rooms.Outcomes.{Joined, join_chat_room-Joined}
use bluechat.Db.Rooms.Departures.{
  Left, Kicked, Deleted, leave_chat_room-Left, kick_room_member-Kicked, delete_chat_room-Deleted,
  remove_banned_user_from_room_stale,
}
use bluechat.Db.Rooms.Outdated.{leave_chat_room_stale}
use bluechat.Db.Rooms.Effects.{active}
use bluechat.Db.History.{Call, all_current, run, run-RoomsInv, run-Balanced}
use bluechat.Db.Coins.Balance.{Balanced}
use bluechat.Memory.{memory}

abbrev pub guest : User
guest = record (new_user none none none) { gender = Gender.male }

abbrev pub lodger : ℕ → User
lodger r = record guest { active_room_id = some r }

abbrev pub room_of : ℕ → ℕ → ChatRoom
room_of owner capacity = record {
  owner_id = owner;
  gender_pref = RoomGenderPref.any;
  capacity = capacity;
  status = RoomStatus.opened;
}

abbrev pub nothing : State memory
nothing = record {
  users = [];
  rooms = [];
  sessions = [];
  members = [];
  blocked = [];
  transactions = [];
  warnings = [];
}

abbrev pub town : State memory
town = record nothing {
  users = (1, lodger 0) ∷ (2, lodger 5) ∷ (3, lodger 0) ∷ (4, lodger 5) ∷ (6, guest) ∷ [];
  rooms = (0, room_of 1 3) ∷ (5, room_of 4 2) ∷ [];
  members = (0, 1) ∷ (0, 3) ∷ (5, 4) ∷ (5, 2) ∷ [];
}

town_fits : (r : ℕ) → RoomOk memory town.members r (get_room memory r town)
town_fits r = elim (Bool-cases (r == 0)) [
  | inl first ↦ rw (eq_of_test r 0 first) (omega arith, omega arith, omega arith, refl)
  | inr e ↦ elim (Bool-cases (r == 5)) [
    | inl second ↦ rw (eq_of_test r 5 second) (omega arith, omega arith, omega arith, refl)
    | inr f ↦ ground (arith, e, f)
  ]
]

pub town-RoomsInv : RoomsInv memory town
town-RoomsInv = record { agree = λ r k. ground arith; fits = town_fits }

nothing-RoomsInv : RoomsInv memory nothing
nothing-RoomsInv = record { agree = λ r k. refl; fits = λ r. refl }

-- Two users come; one opens a room, the other joins it and is warned, and the owner deletes it
-- after a bonus for bringing a third.
abbrev day : List Call
day =
    Call.registers 1 none none none
    ∷ Call.registers 2 none none (some 1)
    ∷ Call.creates 1 RoomGenderPref.any 9 5 none
    ∷ Call.joins 2 0 none
    ∷ Call.warns 2 none
    ∷ Call.refers 1 2
    ∷ Call.deletes (some (lodger 0)) 1
    ∷ []

-- In the town, 3 leaves room 0 first, and 6, who has read his row before he came, leaves none.
abbrev town_day : List Call
town_day = Call.leaves (some (lodger 0)) 3 ∷ Call.leaves (some guest) 6 ∷ day

town_day_current : all_current memory town town_day ≡ true
unfolding all_current
town_day_current = refl

run-RoomsInv_example : RoomsInv memory (run memory town town_day)
run-RoomsInv_example = run-RoomsInv memory town town_day town_day_current town-RoomsInv

run-Balanced_example : Balanced memory (run memory nothing day)
run-Balanced_example = run-Balanced memory nothing day (λ k. refl)

join_chat_room-Joined_example : Joined memory 6 0 none town (join_chat_room memory 6 0 none town)
join_chat_room-Joined_example = join_chat_room-Joined memory 6 0 none town town-RoomsInv

leave_chat_room-Left_example : Left memory 3 town (leave_chat_room memory (some (lodger 0)) 3 town)
leave_chat_room-Left_example =
    leave_chat_room-Left memory (some (lodger 0)) 3 town refl town-RoomsInv

leave_chat_room_stale_example :
    let (s', answer) = leave_chat_room memory (some (lodger 0)) 2 town in
    (memory.members.has 5 2 s'.members ≡ true)
    × (active memory 2 s' ≡ none)
    × ((info : LeaveInfo) × (answer ≡ ok info) × (info.room_id ≡ 0))
leave_chat_room_stale_example =
    leave_chat_room_stale memory (lodger 0) 2 0 5 (room_of 1 3) town town-RoomsInv refl refl
      (omega arith) refl (omega arith)

kick_room_member-Kicked_example :
    Kicked memory 4 2 town (kick_room_member memory (some (lodger 5)) 4 2 town)
kick_room_member-Kicked_example =
    kick_room_member-Kicked memory (some (lodger 5)) 4 2 town town-RoomsInv

delete_chat_room-Deleted_example :
    Deleted memory 1 town (delete_chat_room memory (some (lodger 0)) 1 town)
delete_chat_room-Deleted_example = delete_chat_room-Deleted memory (some (lodger 0)) 1 town

remove_banned_user_from_room_stale_example :
    let s' = (remove_banned_user_from_room memory (some (lodger 0)) 2 town).0 in
    (memory.members.has 5 2 s'.members ≡ true) × (active memory 2 s' ≡ none)
remove_banned_user_from_room_stale_example =
    remove_banned_user_from_room_stale memory (lodger 0) 2 0 5 (room_of 1 3) town town-RoomsInv refl
      refl (omega arith) refl (λ e. cc) (omega arith)
