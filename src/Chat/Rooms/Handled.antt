-- ===== src/Chat/Rooms/Handled.antt =====
-- Every handler of the chat rooms keeps the rooms in order and the mirror right.
use bluechat.Base.{
  ℕ, ◌≡◌, refl, inl, inr, Bool, false, not, Option, none, some, ◌==◌, if◌then◌else◌, elem, arith,
  Bool-cases,
}
use bluechat.Db.Models.{Database, State, User, RoomGenderPref}
use bluechat.Db.Users.{get_user}
use bluechat.Db.Rooms.{
  RoomError, Outcome, ok, err, LeaveInfo, KickInfo, MembersInfo, BanInfo, without, leave_chat_room,
  delete_chat_room, kick_room_member, create_chat_room, set_room_open_status,
  remove_banned_user_from_room,
}
use bluechat.Db.Rooms.Effects.{read_now, active}
use bluechat.Db.Rooms.Invariant.{RoomsInv}
use bluechat.Db.Rooms.Departures.{
  Left, Kicked, Deleted, leave_chat_room-Left, kick_room_member-Kicked, delete_chat_room-Deleted,
}
use bluechat.Db.Rooms.Operations.{
  leave_chat_room-RoomsInv, kick_room_member-RoomsInv, delete_chat_room-RoomsInv,
  set_room_open_status-RoomsInv, remove_banned_user_from_room-RoomsInv,
}
use bluechat.Db.Rooms.Creation.{create_chat_room-RoomsInv}
use bluechat.Db.Rooms.Moved.{
  active-create_chat_room, active-set_room_open_status, active-remove_banned_user_from_room,
}
use bluechat.Redis.Keys.{Redis}
use bluechat.Chat.RoomSearch.{Lobby, set_active_room}
use bluechat.Chat.Filling.{redis_conflict_check, clear_all, suppress_all}
use bluechat.Chat.Rooms.{
  room_create_cost, may_start_room_flow, after_creation, handle_capacity_selected, after_leave,
  leave_room_button, after_deletion, delete_room_confirm_callback, after_kick, handle_kick_command,
  after_status, set_room_status, after_expulsion, remove_from_room,
}
use bluechat.Chat.Rooms.Mirrored.{
  Mirrored, moved-Mirrored, after_refusal-Mirrored, after_vacancy-Mirrored,
  try_fill_room_from_queue-Mirrored, get_active_room-clear_all, get_active_room-suppress_all,
  get_active_room-clear_active_room,
}

module _ (d : Database) (c : Redis) where
  after_leave-Mirrored :
      (k : ℕ) (w : Lobby d c) (answer : State d × Outcome LeaveInfo)
      → Left d k w.db answer
      → RoomsInv d answer.0
      → Mirrored d c w
      → Mirrored d c (after_leave d c k w answer)
  unfolding after_leave
  after_leave-Mirrored k w (s, err e) same rooms v =
      after_refusal-Mirrored d c k e (record w { db = s }) (rw same v)
  after_leave-Mirrored k w (s, ok info) (room, er, inside, ne, owner, vacated) rooms v =
      after_vacancy-Mirrored d c info.room_id k room w s info.auto_deleted info.remaining_member_ids
        vacated rooms v

  pub leave_room_button-Mirrored :
      (k : ℕ) (w : Lobby d c) → Mirrored d c w → Mirrored d c (leave_room_button d c k w)
  unfolding leave_room_button
  leave_room_button-Mirrored k w v =
      after_leave-Mirrored k w (leave_chat_room d (get_user d k w.db) k w.db)
        (leave_chat_room-Left d (get_user d k w.db) k w.db (read_now d k w.db) v.rooms)
        (leave_chat_room-RoomsInv d (get_user d k w.db) k w.db (read_now d k w.db) v.rooms) v

  after_kick-Mirrored :
      (owner target : ℕ) (w : Lobby d c) (answer : State d × Outcome KickInfo)
      → Kicked d owner target w.db answer
      → RoomsInv d answer.0
      → Mirrored d c w
      → Mirrored d c (after_kick d c target w answer)
  unfolding after_kick
  after_kick-Mirrored owner target w (s, err e) same rooms v = rw same v
  after_kick-Mirrored owner target w (s, ok info) (room, er, owns, ne, who, inside, vacated) rooms
        v =
      after_vacancy-Mirrored d c info.room_id target room w s info.auto_deleted
        info.remaining_member_ids vacated rooms v

  pub handle_kick_command-Mirrored :
      (owner target : ℕ) (w : Lobby d c)
      → Mirrored d c w
      → Mirrored d c (handle_kick_command d c owner target w)
  unfolding handle_kick_command
  handle_kick_command-Mirrored owner target w v = elim (Bool-cases (target == owner)) [
    | inl own ↦ rw own v
    | inr other ↦ rw other (
        after_kick-Mirrored owner target w
          (kick_room_member d (get_user d owner w.db) owner target w.db)
          (kick_room_member-Kicked d (get_user d owner w.db) owner target w.db v.rooms)
          (kick_room_member-RoomsInv d (get_user d owner w.db) owner target w.db v.rooms) v)
  ]

  after_deletion-Mirrored :
      (k : ℕ) (w : Lobby d c) (answer : State d × Outcome MembersInfo)
      → Deleted d k w.db answer
      → RoomsInv d answer.0
      → Mirrored d c w
      → Mirrored d c (after_deletion d c k w answer)
  unfolding after_deletion
  after_deletion-Mirrored k w (s, err e) same rooms v =
      after_refusal-Mirrored d c k e (record w { db = s }) (rw same v)
  after_deletion-Mirrored k w (s, ok info) (room, er, owns, gone, empty, who, moved) rooms v =
      moved-Mirrored d c w (record w { db = s; redis = clear_all d c info.member_ids w.redis })
        (λ j. elem j info.member_ids) rooms moved
        (λ j. get_active_room-clear_all d c j info.member_ids w.redis) v

  pub delete_room_confirm_callback-Mirrored :
      (k : ℕ) (w : Lobby d c) → Mirrored d c w → Mirrored d c (delete_room_confirm_callback d c k w)
  unfolding delete_room_confirm_callback
  delete_room_confirm_callback-Mirrored k w v =
      after_deletion-Mirrored k w (delete_chat_room d (get_user d k w.db) k w.db)
        (delete_chat_room-Deleted d (get_user d k w.db) k w.db)
        (delete_chat_room-RoomsInv d (get_user d k w.db) k w.db v.rooms) v

  after_status-Mirrored :
      (k : ℕ) (opens : Bool) (w : Lobby d c) (answer : State d × Outcome MembersInfo)
      → ((j : ℕ) → active d j answer.0 ≡ active d j w.db)
      → RoomsInv d answer.0
      → Mirrored d c w
      → Mirrored d c (after_status d c k opens w answer)
  unfolding after_status
  after_status-Mirrored k opens w (s, err e) still rooms v =
      after_refusal-Mirrored d c k e (record w { db = s })
        (moved-Mirrored d c w (record w { db = s }) (λ j. false) rooms still (λ j. refl) v)
  after_status-Mirrored k opens w (s, ok info) still rooms v =
      moved-Mirrored d c w
        (record w {
          db = s;
          redis = suppress_all d c (not opens) (without k info.member_ids) w.redis;
        })
        (λ j. false) rooms still
        (λ j. get_active_room-suppress_all d c j (not opens) (without k info.member_ids) w.redis) v

  pub set_room_status-Mirrored :
      (k : ℕ) (opens : Bool) (w : Lobby d c)
      → Mirrored d c w
      → Mirrored d c (set_room_status d c k opens w)
  unfolding set_room_status
  set_room_status-Mirrored k opens w v =
      after_status-Mirrored k opens w (set_room_open_status d (get_user d k w.db) k opens w.db)
        (λ j. active-set_room_open_status d j (get_user d k w.db) k opens w.db)
        (set_room_open_status-RoomsInv d (get_user d k w.db) k opens w.db v.rooms) v

  after_expulsion-Mirrored :
      (k : ℕ) (w : Lobby d c) (answer : State d × Option BanInfo)
      → ((j q : ℕ) → j == k ≡ false → active d j answer.0 ≡ active d j w.db)
      → RoomsInv d answer.0
      → (answer.1 ≡ none → answer.0 ≡ w.db)
      → Mirrored d c w
      → Mirrored d c (after_expulsion d c k w answer)
  unfolding after_expulsion
  after_expulsion-Mirrored k w (s, none) moved rooms same v = rw (same refl) v
  after_expulsion-Mirrored k w (s, some info) moved rooms same v = record {
    rooms = rooms;
    mirror = λ j q h.
        ground
          (arith, h, get_active_room-clear_active_room d c j k w.redis, moved j q, v.mirror j q);
  }

  pub remove_from_room-Mirrored :
      (k : ℕ) (w : Lobby d c) → Mirrored d c w → Mirrored d c (remove_from_room d c k w)
  unfolding remove_from_room
  remove_from_room-Mirrored k w v =
      let peek : Option User = get_user d k w.db in
      let (others, unchanged) = active-remove_banned_user_from_room d peek k w.db in
      after_expulsion-Mirrored k w (remove_banned_user_from_room d peek k w.db) others
        (remove_banned_user_from_room-RoomsInv d peek k w.db refl v.rooms) unchanged v

  after_creation-Mirrored :
      (k : ℕ) (w : Lobby d c) (answer : State d × Outcome ℕ)
      → RoomsInv d answer.0
      → ((j : ℕ)
          → active d j answer.0 ≡ (elim answer.1 [
            | err e ↦ active d j w.db
            | ok r ↦ if j == k then some r else active d j w.db
          ]))
      → Mirrored d c w
      → Mirrored d c (after_creation d c k w answer)
  unfolding after_creation set_active_room
  after_creation-Mirrored k w (s, err e) rooms moved v =
      moved-Mirrored d c w (record w { db = s }) (λ j. false) rooms moved (λ j. refl) v
  after_creation-Mirrored k w (s, ok r) rooms moved v =
      try_fill_room_from_queue-Mirrored d c r
        (record w { db = s; redis = set_active_room d c k r w.redis })
        (record {
          rooms = rooms;
          mirror = λ j q h.
              ground
                (arith, h, moved j, c.active_room.get-set j k r w.redis.active_room, v.mirror j q);
        })

  pub handle_capacity_selected-Mirrored :
      (k : ℕ) (pref : RoomGenderPref) (capacity : ℕ) (w : Lobby d c)
      → Mirrored d c w
      → Mirrored d c (handle_capacity_selected d c k pref capacity w)
  unfolding handle_capacity_selected
  handle_capacity_selected-Mirrored k pref capacity w v =
      let conflict : Option RoomError = redis_conflict_check d c k w.redis in
      elim (Bool-cases (may_start_room_flow d c k w.redis)) [
        | inl free ↦ rw free (
            after_creation-Mirrored k w
              (create_chat_room d k pref capacity room_create_cost conflict w.db)
              (create_chat_room-RoomsInv d k pref capacity room_create_cost conflict w.db v.rooms)
              (λ j. active-create_chat_room d j k pref capacity room_create_cost conflict w.db) v)
        | inr held ↦ rw held v
      ]
