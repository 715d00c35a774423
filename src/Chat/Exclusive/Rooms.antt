-- ===== src/Chat/Exclusive/Rooms.antt =====
-- Every handler and job of the chat rooms is calm.
use bluechat.Base.{
  ℕ, ◌≡◌, refl, inl, inr, Bool, true, false, not, ◌&&◌, Option, none, some, List, ◌==◌, is_some,
  arith, Bool-cases,
}
use bluechat.Db.Models.{Database, State, RoomGenderPref}
use bluechat.Db.Users.{get_user}
use bluechat.Db.Rooms.{
  RoomError, Outcome, ok, err, LeaveInfo, KickInfo, MembersInfo, BanInfo, without, create_chat_room,
  kick_room_member,
}
use bluechat.Db.Rooms.Arrivals.{Arrivals, create_chat_room-Arrivals, kick_room_member-Arrivals}
use bluechat.Redis.Keys.{Redis}
use bluechat.Redis.Queue.{waits_in, is_waiting}
use bluechat.Redis.RoomQueue.{is_waiting_room_join}
use bluechat.Chat.RoomSearch.{Lobby, set_active_room}
use bluechat.Chat.Filling.{
  redis_conflict_check, clear_active_room, clear_all, forget, suppress_all,
  try_fill_room_from_queue,
}
use bluechat.Chat.Rooms.{
  room_create_cost, tells_owner, may_start_room_flow, after_creation, handle_capacity_selected,
  after_refusal, after_vacancy, after_leave, after_deletion, after_kick, handle_kick_command,
  after_status, after_expulsion,
}
use bluechat.Chat.Exclusive.{engaged, held}
use bluechat.Chat.Exclusive.Lobbies.{
  Calm, then-Calm, arrive-Calm, Aside-Calm, clear_all-Aside, suppress_all-Aside,
}
use bluechat.Chat.Exclusive.Fillings.{
  refl-Calm, try_fill_room_from_queue-Calm, idle_without_conflict,
}

abbrev nobody : ℕ → Bool
nobody j = false

module _ (d : Database) (c : Redis) where
  pub db-Calm :
      (w : Lobby d c) (s : State d) → Arrivals d nobody w.db s → Calm d c w (record w { db = s })
  db-Calm w s arrivals =
      Aside-Calm d c w (record w { db = s }) arrivals
        (record { same = λ j. refl; seeking = λ j. refl })

  forget-Calm : (k : ℕ) (w : Lobby d c) → Calm d c w (forget d c k w)
  unfolding clear_active_room is_waiting waits_in is_waiting_room_join
  forget-Calm k w =
      Aside-Calm d c w (forget d c k w) (λ j other. ground arith)
        (record { same = λ j. refl; seeking = λ j. refl })

  after_refusal-Calm :
      (k : ℕ) (e : RoomError) (w : Lobby d c) → Calm d c w (after_refusal d c k e w)
  unfolding after_refusal
  after_refusal-Calm k e w = elim (Bool-cases (tells_owner e)) [
    | inl told ↦ rw told (refl-Calm d c w)
    | inr missing ↦ rw missing (forget-Calm k w)
  ]

  refused-Calm :
      (k : ℕ) (e : RoomError) (w : Lobby d c) (s : State d)
      → Arrivals d nobody w.db s
      → Calm d c w (after_refusal d c k e (record w { db = s }))
  refused-Calm k e w s arrivals =
      then-Calm d c w (record w { db = s }) (after_refusal d c k e (record w { db = s }))
        (db-Calm w s arrivals) (after_refusal-Calm k e (record w { db = s }))

  after_vacancy-Calm :
      (r : ℕ) (gone : Bool) (remaining : List ℕ) (w : Lobby d c)
      → Calm d c w (after_vacancy d c r gone remaining w)
  unfolding after_vacancy
  after_vacancy-Calm r true remaining w =
      Aside-Calm d c w (record w { redis = clear_all d c remaining w.redis })
        (λ j other. ground arith) (clear_all-Aside d c remaining w.redis)
  after_vacancy-Calm r false remaining w = try_fill_room_from_queue-Calm d c r w

  -- A member has gone, and his place is filled or the room over.
  departure-Calm :
      (r k : ℕ) (gone : Bool) (remaining : List ℕ) (w : Lobby d c) (s : State d)
      → Arrivals d nobody w.db s
      → Calm d c w (after_vacancy d c r gone remaining (forget d c k (record w { db = s })))
  departure-Calm r k gone remaining w s arrivals =
      let left : Lobby d c = record w { db = s } in
      let forgot : Lobby d c = forget d c k left in
      then-Calm d c w left (after_vacancy d c r gone remaining forgot) (db-Calm w s arrivals) (
        then-Calm d c left forgot (after_vacancy d c r gone remaining forgot) (forget-Calm k left)
          (after_vacancy-Calm r gone remaining forgot))

  pub after_leave-Calm :
      (k : ℕ) (w : Lobby d c) (answer : State d × Outcome LeaveInfo)
      → Arrivals d nobody w.db answer.0
      → Calm d c w (after_leave d c k w answer)
  unfolding after_leave
  after_leave-Calm k w (s, err e) arrivals = refused-Calm k e w s arrivals
  after_leave-Calm k w (s, ok info) arrivals =
      departure-Calm info.room_id k info.auto_deleted info.remaining_member_ids w s arrivals

  after_kick-Calm :
      (target : ℕ) (w : Lobby d c) (answer : State d × Outcome KickInfo)
      → Arrivals d nobody w.db answer.0
      → Calm d c w (after_kick d c target w answer)
  unfolding after_kick
  after_kick-Calm target w (s, err e) arrivals = db-Calm w s arrivals
  after_kick-Calm target w (s, ok info) arrivals =
      departure-Calm info.room_id target info.auto_deleted info.remaining_member_ids w s arrivals

  pub handle_kick_command-Calm :
      (owner target : ℕ) (w : Lobby d c) → Calm d c w (handle_kick_command d c owner target w)
  unfolding handle_kick_command
  handle_kick_command-Calm owner target w = elim (Bool-cases (target == owner)) [
    | inl own ↦ rw own (refl-Calm d c w)
    | inr other ↦ rw other (
        after_kick-Calm target w (kick_room_member d (get_user d owner w.db) owner target w.db)
          (kick_room_member-Arrivals d (get_user d owner w.db) owner target w.db))
  ]

  pub after_deletion-Calm :
      (k : ℕ) (w : Lobby d c) (answer : State d × Outcome MembersInfo)
      → Arrivals d nobody w.db answer.0
      → Calm d c w (after_deletion d c k w answer)
  unfolding after_deletion
  after_deletion-Calm k w (s, err e) arrivals = refused-Calm k e w s arrivals
  after_deletion-Calm k w (s, ok info) arrivals =
      Aside-Calm d c w (record w { db = s; redis = clear_all d c info.member_ids w.redis }) arrivals
        (clear_all-Aside d c info.member_ids w.redis)

  pub after_status-Calm :
      (k : ℕ) (opens : Bool) (w : Lobby d c) (answer : State d × Outcome MembersInfo)
      → Arrivals d nobody w.db answer.0
      → Calm d c w (after_status d c k opens w answer)
  unfolding after_status
  after_status-Calm k opens w (s, err e) arrivals = refused-Calm k e w s arrivals
  after_status-Calm k opens w (s, ok info) arrivals =
      Aside-Calm d c w
        (record w {
          db = s;
          redis = suppress_all d c (not opens) (without k info.member_ids) w.redis;
        })
        arrivals (suppress_all-Aside d c (not opens) (without k info.member_ids) w.redis)

  pub after_expulsion-Calm :
      (k : ℕ) (w : Lobby d c) (answer : State d × Option BanInfo)
      → Arrivals d nobody w.db answer.0
      → Calm d c w (after_expulsion d c k w answer)
  unfolding after_expulsion
  after_expulsion-Calm k w (s, none) arrivals = db-Calm w s arrivals
  after_expulsion-Calm k w (s, some info) arrivals =
      then-Calm d c w (record w { db = s }) (forget d c k (record w { db = s }))
        (db-Calm w s arrivals) (forget-Calm k (record w { db = s }))

  after_creation-Calm :
      (newcomer : ℕ → Bool) (k : ℕ) (w : Lobby d c) (answer : State d × Outcome ℕ)
      → Arrivals d newcomer w.db answer.0
      → ((j : ℕ) → newcomer j ≡ true → engaged d c j w.redis ≡ false)
      → Calm d c w (after_creation d c k w answer)
  unfolding after_creation set_active_room is_waiting waits_in is_waiting_room_join
  after_creation-Calm newcomer k w (s, err e) arrivals idle =
      arrive-Calm d c newcomer w (record w { db = s }) (λ j. refl) arrivals
        (λ j other. ground arith) idle
  after_creation-Calm newcomer k w (s, ok r) arrivals idle =
      let made : Lobby d c = record w { db = s; redis = set_active_room d c k r w.redis } in
      then-Calm d c w made (try_fill_room_from_queue d c r made)
        (arrive-Calm d c newcomer w made (λ j. refl) arrivals (λ j other. ground arith) idle)
        (try_fill_room_from_queue-Calm d c r made)

  pub handle_capacity_selected-Calm :
      (k : ℕ) (pref : RoomGenderPref) (capacity : ℕ) (w : Lobby d c)
      → Calm d c w (handle_capacity_selected d c k pref capacity w)
  unfolding handle_capacity_selected
  handle_capacity_selected-Calm k pref capacity w =
      let conflict : Option RoomError = redis_conflict_check d c k w.redis in
      elim (Bool-cases (may_start_room_flow d c k w.redis)) [
        | inl free ↦ rw free (
            after_creation-Calm (λ j. (j == k) && not (is_some conflict)) k w
              (create_chat_room d k pref capacity room_create_cost conflict w.db)
              (create_chat_room-Arrivals d k pref capacity room_create_cost conflict w.db)
              (idle_without_conflict d c k w.redis))
        | inr held ↦ rw held (refl-Calm d c w)
      ]
