-- ===== src/Db/Rooms/Arrivals.antt =====
-- Who gets a room that he did not have: nobody but who joins or creates one.
use bluechat.Base.{
  ℕ, ◌≡◌, inl, inr, Bool, false, not, ◌&&◌, Option, none, some, ◌==◌, leb, is_some, arith,
  Option-cases, Bool-cases,
}
use bluechat.Db.Models.{Database, State, User, ChatRoom, RoomGenderPref}
use bluechat.Db.Rooms.{
  RoomError, remove_member, vacate, may_join, may_leave, owned_room, may_kick, live_room,
  remove_banned, close_for_ban, join_chat_room, leave_chat_room, delete_chat_room, kick_room_member,
  remove_banned_user_from_room, set_room_open_status, create_chat_room, may_create,
}
use bluechat.Db.Rooms.Effects.{active, active-add_member, active-remove_member, active-disband}
use bluechat.Db.Rooms.Guards.{Outcome-cases, may_join-grants, may_create-grants}
use bluechat.Db.Rooms.Moved.{active-create_chat_room, active-set_room_open_status}

module _ (d : Database) where
  -- Whoever has a room afterwards had one before, but for the newcomers.
  abbrev pub Arrivals : (ℕ → Bool) → State d → State d → Type 0
  Arrivals newcomer s s' =
      (j : ℕ)
      → newcomer j ≡ false
      → (is_some (active d j s') && not (is_some (active d j s))) ≡ false

  abbrev pub nobody : ℕ → Bool
  nobody j = false

  vacate-Arrivals :
      (r k : ℕ) (room : ChatRoom) (s : State d) → Arrivals nobody s (vacate d r room k s).0
  unfolding vacate
  vacate-Arrivals r k room s j other =
      let left : State d = remove_member d r k s in
      elim (Bool-cases (leb (d.members.count r left.members) 1)) [
        | inl alone ↦
            rw (alone, vacate)
              (ground (
                arith,
                active-disband d j r room (d.members.user_ids r left.members) left,
                active-remove_member d j r k s,
              ))
        | inr more ↦ rw (more, vacate) (ground (arith, active-remove_member d j r k s))
      ]

  pub leave_chat_room-Arrivals :
      (peek : Option User) (k : ℕ) (s : State d) → Arrivals nobody s (leave_chat_room d peek k s).0
  unfolding leave_chat_room
  leave_chat_room-Arrivals peek k s j other = elim (Outcome-cases (may_leave d peek k s)) [
    | inl (e, refused) ↦ rw (refused, leave_chat_room) (ground arith)
    | inr ((r, room), granted) ↦ rw (granted, leave_chat_room) (vacate-Arrivals r k room s j other)
  ]

  pub kick_room_member-Arrivals :
      (peek : Option User) (owner target : ℕ) (s : State d)
      → Arrivals nobody s (kick_room_member d peek owner target s).0
  unfolding kick_room_member
  kick_room_member-Arrivals peek owner target s j other =
      elim (Outcome-cases (may_kick d peek owner target s)) [
        | inl (e, refused) ↦ rw (refused, kick_room_member) (ground arith)
        | inr ((r, room), granted) ↦
            rw (granted, kick_room_member) (vacate-Arrivals r target room s j other)
      ]

  pub delete_chat_room-Arrivals :
      (peek : Option User) (owner : ℕ) (s : State d)
      → Arrivals nobody s (delete_chat_room d peek owner s).0
  unfolding delete_chat_room
  delete_chat_room-Arrivals peek owner s j other =
      elim (Outcome-cases (owned_room d peek owner s)) [
        | inl (e, refused) ↦ rw (refused, delete_chat_room) (ground arith)
        | inr ((r, room), granted) ↦
            rw (granted, delete_chat_room)
              (ground (arith, active-disband d j r room (d.members.user_ids r s.members) s))
      ]

  pub set_room_open_status-Arrivals :
      (peek : Option User) (k : ℕ) (opens : Bool) (s : State d)
      → Arrivals nobody s (set_room_open_status d peek k opens s).0
  set_room_open_status-Arrivals peek k opens s j other =
      ground (arith, active-set_room_open_status d j peek k opens s)

  pub remove_banned_user_from_room-Arrivals :
      (peek : Option User) (k : ℕ) (s : State d)
      → Arrivals nobody s (remove_banned_user_from_room d peek k s).0
  unfolding remove_banned_user_from_room remove_banned close_for_ban
  remove_banned_user_from_room-Arrivals none k s j other = ground arith
  remove_banned_user_from_room-Arrivals (some u) k s j other =
      elim (Option-cases u.active_room_id) [
        | inl nowhere ↦ rw (nowhere, remove_banned_user_from_room) (ground arith)
        | inr (r, inside) ↦ elim (Outcome-cases (live_room d r s)) [
          | inl (e, gone) ↦ rw (inside, gone, remove_banned_user_from_room) (ground arith)
          | inr (room, there) ↦ elim (Bool-cases (room.owner_id == k)) [
            | inl owner ↦ rw (inside, there, owner, remove_banned_user_from_room) (ground arith)
            | inr member ↦
                elim (Bool-cases (leb (d.members.count r (remove_member d r k s).members) 1)) [
                  | inl alone ↦
                      rw (inside, there, member, remove_banned_user_from_room, alone)
                        (ground (arith, active-remove_member d j r k s))
                  | inr more ↦
                      rw (inside, there, member, remove_banned_user_from_room, more)
                        (ground (arith, active-remove_member d j r k s))
                ]
          ]
        ]
      ]

  -- A join with a conflict brings nobody.
  pub join_chat_room-Arrivals :
      (k r : ℕ) (conflict : Option RoomError) (s : State d)
      → Arrivals (λ j. (j == k) && not (is_some conflict)) s (join_chat_room d k r conflict s).0
  unfolding join_chat_room
  join_chat_room-Arrivals k r conflict s j other =
      elim (Outcome-cases (may_join d k r conflict s)) [
        | inl (e, refused) ↦ rw (refused, join_chat_room) (ground arith)
        | inr (u, granted) ↦
            let (room, er, eu, free, calm, opened, place) =
              may_join-grants d k r conflict s u granted in
            rw (granted, join_chat_room) (ground (arith, other, calm, active-add_member d j r k s))
      ]

  pub create_chat_room-Arrivals :
      (k : ℕ) (pref : RoomGenderPref) (capacity cost : ℕ) (conflict : Option RoomError)
      (s : State d)
      → Arrivals
          (λ j. (j == k) && not (is_some conflict))
          s
          (create_chat_room d k pref capacity cost conflict s).0
  unfolding create_chat_room
  create_chat_room-Arrivals k pref capacity cost conflict s j other =
      let moved = active-create_chat_room d j k pref capacity cost conflict s in
      elim (Outcome-cases (may_create d k cost conflict s)) [
        | inl (e, refused) ↦ rw (refused, create_chat_room) (ground arith)
        | inr (u, granted) ↦
            let (eu, free, calm, rich) = may_create-grants d k cost conflict s u granted in
            ground (arith, other, calm, moved, granted)
      ]
