-- ===== src/Db/Rooms/Departures.antt =====
-- Leaving, kicking, deleting, and a ban with an outdated first read.
use bluechat.Base.{
  ℕ, ◌+◌, ◌≤◌, ◌≡◌, ◌≢◌, refl, ap, ◌∙◌, inl, inr, Bool, true, false, not, ◌&&◌, ◌||◌, Option, none,
  some, List, leb, ◌==◌, if◌then◌else◌, elem, is_id, arith, Bool-cases,
}
use bluechat.Db.Models.{Database, State, User, ChatRoom, RoomStatus}
use bluechat.Db.Rooms.{
  Outcome, ok, err, get_room, remove_member, vacate, LeaveInfo, KickInfo, MembersInfo, may_leave,
  owned_room, may_kick, live_room, remove_banned, leave_chat_room, delete_chat_room,
  kick_room_member, remove_banned_user_from_room,
}
use bluechat.Db.Rooms.Effects.{
  active, still_there, remove_member_frame, active-remove_member, active-disband, disband_frame,
}
use bluechat.Db.Rooms.Guards.{Outcome-cases, may_leave-grants, owned_room-grants, may_kick-grants}
use bluechat.Db.Rooms.Invariant.{RoomsInv}

module _ (d : Database) where
  -- A room after one member has gone, by whether it ended with that: it ends when at most one
  -- member is left, who is then freed with it. `remaining` is who was left.
  abbrev pub Vacated : ℕ → ℕ → ChatRoom → State d → State d → Bool → List ℕ → Type 0
  Vacated r k room s s' true remaining =
      (d.members.count r s.members ≤ 2)
      × (d.members.count r s'.members ≡ 0)
      × (get_room d r s' ≡ some (record room { status = RoomStatus.deleted }))
      × ((j : ℕ) → elem j remaining ≡ (not (j == k) && d.members.has r j s.members))
      × ((j : ℕ)
          → active d j s'
            ≡ (if (j == k) || d.members.has r j s.members then none else active d j s))
  Vacated r k room s s' false remaining =
      (3 ≤ d.members.count r s.members)
      × (d.members.count r s'.members + 1 ≡ d.members.count r s.members)
      × (get_room d r s' ≡ get_room d r s)
      × ((j : ℕ) → elem j remaining ≡ (not (j == k) && d.members.has r j s.members))
      × ((j : ℕ) → active d j s' ≡ (if j == k then none else active d j s))

  remaining_lem :
      (s : State d) (r k j : ℕ)
      → elem j (d.members.user_ids r (remove_member d r k s).members)
        ≡ (not (j == k) && d.members.has r j s.members)
  remaining_lem s r k j = ground (
    arith,
    (remove_member_frame d r k s).0,
    d.members.elem-user_ids r j (remove_member d r k s).members,
    d.members.has-remove r j r k s.members,
  )

  vacate-Vacated :
      (s : State d) (r k : ℕ) (room : ChatRoom)
      → d.members.has r k s.members ≡ true
      → let (s', gone, remaining) = vacate d r room k s in Vacated r k room s s' gone remaining
  unfolding vacate
  vacate-Vacated s r k room h =
      let left : State d = remove_member d r k s in
      let ids : List ℕ = d.members.user_ids r left.members in
      let count_left : d.members.count r left.members + 1 ≡ d.members.count r s.members =
        ground (arith, (remove_member_frame d r k s).0, d.members.count-remove r r k s.members) in
      let frame = disband_frame d r room ids left in
      elim (Bool-cases (leb (d.members.count r left.members) 1)) [
        | inl alone ↦
            rw (alone, vacate)
              (
                ground (arith, count_left, alone),
                ground (arith, frame.0, d.members.count-clear r r left.members),
                ground (
                  arith,
                  frame.1,
                  d.rooms.get-put r r (record room { status = RoomStatus.deleted }) left.rooms,
                ),
                remaining_lem s r k,
                λ j. ground (
                  arith,
                  active-disband d j r room ids left,
                  remaining_lem s r k j,
                  active-remove_member d j r k s,
                ),
              )
        | inr more ↦
            rw (more, vacate)
              (
                ground (arith, count_left, more),
                count_left,
                ap (d.rooms.get r) (remove_member_frame d r k s).1,
                remaining_lem s r k,
                λ j. active-remove_member d j r k s,
              )
      ]

  abbrev pub Left : ℕ → State d → State d × Outcome LeaveInfo → Type 0
  Left k s (s', err e) = s' ≡ s
  Left k s (s', ok info) =
      (room : ChatRoom) × (get_room d info.room_id s ≡ some room)
      × (active d k s ≡ some info.room_id)
      × (room.owner_id ≢ k)
      × (info.owner_id ≡ room.owner_id)
      × Vacated info.room_id k room s s' info.auto_deleted info.remaining_member_ids

  -- Unless the first read of his row saw him in a room that is not his any more, a user leaves only
  -- the room that he is in, and not as its owner. The room ends with that exactly when at most the owner is left, who is then freed;
  -- else it loses this one member. A refusal changes nothing.
  pub leave_chat_room-Left :
      (peek : Option User) (k : ℕ) (s : State d)
      → still_there d peek k s ≡ true
      → RoomsInv d s
      → Left k s (leave_chat_room d peek k s)
  unfolding leave_chat_room
  leave_chat_room-Left peek k s now v = elim (Outcome-cases (may_leave d peek k s)) [
    | inl (e, refused) ↦ rw (refused, leave_chat_room) refl
    | inr ((r, room), granted) ↦
        let (seen, er, ne) = may_leave-grants d peek k s r room granted in
        let inside : is_id r (active d k s) ≡ true = ground (arith, seen, now) in
        rw (granted, leave_chat_room)
          (
            room,
            er,
            ground (arith, inside),
            ne,
            refl,
            vacate-Vacated s r k room (v.agree r k ∙ inside),
          )
  ]

  abbrev pub Kicked : ℕ → ℕ → State d → State d × Outcome KickInfo → Type 0
  Kicked owner target s (s', err e) = s' ≡ s
  Kicked owner target s (s', ok info) =
      (room : ChatRoom) × (get_room d info.room_id s ≡ some room)
      × (room.owner_id ≡ owner)
      × (target ≢ owner)
      × (info.target_user_id ≡ target)
      × (active d target s ≡ some info.room_id)
      × Vacated info.room_id target room s s' info.auto_deleted info.remaining_member_ids

  -- Only the owner of a room kicks, and only another member of that room; the room then ends or
  -- shrinks as when a member leaves. A refusal changes nothing.
  pub kick_room_member-Kicked :
      (peek : Option User) (owner target : ℕ) (s : State d)
      → RoomsInv d s
      → Kicked owner target s (kick_room_member d peek owner target s)
  unfolding kick_room_member
  kick_room_member-Kicked peek owner target s v =
      elim (Outcome-cases (may_kick d peek owner target s)) [
        | inl (e, refused) ↦ rw (refused, kick_room_member) refl
        | inr ((r, room), granted) ↦
            let (er, inside, owns, ne) = may_kick-grants d peek owner target s r room granted in
            rw (granted, kick_room_member)
              (
                room,
                er,
                owns,
                ne,
                refl,
                ground (arith, inside),
                vacate-Vacated s r target room (v.agree r target ∙ inside),
              )
      ]

  abbrev pub Deleted : ℕ → State d → State d × Outcome MembersInfo → Type 0
  Deleted owner s (s', err e) = s' ≡ s
  Deleted owner s (s', ok info) =
      (room : ChatRoom) × (get_room d info.room_id s ≡ some room)
      × (room.owner_id ≡ owner)
      × (get_room d info.room_id s' ≡ some (record room { status = RoomStatus.deleted }))
      × (d.members.count info.room_id s'.members ≡ 0)
      × ((j : ℕ) → elem j info.member_ids ≡ d.members.has info.room_id j s.members)
      × ((j : ℕ) → active d j s' ≡ (if elem j info.member_ids then none else active d j s))

  -- Only the owner deletes a room. It is then marked deleted and empty, exactly its members are
  -- freed and reported, and nobody else moves. A refusal changes nothing.
  pub delete_chat_room-Deleted :
      (peek : Option User) (owner : ℕ) (s : State d)
      → Deleted owner s (delete_chat_room d peek owner s)
  unfolding delete_chat_room
  delete_chat_room-Deleted peek owner s = elim (Outcome-cases (owned_room d peek owner s)) [
    | inl (e, refused) ↦ rw (refused, delete_chat_room) refl
    | inr ((r, room), granted) ↦
        let (er, owns) = owned_room-grants d peek owner s r room granted in
        let ids : List ℕ = d.members.user_ids r s.members in
        let frame = disband_frame d r room ids s in
        rw (granted, delete_chat_room)
          (
            room,
            er,
            owns,
            ground (
              arith,
              frame.1,
              d.rooms.get-put r r (record room { status = RoomStatus.deleted }) s.rooms,
            ),
            ground (arith, frame.0, d.members.count-clear r r s.members),
            λ j. d.members.elem-user_ids r j s.members,
            λ j. active-disband d j r room ids s,
          )
  ]

  -- A ban whose first read saw the user in one room, while by the time that room is locked he has
  -- moved to another, clears the user's `active_room_id` and leaves his row in the other room.
  pub remove_banned_user_from_room_stale :
      (u : User) (k r q : ℕ) (room : ChatRoom) (s : State d)
      → RoomsInv d s
      → u.active_room_id ≡ some r
      → active d k s ≡ some q
      → r ≢ q
      → get_room d r s ≡ some room
      → room.status ≢ RoomStatus.deleted
      → room.owner_id ≢ k
      → let s' = (remove_banned_user_from_room d (some u) k s).0 in
        (d.members.has q k s'.members ≡ true) × (active d k s' ≡ none)
  unfolding remove_banned_user_from_room remove_banned live_room
  remove_banned_user_from_room_stale u k r q room s v seen now ne er live member = ground (
    arith,
    v.agree q k,
    (remove_member_frame d r k s).0,
    active-remove_member d k r k s,
    d.members.has-remove q k r k s.members,
  )
