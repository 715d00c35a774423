-- ===== src/Db/Rooms/Operations.antt =====
-- Every room operation keeps the invariant; leaving and a ban need a first read of the user's row
-- that is not out of date.
use bluechat.Base.{
  ℕ, ◌≡◌, ◌≢◌, refl, ap, ◌∙◌, inl, inr, Bool, true, false, Option, none, some, leb, ◌==◌, is_id,
  arith, Option-cases, Bool-cases,
}
use bluechat.Db.Models.{Database, State, User, ChatRoom, RoomStatus}
use bluechat.Db.Rooms.{
  RoomError, active_room, get_room, remove_member, vacate, is_deleted, may_join, may_leave,
  owned_room, may_kick, live_room, may_set_open, remove_banned, close_for_ban, join_chat_room,
  leave_chat_room, delete_chat_room, kick_room_member, remove_banned_user_from_room,
  set_room_open_status,
}
use bluechat.Db.Rooms.Guards.{
  Outcome-cases, may_leave-grants, owned_room-grants, may_kick-grants, may_join-grants,
  may_set_open-grants, live_room-grants,
}
use bluechat.Db.Rooms.Effects.{active, still_there, remove_member_frame}
use bluechat.Db.Rooms.Invariant.{
  RoomsInv, remove_member-RoomsInv, disband-RoomsInv, save_status-RoomsInv, add_member-RoomsInv,
}

module _ (d : Database) where
  vacate-RoomsInv :
      (s : State d) (r k : ℕ) (room : ChatRoom)
      → RoomsInv d s
      → get_room d r s ≡ some room
      → is_id r (active d k s) ≡ true
      → room.owner_id ≢ k
      → RoomsInv d (vacate d r room k s).0
  unfolding vacate
  vacate-RoomsInv s r k room v e h ne =
      let left : State d = remove_member d r k s in
      let kept : RoomsInv d left = remove_member-RoomsInv d s r k room v e h ne in
      elim (Bool-cases (leb (d.members.count r left.members) 1)) [
        | inl alone ↦ rw alone (
            disband-RoomsInv d left r room kept
              (ap (d.rooms.get r) (remove_member_frame d r k s).1 ∙ e))
        | inr more ↦ rw more kept
      ]

  -- A member who leaves, with a first read that is not out of date, and a room that ends because
  -- only its owner is left, keep the rooms in order.
  pub leave_chat_room-RoomsInv :
      (peek : Option User) (k : ℕ) (s : State d)
      → still_there d peek k s ≡ true
      → RoomsInv d s
      → RoomsInv d (leave_chat_room d peek k s).0
  unfolding leave_chat_room
  leave_chat_room-RoomsInv peek k s now v = elim (Outcome-cases (may_leave d peek k s)) [
    | inl (e, refused) ↦ rw (refused, leave_chat_room) v
    | inr ((r, room), granted) ↦
        let (seen, er, ne) = may_leave-grants d peek k s r room granted in
        rw (granted, leave_chat_room)
          (vacate-RoomsInv s r k room v er (ground (arith, seen, now)) ne)
  ]

  pub kick_room_member-RoomsInv :
      (peek : Option User) (owner target : ℕ) (s : State d)
      → RoomsInv d s
      → RoomsInv d (kick_room_member d peek owner target s).0
  unfolding kick_room_member
  kick_room_member-RoomsInv peek owner target s v =
      elim (Outcome-cases (may_kick d peek owner target s)) [
        | inl (e, refused) ↦ rw (refused, kick_room_member) v
        | inr ((r, room), granted) ↦
            let facts = may_kick-grants d peek owner target s r room granted in
            rw (granted, kick_room_member)
              (vacate-RoomsInv s r target room v facts.0 facts.1 (ground (arith, facts.2, facts.3)))
      ]

  pub delete_chat_room-RoomsInv :
      (peek : Option User) (owner : ℕ) (s : State d)
      → RoomsInv d s
      → RoomsInv d (delete_chat_room d peek owner s).0
  unfolding delete_chat_room
  delete_chat_room-RoomsInv peek owner s v = elim (Outcome-cases (owned_room d peek owner s)) [
    | inl (e, refused) ↦ rw (refused, delete_chat_room) v
    | inr ((r, room), granted) ↦
        rw (granted, delete_chat_room)
          (disband-RoomsInv d s r room v (owned_room-grants d peek owner s r room granted).0)
  ]

  pub set_room_open_status-RoomsInv :
      (peek : Option User) (owner : ℕ) (opens : Bool) (s : State d)
      → RoomsInv d s
      → RoomsInv d (set_room_open_status d peek owner opens s).0
  unfolding set_room_open_status
  set_room_open_status-RoomsInv peek owner opens s v =
      elim (Outcome-cases (may_set_open d peek owner s)) [
        | inl (e, refused) ↦ rw (refused, set_room_open_status) v
        | inr ((r, room), granted) ↦
            let facts = may_set_open-grants d peek owner s r room granted in
            rw (granted, set_room_open_status)
              (save_status-RoomsInv d s r room _ v facts.0 facts.1 (ground arith))
      ]

  pub join_chat_room-RoomsInv :
      (k r : ℕ) (conflict : Option RoomError) (s : State d)
      → RoomsInv d s
      → RoomsInv d (join_chat_room d k r conflict s).0
  unfolding join_chat_room
  join_chat_room-RoomsInv k r conflict s v = elim (Outcome-cases (may_join d k r conflict s)) [
    | inl (e, refused) ↦ rw (refused, join_chat_room) v
    | inr (u, granted) ↦
        let (room, er, eu, free, _, opened, place) = may_join-grants d k r conflict s u granted in
        rw (granted, join_chat_room)
          (add_member-RoomsInv d s r k u room v eu free er (ground arith) place)
  ]

  remove_banned-RoomsInv :
      (s : State d) (r k : ℕ) (room : ChatRoom)
      → RoomsInv d s
      → get_room d r s ≡ some room
      → is_deleted room.status ≡ false
      → is_id r (active d k s) ≡ true
      → room.owner_id ≢ k
      → RoomsInv d (remove_banned d r room k s).0
  unfolding remove_banned
  remove_banned-RoomsInv s r k room v e live h ne =
      let left : State d = remove_member d r k s in
      let kept : RoomsInv d left = remove_member-RoomsInv d s r k room v e h ne in
      elim (Bool-cases (leb (d.members.count r left.members) 1)) [
        | inl alone ↦ rw alone (
            save_status-RoomsInv d left r room RoomStatus.closed kept
              (ap (d.rooms.get r) (remove_member_frame d r k s).1 ∙ e) live refl)
        | inr more ↦ rw more kept
      ]

  -- With the user's `active_room_id` read as it stands when the room is locked, a ban keeps the
  -- rooms in order.
  pub remove_banned_user_from_room-RoomsInv :
      (peek : Option User) (k : ℕ) (s : State d)
      → active_room peek ≡ active d k s
      → RoomsInv d s
      → RoomsInv d (remove_banned_user_from_room d peek k s).0
  unfolding remove_banned_user_from_room close_for_ban
  remove_banned_user_from_room-RoomsInv none k s same v = v
  remove_banned_user_from_room-RoomsInv (some u) k s same v = elim (Option-cases u.active_room_id) [
    | inl nowhere ↦ rw (nowhere, remove_banned_user_from_room) v
    | inr (r, inside) ↦ elim (Outcome-cases (live_room d r s)) [
      | inl (e, gone) ↦ rw (inside, gone, remove_banned_user_from_room) v
      | inr (room, there) ↦
          let facts = live_room-grants d r s room there in
          elim (Bool-cases (room.owner_id == k)) [
            | inl owner ↦
                rw (inside, there, owner, remove_banned_user_from_room)
                  (save_status-RoomsInv d s r room RoomStatus.closed v facts.0 facts.1 refl)
            | inr member ↦
                rw (inside, there, member, remove_banned_user_from_room)
                  (remove_banned-RoomsInv s r k room v facts.0 facts.1
                    (ground (arith, same, inside)) (ground (arith, member)))
          ]
    ]
  ]
