-- ===== src/Db/Rooms/Coins.antt =====
-- The room operations and the coins: only creating a room costs any.
use bluechat.Base.{
  ℕ, ◌-◌, refl, inl, inr, Bool, Option, none, some, List, [], ◌∷◌, leb, ◌==◌, arith, Option-cases,
  Bool-cases,
}
use bluechat.Base.Int.{neg}
use bluechat.Db.Models.{Database, State, User, ChatRoom, RoomGenderPref, Reason}
use bluechat.Db.Users.{get_user}
use bluechat.Db.Coins.{book}
use bluechat.Db.Coins.Balance.{Balanced, book-Balanced, save_user-Balanced, neg_parts}
use bluechat.Db.Rooms.{
  RoomError, disband, add_member, remove_member, vacate, set_active, release_all, save_room,
  may_create, may_join, may_leave, owned_room, may_kick, live_room, may_set_open, remove_banned,
  close_for_ban, create_chat_room, join_chat_room, leave_chat_room, delete_chat_room,
  kick_room_member, remove_banned_user_from_room, set_room_open_status,
}
use bluechat.Db.Rooms.Guards.{Outcome-cases, may_create-grants}

module _ (d : Database) where
  set_active-Balanced :
      (k : ℕ) (v : Option ℕ) (s : State d) → Balanced d s → Balanced d (set_active d k v s)
  unfolding set_active
  set_active-Balanced k v s b = elim (Option-cases (get_user d k s)) [
    | inl e ↦ rw (e, set_active) b
    | inr (u, e) ↦
        rw (e, set_active) (save_user-Balanced d k u (record u { active_room_id = v }) s e refl b)
  ]

  release_all-Balanced :
      (ks : List ℕ) (s : State d) → Balanced d s → Balanced d (release_all d ks s)
  unfolding release_all
  release_all-Balanced [] s b = b
  release_all-Balanced (k ∷ ks) s b =
      release_all-Balanced ks (set_active d k none s) (set_active-Balanced k none s b)

  disband-Balanced :
      (r : ℕ) (room : ChatRoom) (ks : List ℕ) (s : State d)
      → Balanced d s
      → Balanced d (disband d r room ks s)
  unfolding disband
  disband-Balanced r room ks s b = release_all-Balanced ks s b

  remove_member-Balanced :
      (r k : ℕ) (s : State d) → Balanced d s → Balanced d (remove_member d r k s)
  unfolding remove_member
  remove_member-Balanced r k s b =
      set_active-Balanced k none (record s { members = d.members.remove r k s.members }) b

  add_member-Balanced : (r k : ℕ) (s : State d) → Balanced d s → Balanced d (add_member d r k s)
  unfolding add_member
  add_member-Balanced r k s b =
      set_active-Balanced k (some r) (record s { members = d.members.insert r k s.members }) b

  vacate-Balanced :
      (r : ℕ) (room : ChatRoom) (k : ℕ) (s : State d)
      → Balanced d s
      → Balanced d (vacate d r room k s).0
  unfolding vacate
  vacate-Balanced r room k s b =
      let left : State d = remove_member d r k s in
      let kept = remove_member-Balanced r k s b in
      elim (Bool-cases (leb (d.members.count r left.members) 1)) [
        | inl alone ↦
            rw alone (disband-Balanced r room (d.members.user_ids r left.members) left kept)
        | inr more ↦ rw more kept
      ]

  pub leave_chat_room-Balanced :
      (peek : Option User) (k : ℕ) (s : State d)
      → Balanced d s
      → Balanced d (leave_chat_room d peek k s).0
  unfolding leave_chat_room
  leave_chat_room-Balanced peek k s b = elim (Outcome-cases (may_leave d peek k s)) [
    | inl (e, refused) ↦ rw (refused, leave_chat_room) b
    | inr ((r, room), granted) ↦ rw (granted, leave_chat_room) (vacate-Balanced r room k s b)
  ]

  pub kick_room_member-Balanced :
      (peek : Option User) (owner target : ℕ) (s : State d)
      → Balanced d s
      → Balanced d (kick_room_member d peek owner target s).0
  unfolding kick_room_member
  kick_room_member-Balanced peek owner target s b =
      elim (Outcome-cases (may_kick d peek owner target s)) [
        | inl (e, refused) ↦ rw (refused, kick_room_member) b
        | inr ((r, room), granted) ↦
            rw (granted, kick_room_member) (vacate-Balanced r room target s b)
      ]

  pub delete_chat_room-Balanced :
      (peek : Option User) (owner : ℕ) (s : State d)
      → Balanced d s
      → Balanced d (delete_chat_room d peek owner s).0
  unfolding delete_chat_room
  delete_chat_room-Balanced peek owner s b = elim (Outcome-cases (owned_room d peek owner s)) [
    | inl (e, refused) ↦ rw (refused, delete_chat_room) b
    | inr ((r, room), granted) ↦
        rw (granted, delete_chat_room)
          (disband-Balanced r room (d.members.user_ids r s.members) s b)
  ]

  pub set_room_open_status-Balanced :
      (peek : Option User) (owner : ℕ) (opens : Bool) (s : State d)
      → Balanced d s
      → Balanced d (set_room_open_status d peek owner opens s).0
  unfolding set_room_open_status
  set_room_open_status-Balanced peek owner opens s b =
      elim (Outcome-cases (may_set_open d peek owner s)) [
        | inl (e, refused) ↦ rw (refused, set_room_open_status) b
        | inr ((r, room), granted) ↦ rw (granted, set_room_open_status) b
      ]

  pub join_chat_room-Balanced :
      (k r : ℕ) (conflict : Option RoomError) (s : State d)
      → Balanced d s
      → Balanced d (join_chat_room d k r conflict s).0
  unfolding join_chat_room
  join_chat_room-Balanced k r conflict s b = elim (Outcome-cases (may_join d k r conflict s)) [
    | inl (e, refused) ↦ rw (refused, join_chat_room) b
    | inr (u, granted) ↦ rw (granted, join_chat_room) (add_member-Balanced r k s b)
  ]

  remove_banned-Balanced :
      (r : ℕ) (room : ChatRoom) (k : ℕ) (s : State d)
      → Balanced d s
      → Balanced d (remove_banned d r room k s).0
  unfolding remove_banned
  remove_banned-Balanced r room k s b =
      let left : State d = remove_member d r k s in
      let kept = remove_member-Balanced r k s b in
      elim (Bool-cases (leb (d.members.count r left.members) 1)) [
        | inl alone ↦ rw alone kept
        | inr more ↦ rw more kept
      ]

  pub remove_banned_user_from_room-Balanced :
      (peek : Option User) (k : ℕ) (s : State d)
      → Balanced d s
      → Balanced d (remove_banned_user_from_room d peek k s).0
  unfolding remove_banned_user_from_room close_for_ban
  remove_banned_user_from_room-Balanced none k s b = b
  remove_banned_user_from_room-Balanced (some u) k s b = elim (Option-cases u.active_room_id) [
    | inl nowhere ↦ rw (nowhere, remove_banned_user_from_room) b
    | inr (r, inside) ↦ elim (Outcome-cases (live_room d r s)) [
      | inl (e, gone) ↦ rw (inside, gone, remove_banned_user_from_room) b
      | inr (room, there) ↦ elim (Bool-cases (room.owner_id == k)) [
        | inl owner ↦ rw (inside, there, owner, remove_banned_user_from_room) b
        | inr member ↦
            rw (inside, there, member, remove_banned_user_from_room)
              (remove_banned-Balanced r room k s b)
      ]
    ]
  ]

  pub create_chat_room-Balanced :
      (owner : ℕ) (pref : RoomGenderPref) (capacity cost : ℕ) (conflict : Option RoomError)
      (s : State d)
      → Balanced d s
      → Balanced d (create_chat_room d owner pref capacity cost conflict s).0
  unfolding create_chat_room
  create_chat_room-Balanced owner pref capacity cost conflict s b =
      elim (Outcome-cases (may_create d owner cost conflict s)) [
        | inl (e, refused) ↦ rw (refused, create_chat_room) b
        | inr (u, granted) ↦
            let facts = may_create-grants d owner cost conflict s u granted in
            let paid : State d =
              book d owner u (u.coins - cost) (neg cost) Reason.chat_room_create s in
            rw (granted, create_chat_room)
              (add_member-Balanced (d.rooms.next_id s.rooms) owner (save_room d _ _ paid) (
                book-Balanced d owner u (u.coins - cost) (neg cost) Reason.chat_room_create s
                  facts.0 (ground (arith, neg_parts cost, facts.3)) b))
      ]
