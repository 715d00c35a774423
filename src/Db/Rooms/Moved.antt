-- ===== src/Db/Rooms/Moved.antt =====
-- Who is moved, or charged, by the creation of a room, by its opening or closing, by a join and by a ban.
use bluechat.Base.{
  ℕ, ◌-◌, ◌≡◌, refl, ◌∙◌, inl, inr, Bool, true, false, Option, none, some, ◌==◌, leb, if◌then◌else◌,
  arith, Option-cases, Bool-cases, eq_of_test,
}
use bluechat.Base.Int.{neg}
use bluechat.Db.Models.{Database, State, User, ChatRoom, RoomGenderPref, Reason}
use bluechat.Db.Users.{get_user}
use bluechat.Db.Coins.{book}
use bluechat.Db.Coins.Balance.{balance}
use bluechat.Db.Rooms.{
  RoomError, ok, err, may_create, may_set_open, live_room, create_chat_room, set_room_open_status,
  remove_banned_user_from_room, remove_banned, close_for_ban, save_room, remove_member, set_active,
  add_member, may_join, join_chat_room, get_room, is_open,
}
use bluechat.Db.Rooms.Effects.{active, active-add_member, active-remove_member}
use bluechat.Db.Rooms.Guards.{Outcome-cases, may_create-grants}
use bluechat.Db.Rooms.Creation.{active-book, get_user-book}

module _ (d : Database) where
  -- The owner is in his new room; a refusal moves nobody.
  pub active-create_chat_room :
      (j k : ℕ) (pref : RoomGenderPref) (capacity cost : ℕ) (conflict : Option RoomError)
      (s : State d)
      → let (s', answer) = create_chat_room d k pref capacity cost conflict s in
        active d j s'
        ≡ (elim answer [ err e ↦ active d j s | ok r ↦ if j == k then some r else active d j s ])
  unfolding create_chat_room
  active-create_chat_room j k pref capacity cost conflict s =
      elim (Outcome-cases (may_create d k cost conflict s)) [
        | inl (e, refused) ↦ rw (refused, create_chat_room) refl
        | inr (u, granted) ↦
            let facts = may_create-grants d k cost conflict s u granted in
            let paid : State d = book d k u (u.coins - cost) (neg cost) Reason.chat_room_create s in
            rw (granted, create_chat_room)
              (active-add_member d j _ k (save_room d _ _ paid)
                ∙ ground (
                  arith,
                  get_user-book d k u (u.coins - cost) (neg cost) Reason.chat_room_create s,
                  active-book d j k u (u.coins - cost) (neg cost) Reason.chat_room_create s facts.0,
                ))
      ]

  pub active-set_room_open_status :
      (j : ℕ) (peek : Option User) (k : ℕ) (opens : Bool) (s : State d)
      → active d j (set_room_open_status d peek k opens s).0 ≡ active d j s
  unfolding set_room_open_status
  active-set_room_open_status j peek k opens s = elim (Outcome-cases (may_set_open d peek k s)) [
    | inl (e, refused) ↦ rw (refused, set_room_open_status) refl
    | inr ((r, room), granted) ↦ rw (granted, set_room_open_status) refl
  ]

  -- A ban moves nobody else, and does nothing if it reports nothing.
  pub active-remove_banned_user_from_room :
      (peek : Option User) (k : ℕ) (s : State d)
      → let (s', info) = remove_banned_user_from_room d peek k s in
        ((j q : ℕ) → j == k ≡ false → active d j s' ≡ active d j s) × (info ≡ none → s' ≡ s)
  unfolding remove_banned_user_from_room remove_banned close_for_ban
  active-remove_banned_user_from_room none k s = (λ j q ne. refl, λ h. refl)
  active-remove_banned_user_from_room (some u) k s = elim (Option-cases u.active_room_id) [
    | inl nowhere ↦ rw (nowhere, remove_banned_user_from_room) (λ j q ne. refl, λ h. refl)
    | inr (r, inside) ↦ elim (Outcome-cases (live_room d r s)) [
      | inl (e, gone) ↦ rw (inside, gone, remove_banned_user_from_room) (λ j q ne. refl, λ h. refl)
      | inr (room, there) ↦ elim (Bool-cases (room.owner_id == k)) [
        | inl owner ↦
            rw (inside, there, owner, remove_banned_user_from_room)
              (λ j q ne. refl, λ h. ground (arith, h))
        | inr member ↦
            elim (Bool-cases (leb (d.members.count r (remove_member d r k s).members) 1)) [
              | inl alone ↦
                  rw (inside, there, member, remove_banned_user_from_room, alone)
                    (
                      λ j q ne. ground (arith, ne, active-remove_member d j r k s),
                      λ h. ground (arith, h),
                    )
              | inr more ↦
                  rw (inside, there, member, remove_banned_user_from_room, more)
                    (
                      λ j q ne. ground (arith, ne, active-remove_member d j r k s),
                      λ h. ground (arith, h),
                    )
            ]
      ]
    ]
  ]

  coins-set_active :
      (j k : ℕ) (v : Option ℕ) (s : State d)
      → balance (get_user d j (set_active d k v s)) ≡ balance (get_user d j s)
  unfolding set_active
  coins-set_active j k v s = elim (Option-cases (get_user d k s)) [
    | inl absent ↦ rw (absent, set_active) refl
    | inr (u, there) ↦
        rw (there, set_active)
          (ground (
            arith,
            there,
            eq_of_test j k,
            d.users.get-put j k (record u { active_room_id = v }) s.users,
          ))
  ]

  -- A join costs nothing.
  pub coins-join_chat_room :
      (j k r : ℕ) (conflict : Option RoomError) (s : State d)
      → balance (get_user d j (join_chat_room d k r conflict s).0) ≡ balance (get_user d j s)
  unfolding join_chat_room add_member
  coins-join_chat_room j k r conflict s = elim (Outcome-cases (may_join d k r conflict s)) [
    | inl (e, refused) ↦ rw (refused, join_chat_room) refl
    | inr (u, granted) ↦
        rw (granted, join_chat_room)
          (coins-set_active j k (some r) (record s { members = d.members.insert r k s.members }))
  ]

  -- Who has a room is refused for that by an open room.
  pub join_chat_room_member :
      (k r q : ℕ) (conflict : Option RoomError) (s : State d) (u : User) (room : ChatRoom)
      → get_user d k s ≡ some u
      → u.active_room_id ≡ some q
      → get_room d r s ≡ some room
      → is_open room.status ≡ true
      → join_chat_room d k r conflict s ≡ (s, err RoomError.has_active_room)
  unfolding join_chat_room may_join
  join_chat_room_member k r q conflict s u room eu inside er opened =
      let refused : may_join d k r conflict s ≡ err RoomError.has_active_room = ground arith in
      rw (refused, join_chat_room) refl
