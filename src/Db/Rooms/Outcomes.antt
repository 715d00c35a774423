-- ===== src/Db/Rooms/Outcomes.antt =====
-- What joining a room does.
use bluechat.Base.{
  ℕ, ◌+◌, ◌≤◌, ◌<◌, ◌≡◌, ◌⊎◌, ◌∙◌, ap, refl, inl, inr, true, Option, none, some, ◌==◌,
  if◌then◌else◌, arith, Option-cases,
}
use bluechat.Db.Models.{Database, State, User, ChatRoom, RoomStatus}
use bluechat.Db.Users.{get_user}
use bluechat.Db.Rooms.{RoomError, Outcome, ok, err, get_room, is_open, may_join, join_chat_room}
use bluechat.Db.Rooms.Effects.{active, add_member_frame, active-add_member}
use bluechat.Db.Rooms.Guards.{Outcome-cases, may_join-grants}
use bluechat.Db.Rooms.Invariant.{RoomsInv}

module _ (d : Database) where
  -- The room is open with a place left, the user is in no room, and nothing else holds him.
  abbrev pub Joinable : ℕ → ℕ → Option RoomError → State d → Type 0
  Joinable k r conflict s =
      (room : ChatRoom) × (u : User) × (get_room d r s ≡ some room)
      × (room.status ≡ RoomStatus.opened)
      × (get_user d k s ≡ some u)
      × (u.active_room_id ≡ none)
      × (conflict ≡ none)
      × (d.members.count r s.members < room.capacity)

  abbrev pub Joined : ℕ → ℕ → Option RoomError → State d → State d × Outcome ℕ → Type 0
  Joined k r conflict s (s', err e) = (s' ≡ s) × ¬ Joinable k r conflict s
  Joined k r conflict s (s', ok room_id) =
      (room_id ≡ r)
      × Joinable k r conflict s
      × (d.members.count r s'.members ≡ d.members.count r s.members + 1)
      × ((j : ℕ) → active d j s' ≡ (if j == k then some r else active d j s))

  may_join-Joinable :
      (k r : ℕ) (conflict : Option RoomError) (s : State d)
      → (c : Joinable k r conflict s) → may_join d k r conflict s ≡ ok c.1
  unfolding may_join
  may_join-Joinable k r conflict s (room, u, er, opened, eu, free, calm, place) = ground arith

  -- A join succeeds exactly when the room is open with a place left, the user is in no room and
  -- no conflict is reported. Then he is in the room, its count has grown by one, and nobody else
  -- has moved; otherwise nothing changes.
  pub join_chat_room-Joined :
      (k r : ℕ) (conflict : Option RoomError) (s : State d)
      → RoomsInv d s
      → Joined k r conflict s (join_chat_room d k r conflict s)
  unfolding join_chat_room
  join_chat_room-Joined k r conflict s v = elim (Outcome-cases (may_join d k r conflict s)) [
    | inl (e, refused) ↦
        rw (refused, join_chat_room) (refl, λ c. ground (arith, may_join-Joinable k r conflict s c))
    | inr (u, granted) ↦
        let (room, er, eu, free, calm, opened, place) =
          may_join-grants d k r conflict s u granted in
        rw (granted, join_chat_room)
          (
            refl,
            (room, u, er, opened, eu, free, calm, place),
            ground (
              arith,
              (add_member_frame d r k s).0,
              d.members.count-insert r r k s.members,
              v.agree r k,
            ),
            λ j. ground (arith, active-add_member d j r k s),
          )
  ]

  may_join_refused :
      (k r : ℕ) (conflict : Option RoomError) (s : State d) (e : RoomError) (u : User)
      (room : ChatRoom)
      → may_join d k r conflict s ≡ err e
      → get_user d k s ≡ some u
      → get_room d r s ≡ some room
      → is_open room.status ≡ true
      → (e ≡ RoomError.has_active_room)
        ⊎ ((conflict ≡ some e) ⊎ (room.capacity ≤ d.members.count r s.members))
  unfolding may_join
  may_join_refused k r conflict s e u room h eu er opened = elim (Option-cases u.active_room_id) [
    | inr (q, inside) ↦ inl (ground arith)
    | inl free ↦ elim (Option-cases conflict) [
      | inr (f, held) ↦ inr (inl (ground arith))
      | inl calm ↦ inr (inr (ground arith))
    ]
  ]

  -- An existing user is refused by an open room only if he is in a room, a conflict is reported or
  -- the room is full.
  pub join_chat_room_refused :
      (k r : ℕ) (conflict : Option RoomError) (s : State d) (e : RoomError) (u : User)
      (room : ChatRoom)
      → (join_chat_room d k r conflict s).1 ≡ err e
      → get_user d k s ≡ some u
      → get_room d r s ≡ some room
      → is_open room.status ≡ true
      → (e ≡ RoomError.has_active_room)
        ⊎ ((conflict ≡ some e) ⊎ (room.capacity ≤ d.members.count r s.members))
  unfolding join_chat_room
  join_chat_room_refused k r conflict s e u room h eu er opened =
      elim (Outcome-cases (may_join d k r conflict s)) [
        | inl (f, refused) ↦
            let same : f ≡ e = ground (arith, rw (refused, join_chat_room) at h) in
            may_join_refused k r conflict s e u room (refused ∙ ap err same) eu er opened
        | inr (v, granted) ↦ ground (arith, h, granted)
      ]

  pub join_chat_room_unchanged :
      (k r : ℕ) (conflict : Option RoomError) (s : State d) (e : RoomError)
      → (join_chat_room d k r conflict s).1 ≡ err e
      → (join_chat_room d k r conflict s).0 ≡ s
  unfolding join_chat_room
  join_chat_room_unchanged k r conflict s e h = elim (Outcome-cases (may_join d k r conflict s)) [
    | inl (f, refused) ↦ rw (refused, join_chat_room) refl
    | inr (v, granted) ↦ ground (arith, h, granted)
  ]

  -- A join writes no room.
  pub get_room-join_chat_room :
      (q k r : ℕ) (conflict : Option RoomError) (s : State d)
      → get_room d q (join_chat_room d k r conflict s).0 ≡ get_room d q s
  unfolding join_chat_room
  get_room-join_chat_room q k r conflict s = elim (Outcome-cases (may_join d k r conflict s)) [
    | inl (e, refused) ↦ rw (refused, join_chat_room) refl
    | inr (u, granted) ↦
        rw (granted, join_chat_room) (ap (d.rooms.get q) (add_member_frame d r k s).1)
  ]
