-- ===== src/Db/Rooms/Guards.antt =====
-- What holds when the guards of an operation let it pass.
use bluechat.Base.{
  ℕ, ◌≤◌, ◌<◌, ◌≡◌, ◌≢◌, ◌⊎◌, refl, inl, inr, true, false, Option, none, some, is_id, is_some,
  arith, Option-cases,
}
use bluechat.Db.Models.{Database, State, User, ChatRoom, RoomStatus}
use bluechat.Db.Users.{get_user}
use bluechat.Db.Rooms.{
  RoomError, Outcome, ok, err, active_room, get_room, is_deleted, may_create, may_join, may_leave,
  owned_room, may_kick, live_room, may_set_open,
}
use bluechat.Db.Rooms.Effects.{active}

pub Outcome-cases {ℓ} :
    {A : Type ℓ} (o : Outcome A) → ((e : RoomError) × (o ≡ err e)) ⊎ ((a : A) × (o ≡ ok a))
Outcome-cases (ok a) = inr (a, refl)
Outcome-cases (err e) = inl (e, refl)

module _ (d : Database) where
  pub may_leave-grants :
      (peek : Option User) (k : ℕ) (s : State d) (r : ℕ) (room : ChatRoom)
      → may_leave d peek k s ≡ ok (r, room)
      → (active_room peek ≡ some r) × (get_room d r s ≡ some room) × (room.owner_id ≢ k)
  unfolding may_leave
  may_leave-grants peek k s r room h = ground arith

  pub may_leave-passes :
      (u : User) (k : ℕ) (s : State d) (r : ℕ) (room : ChatRoom)
      → u.active_room_id ≡ some r
      → get_room d r s ≡ some room
      → is_some (get_user d k s) ≡ true
      → room.owner_id ≢ k
      → may_leave d (some u) k s ≡ ok (r, room)
  unfolding may_leave
  may_leave-passes u k s r room seen er known member = ground (arith, seen, er, known, member)

  pub owned_room-grants :
      (peek : Option User) (owner : ℕ) (s : State d) (r : ℕ) (room : ChatRoom)
      → owned_room d peek owner s ≡ ok (r, room)
      → (get_room d r s ≡ some room) × (room.owner_id ≡ owner)
  unfolding owned_room
  owned_room-grants peek owner s r room h = ground arith

  pub may_kick-grants :
      (peek : Option User) (owner target : ℕ) (s : State d) (r : ℕ) (room : ChatRoom)
      → may_kick d peek owner target s ≡ ok (r, room)
      → (get_room d r s ≡ some room)
        × (is_id r (active d target s) ≡ true)
        × (room.owner_id ≡ owner)
        × (target ≢ owner)
  unfolding may_kick
  may_kick-grants peek owner target s r room h = ground arith

  pub may_join-grants :
      (k r : ℕ) (conflict : Option RoomError) (s : State d) (u : User)
      → may_join d k r conflict s ≡ ok u
      → (room : ChatRoom) × (get_room d r s ≡ some room)
        × (get_user d k s ≡ some u)
        × (u.active_room_id ≡ none)
        × (conflict ≡ none)
        × (room.status ≡ RoomStatus.opened)
        × (d.members.count r s.members < room.capacity)
  unfolding may_join
  may_join-grants k r conflict s u h = elim (Option-cases (get_room d r s)) [
    | inl e ↦ ground arith
    | inr (room, e) ↦
        (room, e, ground arith, ground arith, ground arith, ground arith, ground arith)
  ]

  pub may_create-grants :
      (owner cost : ℕ) (conflict : Option RoomError) (s : State d) (u : User)
      → may_create d owner cost conflict s ≡ ok u
      → (get_user d owner s ≡ some u)
        × (u.active_room_id ≡ none)
        × (conflict ≡ none)
        × (cost ≤ u.coins)
  unfolding may_create
  may_create-grants owner cost conflict s u h = ground arith

  pub may_set_open-grants :
      (peek : Option User) (owner : ℕ) (s : State d) (r : ℕ) (room : ChatRoom)
      → may_set_open d peek owner s ≡ ok (r, room)
      → (get_room d r s ≡ some room) × (is_deleted room.status ≡ false) × (room.owner_id ≡ owner)
  unfolding may_set_open
  may_set_open-grants peek owner s r room h = ground arith

  pub live_room-grants :
      (r : ℕ) (s : State d) (room : ChatRoom)
      → live_room d r s ≡ ok room
      → (get_room d r s ≡ some room) × (is_deleted room.status ≡ false)
  unfolding live_room
  live_room-grants r s room h = ground arith
