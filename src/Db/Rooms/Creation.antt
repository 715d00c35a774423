-- ===== src/Db/Rooms/Creation.antt =====
-- A new room: paid for, and in order.
use Prim.Native.Nat.{max}
use bluechat.Base.{
  ℕ, ◌-◌, ◌≤◌, ◌≡◌, refl, sym, ap, ◌∙◌, inl, inr, Option, none, some, ◌==◌, is_id, arith,
  Bool-cases, min,
}
use bluechat.Base.Int.{ℤ, neg}
use bluechat.Db.Models.{Database, State, User, ChatRoom, RoomStatus, RoomGenderPref, Reason}
use bluechat.Db.Users.{get_user}
use bluechat.Db.Coins.{book}
use bluechat.Db.Rooms.{RoomError, get_room, add_member, save_room, may_create, create_chat_room}
use bluechat.Db.Rooms.Effects.{active, add_member_frame}
use bluechat.Db.Rooms.Guards.{Outcome-cases, may_create-grants}
use bluechat.Db.Rooms.Invariant.{RoomsInv, RoomOk-same, add_member-agree}

module _ (d : Database) where
  -- A booking moves nobody into a room or out of one.
  pub active-book :
      (j k : ℕ) (u : User) (new : ℕ) (a : ℤ) (reason : Reason) (s : State d)
      → get_user d k s ≡ some u
      → active d j (book d k u new a reason s) ≡ active d j s
  unfolding book
  active-book j k u new a reason s e =
      ground (arith, d.users.get-put j k (record u { coins = new }) s.users)

  -- A room that has just been written under a fresh id, with its owner as the only member.
  open_room-RoomsInv :
      (s : State d) (k : ℕ) (u : User) (room : ChatRoom)
      → RoomsInv d s
      → get_user d k s ≡ some u
      → u.active_room_id ≡ none
      → room.owner_id ≡ k
      → room.status ≡ RoomStatus.opened
      → 2 ≤ room.capacity
      → room.capacity ≤ 5
      → let r : ℕ = d.rooms.next_id s.rooms in RoomsInv d (add_member d r k (save_room d r room s))
  open_room-RoomsInv s k u room v e free owner opened lo hi =
      let r : ℕ = d.rooms.next_id s.rooms in
      let written : State d = save_room d r room s in
      let frame = add_member_frame d r k written in
      let empty : d.members.count r s.members ≡ 0 =
        rw (d.rooms.get-next_id s.rooms) at (v.fits r) in
      record {
        agree = add_member-agree d written r k u v.agree e free;
        fits = λ q.
            rw (frame.0, frame.1, d.rooms.get-put q r room s.rooms)
              (elim (Bool-cases (q == r)) [
                | inl same ↦
                    rw (same, opened)
                      (
                        lo,
                        hi,
                        ground (arith, empty, v.agree r k, d.members.count-insert q r k s.members),
                        ground (arith, d.members.has-insert q room.owner_id r k s.members),
                      )
                | inr other ↦ rw other (
                    RoomOk-same d q s.members (d.members.insert r k s.members) (get_room d q s)
                      (ground (arith, v.agree r k, d.members.count-insert q r k s.members))
                      (λ j. ground (arith, d.members.has-insert q j r k s.members)) (v.fits q))
              ]);
      }

  pub book-RoomsInv :
      (k : ℕ) (u : User) (new : ℕ) (a : ℤ) (reason : Reason) (s : State d)
      → get_user d k s ≡ some u
      → RoomsInv d s
      → RoomsInv d (book d k u new a reason s)
  unfolding book
  book-RoomsInv k u new a reason s e v = record {
    agree = λ q j. v.agree q j ∙ sym (ap (is_id q) (active-book j k u new a reason s e));
    fits = v.fits;
  }

  -- The payer's row after the booking.
  pub get_user-book :
      (k : ℕ) (u : User) (new : ℕ) (a : ℤ) (reason : Reason) (s : State d)
      → get_user d k (book d k u new a reason s) ≡ some (record u { coins = new })
  unfolding book
  get_user-book k u new a reason s =
      ground (arith, d.users.get-put k k (record u { coins = new }) s.users)

  clamp-capacity : (n : ℕ) → (2 ≤ max 2 (min 5 n)) × (max 2 (min 5 n) ≤ 5)
  clamp-capacity n = omega arith

  -- A new room keeps the rooms in order: its id is new, its owner had no room, and the asked
  -- capacity is brought between 2 and 5.
  pub create_chat_room-RoomsInv :
      (owner : ℕ) (pref : RoomGenderPref) (capacity cost : ℕ) (conflict : Option RoomError)
      (s : State d)
      → RoomsInv d s
      → RoomsInv d (create_chat_room d owner pref capacity cost conflict s).0
  unfolding create_chat_room book
  create_chat_room-RoomsInv owner pref capacity cost conflict s v =
      elim (Outcome-cases (may_create d owner cost conflict s)) [
        | inl (e, refused) ↦ rw (refused, create_chat_room) v
        | inr (u, granted) ↦
            let facts = may_create-grants d owner cost conflict s u granted in
            let paid : State d =
              book d owner u (u.coins - cost) (neg cost) Reason.chat_room_create s in
            let size = clamp-capacity capacity in
            rw (granted, create_chat_room)
              (open_room-RoomsInv paid owner (record u { coins = u.coins - cost }) _
                (book-RoomsInv owner u _ _ _ s facts.0 v)
                (get_user-book owner u (u.coins - cost) (neg cost) Reason.chat_room_create s)
                facts.1 refl refl size.0 size.1)
      ]
