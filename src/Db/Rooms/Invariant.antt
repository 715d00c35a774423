-- ===== src/Db/Rooms/Invariant.antt =====
-- The invariant of the rooms, and the moves that keep it.
use bluechat.Base.{
  ℕ, ◌≤◌, ◌<◌, ◌≡◌, ◌≢◌, refl, ◌∙◌, inl, inr, Bool, true, false, Option, none, some, List, ◌==◌,
  is_id, is_some, arith, Bool-cases, eq_of_test,
}
use bluechat.Db.Models.{Database, State, User, ChatRoom, RoomStatus}
use bluechat.Db.Users.{get_user}
use bluechat.Db.Rooms.{get_room, disband, add_member, remove_member, save_room, is_deleted}
use bluechat.Db.Rooms.Effects.{
  active, remove_member_frame, active-remove_member, add_member_frame, active-add_member,
  disband_frame, active-disband,
}

-- A deleted room is empty; in any other the owner is a member.
abbrev pub Kept : RoomStatus → ℕ → Bool → Type 0
Kept RoomStatus.deleted count owner_in = count ≡ 0
Kept RoomStatus.opened count owner_in = owner_in ≡ true
Kept RoomStatus.closed count owner_in = owner_in ≡ true

-- What is asked of the room with a given id: rows refer to rooms that exist, and a room has
-- between 2 and 5 places and no more members than places.
abbrev pub RoomOk : (d : Database) → d.members.Rows → ℕ → Option ChatRoom → Type 0
RoomOk d m r none = d.members.count r m ≡ 0
RoomOk d m r (some room) =
    (2 ≤ room.capacity)
    × (room.capacity ≤ 5)
    × (d.members.count r m ≤ room.capacity)
    × Kept room.status (d.members.count r m) (d.members.has r room.owner_id m)

-- `chat_room_members` and `users.active_room_id` agree, so nobody is in two rooms.
pub record RoomsInv (d : Database) (s : State d) : Type 0 where
  pub agree : (r k : ℕ) → d.members.has r k s.members ≡ is_id r (active d k s)
  pub fits : (r : ℕ) → RoomOk d s.members r (get_room d r s)

module _ (d : Database) where
  -- A room stays in order when a member other than the owner is taken out of one.
  RoomOk-remove :
      (q r k : ℕ) (m : d.members.Rows) (o : Option ChatRoom)
      → ((room : ChatRoom) → o ≡ some room → q ≡ r → room.owner_id ≢ k)
      → RoomOk d m q o
      → RoomOk d (d.members.remove r k m) q o
  RoomOk-remove q r k m none keep h = ground (arith, d.members.count-remove q r k m)
  RoomOk-remove q r k m (some room) keep (lo, hi, fits, kept) =
      (lo, hi, ground (arith, d.members.count-remove q r k m), still room.status kept)
    where
      still :
          (st : RoomStatus)
          → Kept st (d.members.count q m) (d.members.has q room.owner_id m)
          → Kept st
              (d.members.count q (d.members.remove r k m))
              (d.members.has q room.owner_id (d.members.remove r k m))
      still RoomStatus.deleted none_in = ground (arith, d.members.count-remove q r k m)
      still RoomStatus.opened owner_in =
          ground (arith, d.members.has-remove q room.owner_id r k m, keep room refl)
      still RoomStatus.closed owner_in =
          ground (arith, d.members.has-remove q room.owner_id r k m, keep room refl)

  pub remove_member-RoomsInv :
      (s : State d) (r k : ℕ) (room : ChatRoom)
      → RoomsInv d s
      → get_room d r s ≡ some room
      → is_id r (active d k s) ≡ true
      → room.owner_id ≢ k
      → RoomsInv d (remove_member d r k s)
  remove_member-RoomsInv s r k room v e h ne =
      let frame = remove_member_frame d r k s in
      record {
        agree = λ q j. ground (
          arith,
          frame.0,
          active-remove_member d j r k s,
          d.members.has-remove q j r k s.members,
          v.agree q j,
          h,
        );
        fits = λ q.
            rw (frame.0, frame.1)
              (RoomOk-remove q r k s.members (get_room d q s) (λ other at same. ground arith)
                (v.fits q));
      }

  -- What a room needs is read off its own rows.
  pub RoomOk-same :
      (q : ℕ) (m m' : d.members.Rows) (o : Option ChatRoom)
      → d.members.count q m' ≡ d.members.count q m
      → ((k : ℕ) → d.members.has q k m' ≡ d.members.has q k m)
      → RoomOk d m q o
      → RoomOk d m' q o
  RoomOk-same q m m' none c h ok = c ∙ ok
  RoomOk-same q m m' (some room) c h ok = rw (c, h room.owner_id) ok

  -- Only the given room changes in `d.rooms.put r room`, and by its status at most.
  RoomOk-clear :
      (q r : ℕ) (room : ChatRoom) (m : d.members.Rows) (rooms : d.rooms.Rows)
      → RoomOk d m r (some room)
      → RoomOk d m q (d.rooms.get q rooms)
      → RoomOk d
          (d.members.clear r m)
          q
          (d.rooms.get q (d.rooms.put r (record room { status = RoomStatus.deleted }) rooms))
  RoomOk-clear q r room m rooms here there =
      rw (d.rooms.get-put q r (record room { status = RoomStatus.deleted }) rooms)
        (elim (Bool-cases (q == r)) [
          | inl same ↦ rw same (
            here.0,
            here.1,
            ground (arith, d.members.count-clear q r m),
            ground (arith, d.members.count-clear q r m),
          )
          | inr other ↦ rw other (
              RoomOk-same q m (d.members.clear r m) (d.rooms.get q rooms)
                (ground (arith, d.members.count-clear q r m))
                (λ k. ground (arith, d.members.has-clear q k r m)) there)
        ])

  pub disband-RoomsInv :
      (s : State d) (r : ℕ) (room : ChatRoom)
      → RoomsInv d s
      → get_room d r s ≡ some room
      → RoomsInv d (disband d r room (d.members.user_ids r s.members) s)
  disband-RoomsInv s r room v e =
      let ids : List ℕ = d.members.user_ids r s.members in
      let frame = disband_frame d r room ids s in
      record {
        agree = λ q j. ground (
          arith,
          frame.0,
          active-disband d j r room ids s,
          d.members.elem-user_ids r j s.members,
          d.members.has-clear q j r s.members,
          v.agree q j,
          v.agree r j,
        );
        fits = λ q.
            rw (frame.0, frame.1)
              (RoomOk-clear q r room s.members s.rooms (rw e at (v.fits r)) (v.fits q));
      }

  -- Written again with a status that lets it live, a room that was not deleted stays in order.
  RoomOk-status :
      (q : ℕ) (room : ChatRoom) (st : RoomStatus) (m : d.members.Rows)
      → is_deleted room.status ≡ false
      → is_deleted st ≡ false
      → RoomOk d m q (some room)
      → RoomOk d m q (some (record room { status = st }))
  RoomOk-status q room st m live alive (lo, hi, fits, kept) =
      (lo, hi, fits, go room.status st live alive kept)
    where
      go :
          (old new : RoomStatus)
          → is_deleted old ≡ false
          → is_deleted new ≡ false
          → Kept old (d.members.count q m) (d.members.has q room.owner_id m)
          → Kept new (d.members.count q m) (d.members.has q room.owner_id m)
      go old RoomStatus.deleted live alive kept = cc
      go RoomStatus.deleted RoomStatus.opened live alive kept = cc
      go RoomStatus.opened RoomStatus.opened live alive kept = kept
      go RoomStatus.closed RoomStatus.opened live alive kept = kept
      go RoomStatus.deleted RoomStatus.closed live alive kept = cc
      go RoomStatus.opened RoomStatus.closed live alive kept = kept
      go RoomStatus.closed RoomStatus.closed live alive kept = kept

  pub save_status-RoomsInv :
      (s : State d) (r : ℕ) (room : ChatRoom) (st : RoomStatus)
      → RoomsInv d s
      → get_room d r s ≡ some room
      → is_deleted room.status ≡ false
      → is_deleted st ≡ false
      → RoomsInv d (save_room d r (record room { status = st }) s)
  save_status-RoomsInv s r room st v e live alive = record {
    agree = v.agree;
    fits = λ q.
        rw (d.rooms.get-put q r (record room { status = st }) s.rooms) (elim (Bool-cases (q == r)) [
          | inl same ↦
              rw (same, eq_of_test q r same)
                (RoomOk-status r room st s.members live alive (rw e at (v.fits r)))
          | inr other ↦ rw other (v.fits q)
        ]);
  }

  -- One more member, where there is a place for him.
  pub RoomOk-insert :
      (q r k : ℕ) (m : d.members.Rows) (o : Option ChatRoom)
      → d.members.has r k m ≡ false
      → ((room : ChatRoom)
          → o ≡ some room
          → q ≡ r
          → (d.members.count r m < room.capacity) × (is_deleted room.status ≡ false))
      → (q ≡ r → is_some o ≡ true)
      → RoomOk d m q o
      → RoomOk d (d.members.insert r k m) q o
  RoomOk-insert q r k m none new place there h = ground (arith, d.members.count-insert q r k m)
  RoomOk-insert q r k m (some room) new place there (lo, hi, fits, kept) = (
    lo,
    hi,
    ground (arith, d.members.count-insert q r k m, place room refl),
    still room.status kept (λ same. (place room refl same).1),
  )
    where
      still :
          (st : RoomStatus)
          → Kept st (d.members.count q m) (d.members.has q room.owner_id m)
          → (q ≡ r → is_deleted st ≡ false)
          → Kept st
              (d.members.count q (d.members.insert r k m))
              (d.members.has q room.owner_id (d.members.insert r k m))
      still RoomStatus.deleted none_in live = ground (arith, d.members.count-insert q r k m)
      still RoomStatus.opened owner_in live =
          ground (arith, d.members.has-insert q room.owner_id r k m)
      still RoomStatus.closed owner_in live =
          ground (arith, d.members.has-insert q room.owner_id r k m)

  pub add_member-agree :
      (s : State d) (r k : ℕ) (u : User)
      → ((q j : ℕ) → d.members.has q j s.members ≡ is_id q (active d j s))
      → get_user d k s ≡ some u
      → u.active_room_id ≡ none
      → (q j : ℕ)
      → d.members.has q j (add_member d r k s).members ≡ is_id q (active d j (add_member d r k s))
  add_member-agree s r k u agree e free q j = ground (
    arith,
    (add_member_frame d r k s).0,
    active-add_member d j r k s,
    d.members.has-insert q j r k s.members,
    agree q j,
  )

  pub add_member-RoomsInv :
      (s : State d) (r k : ℕ) (u : User) (room : ChatRoom)
      → RoomsInv d s
      → get_user d k s ≡ some u
      → u.active_room_id ≡ none
      → get_room d r s ≡ some room
      → is_deleted room.status ≡ false
      → d.members.count r s.members < room.capacity
      → RoomsInv d (add_member d r k s)
  add_member-RoomsInv s r k u room v eu free er live place =
      let frame = add_member_frame d r k s in
      record {
        agree = add_member-agree s r k u v.agree eu free;
        fits = λ q.
            rw (frame.0, frame.1)
              (RoomOk-insert q r k s.members (get_room d q s) (v.agree r k ∙ ground arith)
                (λ other at same. ground arith) (λ same. ground arith) (v.fits q));
      }
