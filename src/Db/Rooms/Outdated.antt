-- ===== src/Db/Rooms/Outdated.antt =====
-- A user who leaves a room by a first read that is out of date.
use bluechat.Base.{ℕ, ◌≡◌, ◌≢◌, refl, ◌∙◌, inl, inr, true, none, some, List, leb, arith, Bool-cases}
use bluechat.Db.Models.{Database, State, User, ChatRoom}
use bluechat.Db.Rooms.{ok, get_room, remove_member, vacate, LeaveInfo, leave_chat_room}
use bluechat.Db.Rooms.Effects.{
  active, remove_member_frame, active-remove_member, active-disband, disband_frame,
}
use bluechat.Db.Rooms.Guards.{may_leave-passes}
use bluechat.Db.Rooms.Invariant.{RoomsInv}

module _ (d : Database) where
  has-vacate :
      (q r k : ℕ) (room : ChatRoom) (s : State d)
      → r ≢ q
      → let s' = (vacate d r room k s).0 in
        (d.members.has q k s'.members ≡ d.members.has q k s.members) × (active d k s' ≡ none)
  unfolding vacate
  has-vacate q r k room s ne =
      let left : State d = remove_member d r k s in
      let ids : List ℕ = d.members.user_ids r left.members in
      let row : d.members.has q k left.members ≡ d.members.has q k s.members =
        ground
          (arith, ne, (remove_member_frame d r k s).0, d.members.has-remove q k r k s.members) in
      elim (Bool-cases (leb (d.members.count r left.members) 1)) [
        | inl alone ↦
            rw (alone, vacate)
              (
                ground (
                  arith,
                  ne,
                  row,
                  (disband_frame d r room ids left).0,
                  d.members.has-clear q k r left.members,
                ),
                ground (arith, active-disband d k r room ids left, active-remove_member d k r k s),
              )
        | inr more ↦ rw (more, vacate) (row, ground (arith, active-remove_member d k r k s))
      ]

  -- A user who has moved from one room to another after the first read of his own leave, and does
  -- not own the first, is not refused: his `active_room_id` is cleared, and his row in the room that
  -- he has moved to stays.
  pub leave_chat_room_stale :
      (u : User) (k r q : ℕ) (room : ChatRoom) (s : State d)
      → RoomsInv d s
      → u.active_room_id ≡ some r
      → active d k s ≡ some q
      → r ≢ q
      → get_room d r s ≡ some room
      → room.owner_id ≢ k
      → let (s', answer) = leave_chat_room d (some u) k s in
        (d.members.has q k s'.members ≡ true)
        × (active d k s' ≡ none)
        × ((info : LeaveInfo) × (answer ≡ ok info) × (info.room_id ≡ r))
  unfolding leave_chat_room
  leave_chat_room_stale u k r q room s v seen now ne er member =
      let (row, cleared) = has-vacate q r k room s ne in
      rw (may_leave-passes d u k s r room seen er (ground (arith, now)) member, leave_chat_room)
        (row ∙ v.agree q k ∙ ground (arith, now), cleared, (_, refl, refl))
