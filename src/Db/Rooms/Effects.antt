-- ===== src/Db/Rooms/Effects.antt =====
-- What the building blocks of the room operations do to the tables.
use bluechat.Base.{
  ℕ, ◌≤◌, ◌≡◌, refl, ap, ◌∙◌, inl, inr, Bool, true, false, is_id, ◌&&◌, Option, none, some, List,
  [], ◌∷◌, ◌==◌, if◌then◌else◌, is_some, elem, arith, Option-cases,
}
use bluechat.Db.Models.{Database, State, User, ChatRoom, RoomStatus}
use bluechat.Db.Users.{get_user}
use bluechat.Db.Rooms.{active_room, set_active, release_all, disband, add_member, remove_member}

module _ (d : Database) where
  -- `active_room_id` of a user; of no user at all it is `none`.
  abbrev pub active : ℕ → State d → Option ℕ
  active k s = active_room (get_user d k s)

  -- The room that a first read of the row of `k` saw is his room still; it may have seen none.
  abbrev pub still_there : Option User → ℕ → State d → Bool
  still_there peek k s = elim (active_room peek) [ none ↦ true | some r ↦ is_id r (active k s) ]

  pub read_now : (k : ℕ) (s : State d) → still_there (get_user d k s) k s ≡ true
  read_now k s = ground arith

  active-set_active :
      (j k : ℕ) (v : Option ℕ) (s : State d)
      → active j (set_active d k v s)
        ≡ (if (j == k) && is_some (get_user d k s) then v else active j s)
  unfolding set_active
  active-set_active j k v s = elim (Option-cases (get_user d k s)) [
    | inl e ↦ rw (e, set_active) (ground arith)
    | inr (u, e) ↦
        rw (e, set_active)
          (ground (arith, d.users.get-put j k (record u { active_room_id = v }) s.users))
  ]

  -- Only the users' table is written.
  set_active_frame :
      (k : ℕ) (v : Option ℕ) (s : State d)
      → ((set_active d k v s).members ≡ s.members)
        × ((set_active d k v s).rooms ≡ s.rooms)
        × ((set_active d k v s).transactions ≡ s.transactions)
  unfolding set_active
  set_active_frame k v s = elim (Option-cases (get_user d k s)) [
    | inl e ↦ rw (e, set_active) (refl, refl, refl)
    | inr (u, e) ↦ rw (e, set_active) (refl, refl, refl)
  ]

  active_of_no_user : (k : ℕ) (s : State d) → is_some (get_user d k s) ≡ false → active k s ≡ none
  active_of_no_user k s h = ground arith

  active-clear :
      (j k : ℕ) (s : State d)
      → active j (set_active d k none s) ≡ (if j == k then none else active j s)
  active-clear j k s = ground (arith, active-set_active j k none s, active_of_no_user j s)

  active-release_all :
      (j : ℕ) (ks : List ℕ) (s : State d)
      → active j (release_all d ks s) ≡ (if elem j ks then none else active j s)
  unfolding release_all
  active-release_all j [] s = refl
  active-release_all j (k ∷ ks) s = ground (
    arith,
    active-release_all j ks (set_active d k none s),
    active-set_active j k none s,
    active_of_no_user j s,
  )

  release_all_frame :
      (ks : List ℕ) (s : State d)
      → ((release_all d ks s).members ≡ s.members)
        × ((release_all d ks s).rooms ≡ s.rooms)
        × ((release_all d ks s).transactions ≡ s.transactions)
  unfolding release_all
  release_all_frame [] s = (refl, refl, refl)
  release_all_frame (k ∷ ks) s =
      let rest = release_all_frame ks (set_active d k none s) in
      let one = set_active_frame k none s in (rest.0 ∙ one.0, rest.1 ∙ one.1, rest.2 ∙ one.2)

  -- A member makes the room's count positive.
  pub count-pos :
      (r k : ℕ) (s : State d) → d.members.has r k s.members ≡ true → 1 ≤ d.members.count r s.members
  count-pos r k s h = ground (arith, d.members.count-remove r r k s.members)

  pub remove_member_frame :
      (r k : ℕ) (s : State d)
      → ((remove_member d r k s).members ≡ d.members.remove r k s.members)
        × ((remove_member d r k s).rooms ≡ s.rooms)
        × ((remove_member d r k s).transactions ≡ s.transactions)
  unfolding remove_member
  remove_member_frame r k s =
      set_active_frame k none (record s { members = d.members.remove r k s.members })

  pub active-remove_member :
      (j r k : ℕ) (s : State d)
      → active j (remove_member d r k s) ≡ (if j == k then none else active j s)
  unfolding remove_member
  active-remove_member j r k s =
      active-clear j k (record s { members = d.members.remove r k s.members })

  pub add_member_frame :
      (r k : ℕ) (s : State d)
      → ((add_member d r k s).members ≡ d.members.insert r k s.members)
        × ((add_member d r k s).rooms ≡ s.rooms)
        × ((add_member d r k s).transactions ≡ s.transactions)
  unfolding add_member
  add_member_frame r k s =
      set_active_frame k (some r) (record s { members = d.members.insert r k s.members })

  pub active-add_member :
      (j r k : ℕ) (s : State d)
      → active j (add_member d r k s)
        ≡ (if (j == k) && is_some (get_user d k s) then some r else active j s)
  unfolding add_member
  active-add_member j r k s =
      active-set_active j k (some r) (record s { members = d.members.insert r k s.members })

  pub disband_frame :
      (r : ℕ) (room : ChatRoom) (ks : List ℕ) (s : State d)
      → ((disband d r room ks s).members ≡ d.members.clear r s.members)
        × ((disband d r room ks s).rooms
            ≡ d.rooms.put r (record room { status = RoomStatus.deleted }) s.rooms)
        × ((disband d r room ks s).transactions ≡ s.transactions)
  unfolding disband
  disband_frame r room ks s =
      let freed = release_all_frame ks s in
      (
        ap (d.members.clear r) freed.0,
        ap (d.rooms.put r (record room { status = RoomStatus.deleted })) freed.1,
        freed.2,
      )

  pub active-disband :
      (j r : ℕ) (room : ChatRoom) (ks : List ℕ) (s : State d)
      → active j (disband d r room ks s) ≡ (if elem j ks then none else active j s)
  unfolding disband
  active-disband j r room ks s = active-release_all j ks s
