-- ===== src/Db/RoomLists.antt =====
-- The queries of db/queries.py that read whole tables for the chat rooms. Rooms get their ids in
-- the order in which they are created, so the oldest is the one with the smallest id.
use bluechat.Base.{
  ℕ, ◌≤◌, ◌≡◌, ◌∙◌, ap, refl, inl, inr, Bool, true, false, ◌&&◌, Option, none, some, List, [], ◌∷◌,
  ltb, if◌then◌else◌, min, lookup, Distinct, arith, ◌==◌, ==-refl, leb, eq_of_test, Bool-cases,
  Option-cases, leb→le, not_leb→le,
}
use bluechat.Db.Models.{Database, State, User, ChatRoom, RoomGenderPref}
use bluechat.Db.Rooms.{get_room, is_open}
use bluechat.Db.Rooms.Effects.{active}

-- A search for any room takes every room, and a room for any takes every search.
abbrev pub accepts : RoomGenderPref → RoomGenderPref → Bool
accepts RoomGenderPref.any _ = true
accepts _ RoomGenderPref.any = true
accepts RoomGenderPref.male RoomGenderPref.male = true
accepts RoomGenderPref.female RoomGenderPref.female = true
accepts _ _ = false

-- The users who have an active room, with the room.
abbrev pub in_rooms : List (ℕ × User) → List (ℕ × ℕ)
in_rooms [] = []
in_rooms ((k, u) ∷ m) = elim u.active_room_id [ none ↦ in_rooms m | some r ↦ (k, r) ∷ in_rooms m ]

-- The smaller of an id and what has been found.
abbrev older : ℕ → Option ℕ → ℕ
older r none = r
older r (some q) = min r q

-- The smallest id of the rooms that pass a test.
unfoldable pub oldest : (ℕ → ChatRoom → Bool) → List (ℕ × ChatRoom) → Option ℕ
oldest p [] = none
oldest p ((r, room) ∷ m) = let rest = oldest p m in if p r room then some (older r rest) else rest

abbrev pub ids_of : (ℕ → ChatRoom → Bool) → List (ℕ × ChatRoom) → List ℕ
ids_of p [] = []
ids_of p ((r, room) ∷ m) = let rest = ids_of p m in if p r room then r ∷ rest else rest

-- What `oldest` promises.
abbrev pub Oldest : (ℕ → ChatRoom → Bool) → List (ℕ × ChatRoom) → Option ℕ → Type 0
Oldest p m none = (q : ℕ) (room : ChatRoom) → lookup q m ≡ some room → p q room ≡ false
Oldest p m (some r) =
    ((room : ChatRoom) × (lookup r m ≡ some room) × (p r room ≡ true))
    × ((q : ℕ) (room : ChatRoom) → lookup q m ≡ some room → p q room ≡ true → r ≤ q)

-- One more row, under a new id.
Oldest-passes :
    (p : ℕ → ChatRoom → Bool) (r : ℕ) (room : ChatRoom) (m : List (ℕ × ChatRoom)) (rest : Option ℕ)
    → lookup r m ≡ none
    → p r room ≡ true
    → Oldest p m rest
    → Oldest p ((r, room) ∷ m) (some (older r rest))
Oldest-passes p r room m none fresh passes h = (
  (room, ground (arith, ==-refl r), passes),
  λ q other e good. elim (Bool-cases (q == r)) [
    | inl same ↦ ground (arith, eq_of_test q r same)
    | inr apart ↦ ground (arith, h q other (ground (arith, e, apart)), good)
  ],
)
Oldest-passes p r room m (some t) fresh passes ((found, et, good_t), h) = (
  elim (Bool-cases (leb r t)) [
    | inl sooner ↦
        let least : min r t ≡ r = omega (arith, leb→le r t sooner) in
        rw least (room, ground (arith, ==-refl r), passes)
    | inr later ↦
        let least : min r t ≡ t = omega (arith, not_leb→le r t later) in
        (
          found,
          ap (λ x. lookup x ((r, room) ∷ m)) least ∙ ground (arith, et, fresh, eq_of_test t r),
          ap (λ x. p x found) least ∙ good_t,
        )
  ],
  λ q other e good. elim (Bool-cases (q == r)) [
    | inl same ↦ ground (arith, eq_of_test q r same)
    | inr apart ↦ ground (arith, h q other (ground (arith, e, apart)) good)
  ],
)

Oldest-fails :
    (p : ℕ → ChatRoom → Bool) (r : ℕ) (room : ChatRoom) (m : List (ℕ × ChatRoom)) (rest : Option ℕ)
    → lookup r m ≡ none
    → p r room ≡ false
    → Oldest p m rest
    → Oldest p ((r, room) ∷ m) rest
Oldest-fails p r room m none fresh fails h = λ q other e. elim (Bool-cases (q == r)) [
  | inl same ↦ ground (arith, fails, e, same, eq_of_test q r same)
  | inr apart ↦ h q other (ground (arith, e, apart))
]
Oldest-fails p r room m (some t) fresh fails ((found, et, good_t), h) = (
  (found, ground (arith, et, fresh, eq_of_test t r), good_t),
  λ q other e good. elim (Bool-cases (q == r)) [
    | inl same ↦ ground (arith, fails, e, same, eq_of_test q r same, good)
    | inr apart ↦ h q other (ground (arith, e, apart)) good
  ],
)

pub oldest-Oldest :
    (p : ℕ → ChatRoom → Bool) (m : List (ℕ × ChatRoom)) → Distinct m → Oldest p m (oldest p m)
unfolding oldest
oldest-Oldest p [] d = λ q room h. ground (arith, h)
oldest-Oldest p ((r, room) ∷ m) (fresh, d) = elim (Bool-cases (p r room)) [
  | inl passes ↦
      rw (passes, oldest) (Oldest-passes p r room m (oldest p m) fresh passes (oldest-Oldest p m d))
  | inr fails ↦
      rw (fails, oldest) (Oldest-fails p r room m (oldest p m) fresh fails (oldest-Oldest p m d))
]

lookup-in_rooms :
    (k : ℕ) (m : List (ℕ × User))
    → Distinct m
    → lookup k (in_rooms m) ≡ (elim (lookup k m) [ none ↦ none | some u ↦ u.active_room_id ])
lookup-in_rooms k [] d = refl
lookup-in_rooms k ((j, u) ∷ m) (fresh, d) = elim (Option-cases u.active_room_id) [
  | inl nowhere ↦ ground (arith, nowhere, fresh, lookup-in_rooms k m d, eq_of_test k j)
  | inr (r, inside) ↦ ground (arith, inside, lookup-in_rooms k m d)
]

module _ (d : Database) where
  unfoldable pub has_place : ℕ → ChatRoom → State d → Bool
  has_place r room s = is_open room.status && ltb (d.members.count r s.members) room.capacity

  unfoldable pub list_users_with_active_room : State d → List (ℕ × ℕ)
  list_users_with_active_room s = in_rooms (d.users.rows s.users)

  unfoldable pub list_open_room_ids_with_spare_capacity : State d → List ℕ
  unfolding has_place
  list_open_room_ids_with_spare_capacity s =
      ids_of (λ r room. has_place r room s) (d.rooms.rows s.rooms)

  unfoldable pub find_open_room_for_join : RoomGenderPref → State d → Option ℕ
  unfolding oldest has_place
  find_open_room_for_join wanted s =
      oldest (λ r room. has_place r room s && accepts wanted room.gender_pref)
        (d.rooms.rows s.rooms)

  -- A room that the search may enter.
  abbrev pub Suits : RoomGenderPref → ℕ → State d → Type 0
  Suits wanted r s =
      (room : ChatRoom) × (get_room d r s ≡ some room)
      × (has_place r room s ≡ true)
      × (accepts wanted room.gender_pref ≡ true)

  abbrev pub Found : RoomGenderPref → State d → Option ℕ → Type 0
  Found wanted s none = (q : ℕ) → ¬ Suits wanted q s
  Found wanted s (some r) = Suits wanted r s × ((q : ℕ) → Suits wanted q s → r ≤ q)

  Oldest-Found :
      (wanted : RoomGenderPref) (s : State d) (found : Option ℕ)
      → Oldest
          (λ r room. has_place r room s && accepts wanted room.gender_pref)
          (d.rooms.rows s.rooms)
          found
      → Found wanted s found
  Oldest-Found wanted s none h = λ q (room, e, place, takes).
      ground (arith, h q room (d.rooms.lookup-rows q s.rooms ∙ e), place, takes)
  Oldest-Found wanted s (some r) ((found, e, good), h) = (
    (
      found,
      ground (arith, e, d.rooms.lookup-rows r s.rooms),
      ground (arith, good),
      ground (arith, good),
    ),
    λ q (room, e, place, takes).
        h q room (d.rooms.lookup-rows q s.rooms ∙ e) (ground (arith, place, takes)),
  )

  -- The room that is proposed is open, has a place left and suits the search, and every other such
  -- room is younger; if none is proposed there is none.
  pub find_open_room_for_join-Found :
      (wanted : RoomGenderPref) (s : State d) → Found wanted s (find_open_room_for_join wanted s)
  unfolding find_open_room_for_join
  find_open_room_for_join-Found wanted s =
      Oldest-Found wanted s (find_open_room_for_join wanted s) (
        oldest-Oldest (λ r room. has_place r room s && accepts wanted room.gender_pref)
          (d.rooms.rows s.rooms) (d.rooms.Distinct-rows s.rooms))

  pub lookup-list_users_with_active_room :
      (k : ℕ) (s : State d) → lookup k (list_users_with_active_room s) ≡ active d k s
  unfolding list_users_with_active_room
  lookup-list_users_with_active_room k s = ground (
    arith,
    lookup-in_rooms k (d.users.rows s.users) (d.users.Distinct-rows s.users),
    d.users.lookup-rows k s.users,
  )
