-- ===== src/Chat/Rooms/Mirrored.antt =====
-- The mirror of `active_room_id` under the handlers of the chat rooms.
use bluechat.Base.{
  ℕ, ◌+◌, ◌≡◌, refl, inl, inr, Bool, true, false, ◌||◌, Option, none, some, List, [], ◌∷◌, ◌==◌,
  if◌then◌else◌, elem, arith, Option-cases, Bool-cases,
}
use bluechat.Db.Models.{Database, State, ChatRoom}
use bluechat.Db.Rooms.{RoomError, get_room, is_open}
use bluechat.Db.Rooms.Effects.{active}
use bluechat.Db.Rooms.Invariant.{RoomsInv}
use bluechat.Db.Rooms.Departures.{Vacated}
use bluechat.Redis.Keys.{Redis, Store}
use bluechat.Redis.RoomQueue.{compatible_buckets}
use bluechat.Chat.RoomSearch.{Lobby}
use bluechat.Chat.Filling.{
  get_active_room, clear_active_room, clear_all, forget, suppress_all, suppress_room_ui,
  unsuppress_room_ui, try_fill_room_from_queue, queued,
}
use bluechat.Chat.Filling.Kept.{Kept, fill-Kept}
use bluechat.Chat.Rooms.{tells_owner, after_refusal, after_vacancy}

module _ (d : Database) (c : Redis) where
  -- The rooms are in order, and the mirror names no room but the user's own.
  pub record Mirrored (w : Lobby d c) : Type 0 where
    pub rooms : RoomsInv d w.db
    pub mirror : (k q : ℕ) → get_active_room d c k w.redis ≡ some q → active d k w.db ≡ some q

  pub Kept-Mirrored :
      (r : ℕ) (room : Option ChatRoom) (w : Lobby d c) → Kept d c r room w → Mirrored w
  Kept-Mirrored r room w v = record { rooms = v.rooms; mirror = v.mirror }

  Mirrored-Kept : (r : ℕ) (w : Lobby d c) → Mirrored w → Kept d c r (get_room d r w.db) w
  Mirrored-Kept r w v = record { rooms = v.rooms; mirror = v.mirror; same = refl }

  -- Those who are gone from their room are gone from the mirror.
  pub moved-Mirrored :
      (w w' : Lobby d c) (gone : ℕ → Bool)
      → RoomsInv d w'.db
      → ((j : ℕ) → active d j w'.db ≡ (if gone j then none else active d j w.db))
      → ((j : ℕ)
          → get_active_room d c j w'.redis
            ≡ (if gone j then none else get_active_room d c j w.redis))
      → Mirrored w
      → Mirrored w'
  moved-Mirrored w w' gone rooms moved cleared v = record {
    rooms = rooms;
    mirror = λ k q h. ground (arith, h, moved k, cleared k, v.mirror k q);
  }

  pub get_active_room-clear_active_room :
      (j k : ℕ) (s : Store c)
      → get_active_room d c j (clear_active_room d c k s)
        ≡ (if j == k then none else get_active_room d c j s)
  unfolding clear_active_room
  get_active_room-clear_active_room j k s = c.active_room.get-del j k s.active_room

  pub get_active_room-clear_all :
      (j : ℕ) (ks : List ℕ) (s : Store c)
      → get_active_room d c j (clear_all d c ks s)
        ≡ (if elem j ks then none else get_active_room d c j s)
  unfolding clear_all
  get_active_room-clear_all j [] s = refl
  get_active_room-clear_all j (k ∷ ks) s = ground (
    arith,
    get_active_room-clear_all j ks (clear_active_room d c k s),
    get_active_room-clear_active_room j k s,
  )

  pub get_active_room-suppress_all :
      (j : ℕ) (away : Bool) (ks : List ℕ) (s : Store c)
      → get_active_room d c j (suppress_all d c away ks s) ≡ get_active_room d c j s
  unfolding suppress_all suppress_room_ui unsuppress_room_ui
  get_active_room-suppress_all j away [] s = refl
  get_active_room-suppress_all j true (k ∷ ks) s =
      get_active_room-suppress_all j true ks (suppress_room_ui d c k s)
  get_active_room-suppress_all j false (k ∷ ks) s =
      get_active_room-suppress_all j false ks (unsuppress_room_ui d c k s)

  pub forget-Mirrored : (k : ℕ) (w : Lobby d c) → Mirrored w → Mirrored (forget d c k w)
  forget-Mirrored k w v = record {
    rooms = v.rooms;
    mirror =
        λ j q h. ground (arith, h, get_active_room-clear_active_room j k w.redis, v.mirror j q);
  }

  pub after_refusal-Mirrored :
      (k : ℕ) (e : RoomError) (w : Lobby d c) → Mirrored w → Mirrored (after_refusal d c k e w)
  unfolding after_refusal
  after_refusal-Mirrored k e w v = elim (Bool-cases (tells_owner e)) [
    | inl told ↦ rw told v
    | inr missing ↦ rw missing (forget-Mirrored k w v)
  ]

  pub try_fill_room_from_queue-Mirrored :
      (r : ℕ) (w : Lobby d c) → Mirrored w → Mirrored (try_fill_room_from_queue d c r w)
  unfolding try_fill_room_from_queue
  try_fill_room_from_queue-Mirrored r w v = elim (Option-cases (get_room d r w.db)) [
    | inl absent ↦ rw (absent, try_fill_room_from_queue) v
    | inr (room, there) ↦ elim (Bool-cases (is_open room.status)) [
      | inl opened ↦
          rw (there, try_fill_room_from_queue, opened)
            (Kept-Mirrored r (get_room d r w.db) _ (
              fill-Kept d c (queued d c w.redis + 1) r r (get_room d r w.db)
                (compatible_buckets room.gender_pref) w (Mirrored-Kept r w v)))
      | inr closed ↦ rw (there, try_fill_room_from_queue, closed) v
    ]
  ]

  pub after_vacancy-Mirrored :
      (r k : ℕ) (room : ChatRoom) (w : Lobby d c) (s : State d) (gone : Bool) (remaining : List ℕ)
      → Vacated d r k room w.db s gone remaining
      → RoomsInv d s
      → Mirrored w
      → Mirrored (after_vacancy d c r gone remaining (forget d c k (record w { db = s })))
  unfolding after_vacancy
  after_vacancy-Mirrored r k room w s true remaining (few, none_left, ended, who, moved) rooms v =
      moved-Mirrored w
        (record w { db = s; redis = clear_all d c remaining (clear_active_room d c k w.redis) })
        (λ j. (j == k) || d.members.has r j w.db.members) rooms moved
        (λ j. ground (
          arith,
          who j,
          get_active_room-clear_all j remaining (clear_active_room d c k w.redis),
          get_active_room-clear_active_room j k w.redis,
        ))
        v
  after_vacancy-Mirrored r k room w s false remaining (many, one_less, same, who, moved) rooms v =
      try_fill_room_from_queue-Mirrored r (forget d c k (record w { db = s })) (
        moved-Mirrored w (forget d c k (record w { db = s })) (λ j. j == k) rooms moved
          (λ j. get_active_room-clear_active_room j k w.redis) v)
