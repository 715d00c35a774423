-- ===== src/Chat/Filling/Filled.antt =====
-- What a room and the queue are like once `try_fill_room_from_queue` has filled it.
use bluechat.Base.{ℕ, ◌+◌, ◌≡◌, ◌⊎◌, inl, inr, true, none, some, List, arith, [], ◌∷◌, Option-cases}
use bluechat.Db.Models.{Database, ChatRoom}
use bluechat.Db.Users.{get_user}
use bluechat.Db.Rooms.{is_open}
use bluechat.Redis.Keys.{RoomBucket, Redis, Store}
use bluechat.Redis.RoomQueue.{
  Candidate, compatible_buckets, joining, peek_oldest_room_join_candidate,
}
use bluechat.Redis.RoomQueue.Oldest.{NobodyEarlier, peek_oldest_room_join_candidate-NobodyEarlier}
use bluechat.Chat.RoomSearch.{Lobby}
use bluechat.Chat.Filling.{fill, queued, try_fill_room_from_queue}
use bluechat.Chat.Filling.Kept.{Kept, fill-Kept}
use bluechat.Chat.Filling.Ends.{Stopped, fill-Stopped}

module _ (d : Database) (c : Redis) where
  -- Nobody waits in these buckets.
  abbrev pub NobodyWaits : List RoomBucket → Store c → Type 0
  NobodyWaits [] s = Unit {0}
  NobodyWaits (g ∷ gs) s =
      ((k : ℕ) → c.room_join_queue.zscore k (joining c g s) ≡ none) × NobodyWaits gs s

  NobodyEarlier-NobodyWaits :
      (gs : List RoomBucket) (s : Store c) → NobodyEarlier c gs s none → NobodyWaits gs s
  NobodyEarlier-NobodyWaits [] s h = tt
  NobodyEarlier-NobodyWaits (g ∷ gs) s (h, hs) = (
    λ k. elim (Option-cases (c.room_join_queue.zscore k (joining c g s))) [
      | inl absent ↦ absent
      | inr (t, waits) ↦ ground (arith, h k t waits)
    ],
    NobodyEarlier-NobodyWaits gs s hs,
  )

  -- Nobody compatible waits, or there is no place left, or the first in line is no user.
  abbrev pub Filled : ℕ → ChatRoom → Lobby d c → Type 0
  Filled r room w =
      let gs = compatible_buckets room.gender_pref in
      NobodyWaits gs w.redis
      ⊎ ((d.members.count r w.db.members ≡ room.capacity)
          ⊎ ((b : Candidate) × (peek_oldest_room_join_candidate c gs w.redis ≡ some b)
              × (get_user d b.user_id w.db ≡ none)))

  Stopped-Filled :
      (r : ℕ) (room : ChatRoom) (w : Lobby d c)
      → is_open room.status ≡ true
      → Kept d c r (some room) w
      → Stopped d c r (compatible_buckets room.gender_pref) w
      → Filled r room w
  Stopped-Filled r room w opened v stopped =
      let gs = compatible_buckets room.gender_pref in
      let earliest = (peek_oldest_room_join_candidate-NobodyEarlier c gs w.redis).2 in
      let fits = rw v.same at (v.rooms.fits r) in
      elim (Option-cases (peek_oldest_room_join_candidate c gs w.redis)) [
        | inl nobody ↦ inl (NobodyEarlier-NobodyWaits gs w.redis (rw nobody at earliest))
        | inr (b, found) ↦ elim (Option-cases (get_user d b.user_id w.db)) [
          | inl absent ↦ inr (inr (b, found, absent))
          | inr (u, eu) ↦
              inr (inl ground (arith, fits.2, rw found at stopped u room eu v.same opened))
        ]
      ]

  -- Filling a room that is open, with the rooms in order and the mirror naming no room but the
  -- user's own, keeps all of this and the room's row. Afterwards nobody compatible waits, or the
  -- room is full, or the first in line is no user of the bot.
  pub try_fill_room_from_queue-Filled :
      (r : ℕ) (room : ChatRoom) (w : Lobby d c)
      → is_open room.status ≡ true
      → Kept d c r (some room) w
      → let w' = try_fill_room_from_queue d c r w in Kept d c r (some room) w' × Filled r room w'
  unfolding try_fill_room_from_queue
  try_fill_room_from_queue-Filled r room w opened v =
      let gs = compatible_buckets room.gender_pref in
      let fuel : ℕ = queued d c w.redis + 1 in
      let kept = fill-Kept d c fuel r r (some room) gs w v in
      let stopped = fill-Stopped d c fuel r gs w (omega arith) in
      rw (v.same, try_fill_room_from_queue, opened)
        (kept, Stopped-Filled r room (fill d c fuel r gs w).0 opened kept stopped.1)
