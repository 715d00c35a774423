-- ===== src/Chat/RoomJobs/Searches.antt =====
-- What a paid search for a room comes to.
use mathlib.Core.Path.{subst}
use bluechat.Base.{
  ℕ, ◌+◌, ◌-◌, ◌≤◌, ◌≡◌, ◌⊎◌, refl, sym, ap, ◌∙◌, inl, inr, true, false, Option, none, some, ltb,
  arith, ==-refl,
}
use bluechat.Base.Int.{ℤ, neg}
use bluechat.Db.Models.{Database, State, User, RoomGenderPref, Reason}
use bluechat.Db.Users.{get_user}
use bluechat.Db.Coins.{deduct_coins, book}
use bluechat.Db.Coins.Balance.{balance}
use bluechat.Db.Rooms.{Outcome, ok, err, join_chat_room}
use bluechat.Db.Rooms.Effects.{active}
use bluechat.Db.Rooms.Invariant.{RoomsInv}
use bluechat.Db.Rooms.Outcomes.{Joined, Joinable, join_chat_room-Joined}
use bluechat.Db.Rooms.Creation.{book-RoomsInv, get_user-book}
use bluechat.Db.Rooms.Moved.{coins-join_chat_room, join_chat_room_member}
use bluechat.Db.RoomLists.{
  Suits, Found, has_place, find_open_room_for_join, find_open_room_for_join-Found,
}
use bluechat.Redis.Keys.{RoomBucket, Redis, Store}
use bluechat.Chat.RoomSearch.{
  Lobby, room_join_cost, set_active_room, wait_for_room, after_join, try_join_room,
}
use bluechat.Chat.RoomSearch.Settled.{InQueue, wait_for_room-InQueue}
use bluechat.Chat.Filling.{redis_conflict_check, get_active_room}
use bluechat.Chat.Rooms.{may_start_room_flow}
use bluechat.Chat.RoomJobs.{bucket_of, after_fee, handle_join_gender_selected}

module _ (d : Database) (c : Redis) where
  -- He is in the oldest room that suits him, in both stores; or none suits him and he waits.
  abbrev pub Placed : ℕ → RoomGenderPref → ℕ → State d → Lobby d c → Type 0
  Placed k wanted now s w' =
      ((r : ℕ) × Suits d wanted r s
        × ((q : ℕ) → Suits d wanted q s → r ≤ q)
        × (active d k w'.db ≡ some r)
        × (get_active_room d c k w'.redis ≡ some r))
      ⊎ (((q : ℕ) → ¬ Suits d wanted q s) × InQueue d c k (bucket_of wanted) now w')

  Suits-Joinable :
      (k : ℕ) (wanted : RoomGenderPref) (r : ℕ) (u : User) (s : State d)
      → Suits d wanted r s
      → get_user d k s ≡ some u
      → u.active_room_id ≡ none
      → Joinable d k r none s
  unfolding has_place
  Suits-Joinable k wanted r u s (room, er, place, takes) eu free =
      (room, u, er, ground (arith, place), eu, free, refl, ground (arith, place))

  after_join-InRoom :
      (k : ℕ) (g : RoomBucket) (r now : ℕ) (w : Lobby d c) (answer : State d × Outcome ℕ)
      → Joined d k r none w.db answer
      → Joinable d k r none w.db
      → let w' = after_join d c k g now w answer in
        (w'.db ≡ answer.0) × (active d k w'.db ≡ some r) × (get_active_room d c k w'.redis ≡ some r)
  unfolding after_join set_active_room
  after_join-InRoom k g r now w (s, ok q) (same, able, grown, moved) can = (
    refl,
    ground (arith, moved k, ==-refl k),
    ground (arith, same, c.active_room.get-set k k q w.redis.active_room, ==-refl k),
  )
  after_join-InRoom k g r now w (s, err e) (same, unable) can = absurd (unable can)

  -- The search of a user who is in no room, once it is paid for.
  try_join_room-Placed :
      (k : ℕ) (wanted : RoomGenderPref) (now : ℕ) (w : Lobby d c) (u : User) (found : Option ℕ)
      → RoomsInv d w.db
      → get_user d k w.db ≡ some u
      → u.active_room_id ≡ none
      → Found d wanted w.db found
      → let w' = try_join_room d c k (bucket_of wanted) found none now w in
        (balance (get_user d k w'.db) ≡ balance (get_user d k w.db)) × Placed k wanted now w.db w'
  unfolding try_join_room wait_for_room
  try_join_room-Placed k wanted now w u none v eu free nothing =
      (refl, inr (nothing, wait_for_room-InQueue d c k (bucket_of wanted) now w))
  try_join_room-Placed k wanted now w u (some r) v eu free (suits, first) =
      let (db, here, mirrored) =
        after_join-InRoom k (bucket_of wanted) r now w (join_chat_room d k r none w.db)
          (join_chat_room-Joined d k r none w.db v)
          (Suits-Joinable k wanted r u w.db suits eu free) in
      (
        ap (λ s. balance (get_user d k s)) db ∙ coins-join_chat_room d k k r none w.db,
        inl (r, suits, first, here, mirrored),
      )

  -- The search of a user who is in a room already.
  try_join_room_member :
      (k : ℕ) (wanted : RoomGenderPref) (q now : ℕ) (w : Lobby d c) (u : User) (found : Option ℕ)
      → get_user d k w.db ≡ some u
      → u.active_room_id ≡ some q
      → Found d wanted w.db found
      → try_join_room d c k (bucket_of wanted) found none now w
        ≡ wait_for_room d c k (bucket_of wanted) now w
  unfolding try_join_room after_join has_place
  try_join_room_member k wanted q now w u none eu inside nothing = refl
  try_join_room_member k wanted q now w u (some r) eu inside ((room, er, place, takes), first) =
      rw (join_chat_room_member d k r q none w.db u room eu inside er (ground (arith, place))) refl

  -- Where the payer ends, by the room that he has.
  abbrev pub Searched : ℕ → RoomGenderPref → ℕ → State d → Option ℕ → Lobby d c → Type 0
  Searched k wanted now s none w' = Placed k wanted now s w'
  Searched k wanted now s (some q) w' =
      InQueue d c k (bucket_of wanted) now w' × (active d k w'.db ≡ some q)

  try_join_room-Searched :
      (k : ℕ) (wanted : RoomGenderPref) (now : ℕ) (w : Lobby d c) (u : User) (room : Option ℕ)
      → RoomsInv d w.db
      → get_user d k w.db ≡ some u
      → u.active_room_id ≡ room
      → let w' =
          try_join_room d c k
            (bucket_of wanted)
            (find_open_room_for_join d wanted w.db)
            none
            now
            w in
        (balance (get_user d k w'.db) ≡ balance (get_user d k w.db))
        × Searched k wanted now w.db room w'
  unfolding wait_for_room
  try_join_room-Searched k wanted now w u none v eu free =
      try_join_room-Placed k wanted now w u (find_open_room_for_join d wanted w.db) v eu free
        (find_open_room_for_join-Found d wanted w.db)
  try_join_room-Searched k wanted now w u (some q) v eu inside =
      rw
        (try_join_room_member k wanted q now w u (find_open_room_for_join d wanted w.db) eu inside
          (find_open_room_for_join-Found d wanted w.db))
        (refl, (wait_for_room-InQueue d c k (bucket_of wanted) now w, ground (arith, eu, inside)))

  -- A payment changes no room.
  Searched-book :
      (k : ℕ) (wanted : RoomGenderPref) (now : ℕ) (u : User) (left : ℕ) (a : ℤ) (reason : Reason)
      (s : State d) (room : Option ℕ) (w' : Lobby d c)
      → Searched k wanted now (book d k u left a reason s) room w'
      → Searched k wanted now s room w'
  unfolding book has_place
  Searched-book k wanted now u left a reason s none w' h = h
  Searched-book k wanted now u left a reason s (some q) w' h = h

  may_start-calm :
      (k : ℕ) (s : Store c)
      → may_start_room_flow d c k s ≡ true
      → redis_conflict_check d c k s ≡ none
  unfolding may_start_room_flow
  may_start-calm k s h = ground (arith, h)

  -- A user who has the price, and neither chats nor waits for a chat or a room, pays it. If he is in
  -- no room, he is then in the oldest open room with a place that suits his search, in both stores,
  -- or there is no such room and he waits with a time-out pending. If he is in a room, he pays all
  -- the same, keeps his room and waits.
  pub handle_join_gender_selected-Searched :
      (k : ℕ) (wanted : RoomGenderPref) (now : ℕ) (w : Lobby d c) (u : User)
      → may_start_room_flow d c k w.redis ≡ true
      → get_user d k w.db ≡ some u
      → room_join_cost ≤ u.coins
      → RoomsInv d w.db
      → let w' = handle_join_gender_selected d c k wanted now w in
        (balance (get_user d k w'.db) + room_join_cost ≡ u.coins)
        × Searched k wanted now w.db u.active_room_id w'
  unfolding handle_join_gender_selected after_fee deduct_coins
  handle_join_gender_selected-Searched k wanted now w u free eu enough v =
      let left : ℕ = u.coins - room_join_cost in
      let reason : Reason = Reason.chat_room_join_search in
      let paid : State d = book d k u left (neg room_join_cost) reason w.db in
      let rich : ltb u.coins room_join_cost ≡ false = ground (arith, enough) in
      let pays : deduct_coins d k room_join_cost reason w.db ≡ (paid, some left) =
        rw (eu, deduct_coins, rich) refl in
      let row = get_user-book d k u left (neg room_join_cost) reason w.db in
      let (kept, searched) =
        try_join_room-Searched k wanted now (record w { db = paid }) (record u { coins = left })
          u.active_room_id (book-RoomsInv d k u left (neg room_join_cost) reason w.db eu v) row
          refl in
      let settled : (d' : State d × Option ℕ) → Type 0 = λ answer.
        let w' = after_fee d c k wanted now w answer in
        (balance (get_user d k w'.db) + room_join_cost ≡ u.coins)
        × Searched k wanted now w.db u.active_room_id w' in
      rw free (
        subst settled (sym pays) (
          rw (may_start-calm k w.redis free, after_fee)
            (
              ground (arith, kept, row, enough),
              Searched-book k wanted now u left (neg room_join_cost) reason w.db u.active_room_id _
                  searched,
            )))
