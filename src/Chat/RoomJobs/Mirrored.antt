-- ===== src/Chat/RoomJobs/Mirrored.antt =====
-- The mirror of `active_room_id` under the search for a room and under the jobs.
use bluechat.Base.{
  ℕ, ◌≡◌, refl, sym, ◌∙◌, inl, inr, false, Option, none, some, List, [], ◌∷◌, if◌then◌else◌, lookup,
  is_some, ltb, arith, Option-cases, Bool-cases, eq_of_test,
}
use bluechat.Db.Models.{Database, State, RoomGenderPref, Reason}
use bluechat.Db.Users.{get_user}
use bluechat.Db.Coins.{deduct_coins}
use bluechat.Db.Rooms.{RoomError, Outcome, ok, err, join_chat_room}
use bluechat.Db.Rooms.Effects.{active}
use bluechat.Db.Rooms.Creation.{active-book}
use bluechat.Db.Rooms.Invariant.{RoomsInv}
use bluechat.Db.Rooms.Operations.{join_chat_room-RoomsInv}
use bluechat.Db.Rooms.Outcomes.{Joined, join_chat_room-Joined}
use bluechat.Db.Rooms.Saves.{deduct_coins-RoomsInv, refund_coins-RoomsInv}
use bluechat.Db.RoomLists.{
  list_users_with_active_room, lookup-list_users_with_active_room, find_open_room_for_join,
  list_open_room_ids_with_spare_capacity,
}
use bluechat.Redis.Keys.{RoomBucket, Redis, Store}
use bluechat.Redis.RoomQueue.{
  enqueue_room_join, dequeue_room_join, is_waiting_room_join, purge_stale_room_join_queue,
}
use bluechat.Chat.World.{drop_all}
use bluechat.Chat.RoomSearch.{
  Lobby, room_join_cost, is_conflict, set_active_room, refund_join, wait_for_room, after_join,
  try_join_room, handle_cancel_room_join_button, room_join_timeout_job,
}
use bluechat.Chat.Filling.{
  redis_conflict_check, get_active_room, suppress_room_ui, try_fill_room_from_queue,
}
use bluechat.Chat.Filling.Kept.{active-refund_coins, get_active_room-dequeue_room_join}
use bluechat.Chat.Rooms.{may_start_room_flow}
use bluechat.Chat.Rooms.Mirrored.{Mirrored, moved-Mirrored, try_fill_room_from_queue-Mirrored}
use bluechat.Chat.RoomJobs.{
  bucket_of, after_fee, handle_join_gender_selected, exit_room_ui_button, fill_rooms,
  sweep_room_join_queue, set_missing, active_room_mirror_sync_job,
}

module _ (d : Database) (c : Redis) where
  -- A change of the state in which nobody moves.
  still-Mirrored :
      (w w' : Lobby d c)
      → RoomsInv d w'.db
      → ((j : ℕ) → active d j w'.db ≡ active d j w.db)
      → ((j : ℕ) → get_active_room d c j w'.redis ≡ get_active_room d c j w.redis)
      → Mirrored d c w
      → Mirrored d c w'
  still-Mirrored w w' rooms moved kept v = moved-Mirrored d c w w' (λ j. false) rooms moved kept v

  refund_join-Mirrored :
      (k : ℕ) (reason : Reason) (w : Lobby d c)
      → Mirrored d c w
      → Mirrored d c (refund_join d c k reason w)
  unfolding refund_join
  refund_join-Mirrored k reason w v =
      still-Mirrored w (refund_join d c k reason w)
        (refund_coins-RoomsInv d k room_join_cost reason w.db v.rooms)
        (λ j. active-refund_coins d c j k room_join_cost reason w.db) (λ j. refl) v

  get_active_room-enqueue_room_join :
      (j k : ℕ) (g : RoomBucket) (now : ℕ) (s : Store c)
      → get_active_room d c j (enqueue_room_join c k g now s) ≡ get_active_room d c j s
  unfolding enqueue_room_join
  get_active_room-enqueue_room_join j k RoomBucket.male now s = refl
  get_active_room-enqueue_room_join j k RoomBucket.female now s = refl
  get_active_room-enqueue_room_join j k RoomBucket.any now s = refl

  wait_for_room-Mirrored :
      (k : ℕ) (g : RoomBucket) (now : ℕ) (w : Lobby d c)
      → Mirrored d c w
      → Mirrored d c (wait_for_room d c k g now w)
  unfolding wait_for_room
  wait_for_room-Mirrored k g now w v =
      still-Mirrored w (wait_for_room d c k g now w) v.rooms (λ j. refl)
        (λ j. get_active_room-enqueue_room_join j k g now w.redis) v

  after_join-Mirrored :
      (k : ℕ) (g : RoomBucket) (r : ℕ) (conflict : Option RoomError) (now : ℕ) (w : Lobby d c)
      (answer : State d × Outcome ℕ)
      → Joined d k r conflict w.db answer
      → RoomsInv d answer.0
      → Mirrored d c w
      → Mirrored d c (after_join d c k g now w answer)
  unfolding after_join set_active_room
  after_join-Mirrored k g r conflict now w (s, ok q) (same, able, grown, moved) rooms v = record {
    rooms = rooms;
    mirror = λ j p h.
        ground
          (arith, h, same, moved j, c.active_room.get-set j k q w.redis.active_room, v.mirror j p);
  }
  after_join-Mirrored k g r conflict now w (s, err e) (same, unable) rooms v =
      let after : Mirrored d c (record w { db = s }) = rw same v in
      elim (Bool-cases (is_conflict e)) [
        | inl clash ↦
            rw (clash, after_join)
              (refund_join-Mirrored k Reason.room_join_conflict_refund (record w { db = s }) after)
        | inr free ↦
            rw (free, after_join) (wait_for_room-Mirrored k g now (record w { db = s }) after)
      ]

  try_join_room-Mirrored :
      (k : ℕ) (g : RoomBucket) (found : Option ℕ) (conflict : Option RoomError) (now : ℕ)
      (w : Lobby d c)
      → Mirrored d c w
      → Mirrored d c (try_join_room d c k g found conflict now w)
  unfolding try_join_room
  try_join_room-Mirrored k g none conflict now w v = wait_for_room-Mirrored k g now w v
  try_join_room-Mirrored k g (some r) conflict now w v =
      after_join-Mirrored k g r conflict now w (join_chat_room d k r conflict w.db)
        (join_chat_room-Joined d k r conflict w.db v.rooms)
        (join_chat_room-RoomsInv d k r conflict w.db v.rooms) v

  pub active-deduct_coins :
      (j k amount : ℕ) (reason : Reason) (s : State d)
      → active d j (deduct_coins d k amount reason s).0 ≡ active d j s
  unfolding deduct_coins
  active-deduct_coins j k amount reason s = elim (Option-cases (get_user d k s)) [
    | inl e ↦ rw (e, deduct_coins) refl
    | inr (u, e) ↦ elim (Bool-cases (ltb u.coins amount)) [
      | inl short ↦ rw (e, short, deduct_coins) refl
      | inr enough ↦ rw (e, enough, deduct_coins) (active-book d j k u _ _ reason s e)
    ]
  ]

  after_fee-Mirrored :
      (k : ℕ) (wanted : RoomGenderPref) (now : ℕ) (w : Lobby d c) (answer : State d × Option ℕ)
      → RoomsInv d answer.0
      → ((j : ℕ) → active d j answer.0 ≡ active d j w.db)
      → Mirrored d c w
      → Mirrored d c (after_fee d c k wanted now w answer)
  unfolding after_fee
  after_fee-Mirrored k wanted now w (paid, none) rooms still v =
      still-Mirrored w (record w { db = paid }) rooms still (λ j. refl) v
  after_fee-Mirrored k wanted now w (paid, some left) rooms still v =
      try_join_room-Mirrored k (bucket_of wanted) (find_open_room_for_join d wanted paid)
        (redis_conflict_check d c k w.redis) now (record w { db = paid })
        (still-Mirrored w (record w { db = paid }) rooms still (λ j. refl) v)

  pub handle_join_gender_selected-Mirrored :
      (k : ℕ) (wanted : RoomGenderPref) (now : ℕ) (w : Lobby d c)
      → Mirrored d c w
      → Mirrored d c (handle_join_gender_selected d c k wanted now w)
  unfolding handle_join_gender_selected
  handle_join_gender_selected-Mirrored k wanted now w v =
      elim (Bool-cases (may_start_room_flow d c k w.redis)) [
        | inl free ↦ rw free (
            after_fee-Mirrored k wanted now w
              (deduct_coins d k room_join_cost Reason.chat_room_join_search w.db)
              (deduct_coins-RoomsInv d k room_join_cost Reason.chat_room_join_search w.db v.rooms)
              (λ j. active-deduct_coins j k room_join_cost Reason.chat_room_join_search w.db) v)
        | inr held ↦ rw held v
      ]

  -- Who leaves the queue for a room, with any time-outs, moves nobody.
  dequeue_room_join-Mirrored :
      (k : ℕ) (g : RoomBucket) (timeouts : List ℕ) (w : Lobby d c)
      → Mirrored d c w
      → Mirrored d c (record w { redis = (dequeue_room_join c k g w.redis).0; timeouts = timeouts })
  dequeue_room_join-Mirrored k g timeouts w v =
      still-Mirrored w
        (record w { redis = (dequeue_room_join c k g w.redis).0; timeouts = timeouts }) v.rooms
        (λ j. refl) (λ j. get_active_room-dequeue_room_join d c j k g w.redis) v

  pub handle_cancel_room_join_button-Mirrored :
      (k : ℕ) (w : Lobby d c)
      → Mirrored d c w
      → Mirrored d c (handle_cancel_room_join_button d c k w)
  unfolding handle_cancel_room_join_button
  handle_cancel_room_join_button-Mirrored k w v =
      elim (Option-cases (is_waiting_room_join c k w.redis)) [
        | inl e ↦ rw (e, handle_cancel_room_join_button) v
        | inr (g, e) ↦
            rw (e, handle_cancel_room_join_button)
              (refund_join-Mirrored k Reason.room_join_cancel_refund _
                (dequeue_room_join-Mirrored k g (drop_all k w.timeouts) w v))
      ]

  pub room_join_timeout_job-Mirrored :
      (k : ℕ) (g : RoomBucket) (w : Lobby d c)
      → Mirrored d c w
      → Mirrored d c (room_join_timeout_job d c k g w)
  unfolding room_join_timeout_job
  room_join_timeout_job-Mirrored k g w v = elim (Option-cases (is_waiting_room_join c k w.redis)) [
    | inl e ↦ rw (e, room_join_timeout_job) v
    | inr (h, e) ↦
        rw (e, room_join_timeout_job)
          (refund_join-Mirrored k Reason.room_join_timeout_refund _
            (dequeue_room_join-Mirrored k g w.timeouts w v))
  ]

  pub exit_room_ui_button-Mirrored :
      (k : ℕ) (w : Lobby d c) → Mirrored d c w → Mirrored d c (exit_room_ui_button d c k w)
  unfolding exit_room_ui_button suppress_room_ui
  exit_room_ui_button-Mirrored k w v =
      still-Mirrored w (exit_room_ui_button d c k w) v.rooms (λ j. refl) (λ j. refl) v

  fill_rooms-Mirrored :
      (rs : List ℕ) (w : Lobby d c) → Mirrored d c w → Mirrored d c (fill_rooms d c rs w)
  unfolding fill_rooms
  fill_rooms-Mirrored [] w v = v
  fill_rooms-Mirrored (r ∷ rs) w v =
      fill_rooms-Mirrored rs (try_fill_room_from_queue d c r w)
        (try_fill_room_from_queue-Mirrored d c r w v)

  pub sweep_room_join_queue-Mirrored :
      (now : ℕ) (w : Lobby d c) → Mirrored d c w → Mirrored d c (sweep_room_join_queue d c now w)
  unfolding sweep_room_join_queue purge_stale_room_join_queue
  sweep_room_join_queue-Mirrored now w v =
      let purged : Lobby d c = record w { redis = purge_stale_room_join_queue c now w.redis } in
      fill_rooms-Mirrored (list_open_room_ids_with_spare_capacity d w.db) purged
        (still-Mirrored w purged v.rooms (λ j. refl) (λ j. refl) v)

  get_active_room-set_missing :
      (j : ℕ) (rs : List (ℕ × ℕ)) (s : Store c)
      → get_active_room d c j (set_missing d c rs s)
        ≡ (if is_some (get_active_room d c j s) then get_active_room d c j s else lookup j rs)
  unfolding set_missing set_active_room
  get_active_room-set_missing j [] s = ground arith
  get_active_room-set_missing j ((k, r) ∷ rs) s = elim (Option-cases (get_active_room d c k s)) [
    | inl missing ↦
        rw (missing, set_missing)
          (ground (
            arith,
            missing,
            eq_of_test j k,
            get_active_room-set_missing j rs (set_active_room d c k r s),
            c.active_room.get-set j k r s.active_room,
          ))
    | inr (q, there) ↦
        rw (there, set_missing)
          (ground (arith, there, eq_of_test j k, get_active_room-set_missing j rs s))
  ]

  -- After the job, with the rooms in order and no wrong entry before it, the mirror is exactly the
  -- column `active_room_id` of the database.
  pub active_room_mirror_sync_job-exact :
      (w : Lobby d c)
      → Mirrored d c w
      → let w' = active_room_mirror_sync_job d c w in
        (k : ℕ) → get_active_room d c k w'.redis ≡ active d k w'.db
  unfolding active_room_mirror_sync_job
  active_room_mirror_sync_job-exact w v k =
      let filled = get_active_room-set_missing k (list_users_with_active_room d w.db) w.redis in
      let listed = lookup-list_users_with_active_room d k w.db in
      elim (Option-cases (get_active_room d c k w.redis)) [
        | inl missing ↦ ground (arith, filled, listed, missing)
        | inr (q, there) ↦ ground (arith, filled, there, v.mirror k q there)
      ]

  pub active_room_mirror_sync_job-Mirrored :
      (w : Lobby d c) → Mirrored d c w → Mirrored d c (active_room_mirror_sync_job d c w)
  unfolding active_room_mirror_sync_job
  active_room_mirror_sync_job-Mirrored w v = record {
    rooms = v.rooms;
    mirror = λ k q h. sym (active_room_mirror_sync_job-exact w v k) ∙ h;
  }
