-- ===== src/Chat/Exclusive/Jobs.antt =====
-- Every step of the chat rooms, the paid search and the jobs with it, is calm.
use bluechat.Base.{
  ℕ, ◌≡◌, refl, inl, inr, Bool, true, false, not, ◌&&◌, Option, none, some, List, ◌==◌, is_some,
  arith, Option-cases, Bool-cases, eq_of_test,
}
use bluechat.Db.Models.{Database, State, RoomGenderPref, Reason}
use bluechat.Db.Users.{get_user}
use bluechat.Db.Coins.{deduct_coins}
use bluechat.Db.Rooms.{
  RoomError, Outcome, ok, err, join_chat_room, leave_chat_room, delete_chat_room,
  set_room_open_status, remove_banned_user_from_room,
}
use bluechat.Db.Rooms.Effects.{active}
use bluechat.Db.Rooms.Arrivals.{
  Arrivals, join_chat_room-Arrivals, leave_chat_room-Arrivals, delete_chat_room-Arrivals,
  set_room_open_status-Arrivals, remove_banned_user_from_room-Arrivals,
}
use bluechat.Db.RoomLists.{list_users_with_active_room, find_open_room_for_join}
use bluechat.Redis.Keys.{RoomBucket, Redis}
use bluechat.Redis.Queue.{waits_in, is_waiting}
use bluechat.Redis.RoomQueue.{dequeue_room_join, is_waiting_room_join}
use bluechat.Chat.World.{drop_all}
use bluechat.Chat.RoomSearch.{
  Lobby, room_join_cost, is_conflict, set_active_room, refund_join, wait_for_room, after_join,
  try_join_room, handle_cancel_room_join_button, room_join_timeout_job,
}
use bluechat.Chat.Filling.{redis_conflict_check, suppress_room_ui}
use bluechat.Chat.Rooms.{
  may_start_room_flow, leave_room_button, delete_room_confirm_callback, set_room_status,
  remove_from_room,
}
use bluechat.Chat.RoomJobs.{
  bucket_of, after_fee, handle_join_gender_selected, exit_room_ui_button,
  active_room_mirror_sync_job,
}
use bluechat.Chat.RoomJobs.Mirrored.{active-deduct_coins}
use bluechat.Chat.RoomJobs.Histories.{RoomEvent, take_step, lose_mirror}
use bluechat.Chat.Exclusive.{engaged}
use bluechat.Chat.Exclusive.Lobbies.{
  Calm, then-Calm, arrive-Calm, Aside-Calm, set_missing-Aside, engaged-dequeue_room_join,
  seeks-dequeue_room_join, engaged-enqueue_room_join, seeks-enqueue_room_join,
  redis_conflict_check-engaged,
}
use bluechat.Chat.Exclusive.Fillings.{
  refl-Calm, refund_join-Calm, sweep_room_join_queue-Calm, idle_without_conflict,
}
use bluechat.Chat.Exclusive.Rooms.{
  db-Calm, after_leave-Calm, handle_kick_command-Calm, after_deletion-Calm, after_status-Calm,
  after_expulsion-Calm, handle_capacity_selected-Calm,
}

module _ (d : Database) (c : Redis) where
  wait_for_room-Calm :
      (k : ℕ) (g : RoomBucket) (now : ℕ) (w : Lobby d c)
      → engaged d c k w.redis ≡ false
      → Calm d c w (wait_for_room d c k g now w)
  unfolding wait_for_room
  wait_for_room-Calm k g now w idle =
      arrive-Calm d c (λ j. j == k) w (wait_for_room d c k g now w)
        (λ j. engaged-enqueue_room_join d c j k g now w.redis) (λ j other. ground arith)
        (λ j other. ground (arith, seeks-enqueue_room_join d c j k g now w.redis other))
        (λ j new. rw (eq_of_test j k new) idle)

  after_join-Calm :
      (newcomer : ℕ → Bool) (k : ℕ) (g : RoomBucket) (now : ℕ) (w : Lobby d c)
      (answer : State d × Outcome ℕ)
      → Arrivals d newcomer w.db answer.0
      → ((j : ℕ) → newcomer j ≡ true → engaged d c j w.redis ≡ false)
      → engaged d c k w.redis ≡ false
      → Calm d c w (after_join d c k g now w answer)
  unfolding after_join set_active_room is_waiting waits_in is_waiting_room_join
  after_join-Calm newcomer k g now w (s, ok r) arrivals idle free =
      arrive-Calm d c newcomer w (record w { db = s; redis = set_active_room d c k r w.redis })
        (λ j. refl) arrivals (λ j other. ground arith) idle
  after_join-Calm newcomer k g now w (s, err e) arrivals idle free =
      let out : Lobby d c = record w { db = s } in
      let calm : Calm d c w out =
        arrive-Calm d c newcomer w out (λ j. refl) arrivals (λ j other. ground arith) idle in
      elim (Bool-cases (is_conflict e)) [
        | inl clash ↦
            rw (clash, after_join)
              (then-Calm d c w out (refund_join d c k Reason.room_join_conflict_refund out) calm
                (refund_join-Calm d c k Reason.room_join_conflict_refund out))
        | inr other ↦
            rw (other, after_join)
              (then-Calm d c w out (wait_for_room d c k g now out) calm
                (wait_for_room-Calm k g now out free))
      ]

  try_join_room-Calm :
      (k : ℕ) (g : RoomBucket) (found : Option ℕ) (now : ℕ) (w : Lobby d c)
      → engaged d c k w.redis ≡ false
      → Calm d c w (try_join_room d c k g found (redis_conflict_check d c k w.redis) now w)
  unfolding try_join_room
  try_join_room-Calm k g none now w free = wait_for_room-Calm k g now w free
  try_join_room-Calm k g (some r) now w free =
      let conflict : Option RoomError = redis_conflict_check d c k w.redis in
      after_join-Calm (λ j. (j == k) && not (is_some conflict)) k g now w
        (join_chat_room d k r conflict w.db) (join_chat_room-Arrivals d k r conflict w.db)
        (idle_without_conflict d c k w.redis) free

  after_fee-Calm :
      (k : ℕ) (wanted : RoomGenderPref) (now : ℕ) (w : Lobby d c) (answer : State d × Option ℕ)
      → ((j : ℕ) → active d j answer.0 ≡ active d j w.db)
      → engaged d c k w.redis ≡ false
      → Calm d c w (after_fee d c k wanted now w answer)
  unfolding after_fee
  after_fee-Calm k wanted now w (paid, none) same free =
      db-Calm d c w paid (λ j other. ground (arith, same j))
  after_fee-Calm k wanted now w (paid, some left) same free =
      let charged : Lobby d c = record w { db = paid } in
      let found : Option ℕ = find_open_room_for_join d wanted paid in
      let conflict : Option RoomError = redis_conflict_check d c k w.redis in
      then-Calm d c w charged (try_join_room d c k (bucket_of wanted) found conflict now charged)
        (db-Calm d c w paid (λ j other. ground (arith, same j)))
        (try_join_room-Calm k (bucket_of wanted) found now charged free)

  handle_join_gender_selected-Calm :
      (k : ℕ) (wanted : RoomGenderPref) (now : ℕ) (w : Lobby d c)
      → Calm d c w (handle_join_gender_selected d c k wanted now w)
  unfolding handle_join_gender_selected may_start_room_flow
  handle_join_gender_selected-Calm k wanted now w =
      elim (Bool-cases (may_start_room_flow d c k w.redis)) [
        | inl may ↦
            rw (may, handle_join_gender_selected)
              (after_fee-Calm k wanted now w
                (deduct_coins d k room_join_cost Reason.chat_room_join_search w.db)
                (λ j. active-deduct_coins d c j k room_join_cost Reason.chat_room_join_search w.db)
                (ground (arith, may, redis_conflict_check-engaged d c k w.redis)))
        | inr held ↦ rw (held, handle_join_gender_selected) (refl-Calm d c w)
      ]

  -- Who leaves the queue for a room, with any time-outs.
  dequeue_room_join-Calm :
      (k : ℕ) (g : RoomBucket) (timeouts : List ℕ) (w : Lobby d c)
      → Calm d c w (record w { redis = (dequeue_room_join c k g w.redis).0; timeouts = timeouts })
  dequeue_room_join-Calm k g timeouts w =
      arrive-Calm d c (λ j. false) w
        (record w { redis = (dequeue_room_join c k g w.redis).0; timeouts = timeouts })
        (λ j. engaged-dequeue_room_join d c j k g w.redis) (λ j other. ground arith)
        (λ j other. seeks-dequeue_room_join d c j k g w.redis) (λ j new. ground (arith, new))

  repaid-Calm :
      (k : ℕ) (g : RoomBucket) (reason : Reason) (timeouts : List ℕ) (w : Lobby d c)
      → Calm d c w (
          refund_join d c k reason
            (record w { redis = (dequeue_room_join c k g w.redis).0; timeouts = timeouts }))
  repaid-Calm k g reason timeouts w =
      let out : Lobby d c = record w {
        redis = (dequeue_room_join c k g w.redis).0;
        timeouts = timeouts;
      } in
      then-Calm d c w out (refund_join d c k reason out) (dequeue_room_join-Calm k g timeouts w)
        (refund_join-Calm d c k reason out)

  handle_cancel_room_join_button-Calm :
      (k : ℕ) (w : Lobby d c) → Calm d c w (handle_cancel_room_join_button d c k w)
  unfolding handle_cancel_room_join_button
  handle_cancel_room_join_button-Calm k w = elim (Option-cases (is_waiting_room_join c k w.redis)) [
    | inl e ↦ rw (e, handle_cancel_room_join_button) (refl-Calm d c w)
    | inr (g, e) ↦
        rw (e, handle_cancel_room_join_button)
          (repaid-Calm k g Reason.room_join_cancel_refund (drop_all k w.timeouts) w)
  ]

  room_join_timeout_job-Calm :
      (k : ℕ) (g : RoomBucket) (w : Lobby d c) → Calm d c w (room_join_timeout_job d c k g w)
  unfolding room_join_timeout_job
  room_join_timeout_job-Calm k g w = elim (Option-cases (is_waiting_room_join c k w.redis)) [
    | inl e ↦ rw (e, room_join_timeout_job) (refl-Calm d c w)
    | inr (h, e) ↦
        rw (e, room_join_timeout_job) (repaid-Calm k g Reason.room_join_timeout_refund w.timeouts w)
  ]

  -- Only the mirror of the rooms changes.
  mirror-Calm :
      (w w' : Lobby d c)
      → ((j : ℕ) → active d j w'.db ≡ active d j w.db)
      → ((j : ℕ) → engaged d c j w'.redis ≡ engaged d c j w.redis)
      → ((j : ℕ) → is_waiting_room_join c j w'.redis ≡ is_waiting_room_join c j w.redis)
      → Calm d c w w'
  mirror-Calm w w' still same seeking = record {
    same = same;
    free = λ j. ground (arith, still j, seeking j);
  }

  pub take_step-Calm : (e : RoomEvent) (w : Lobby d c) → Calm d c w (take_step d c e w)
  unfolding take_step leave_room_button delete_room_confirm_callback set_room_status
      remove_from_room exit_room_ui_button suppress_room_ui active_room_mirror_sync_job is_waiting
      waits_in is_waiting_room_join
  take_step-Calm (RoomEvent.creates k pref capacity) w =
      handle_capacity_selected-Calm d c k pref capacity w
  take_step-Calm (RoomEvent.searches k wanted now) w =
      handle_join_gender_selected-Calm k wanted now w
  take_step-Calm (RoomEvent.cancels k) w = handle_cancel_room_join_button-Calm k w
  take_step-Calm (RoomEvent.leaves k) w =
      after_leave-Calm d c k w (leave_chat_room d (get_user d k w.db) k w.db)
        (leave_chat_room-Arrivals d (get_user d k w.db) k w.db)
  take_step-Calm (RoomEvent.deletes k) w =
      after_deletion-Calm d c k w (delete_chat_room d (get_user d k w.db) k w.db)
        (delete_chat_room-Arrivals d (get_user d k w.db) k w.db)
  take_step-Calm (RoomEvent.exits k) w =
      mirror-Calm w (exit_room_ui_button d c k w) (λ j. refl) (λ j. refl) (λ j. refl)
  take_step-Calm (RoomEvent.expels k) w =
      after_expulsion-Calm d c k w (remove_banned_user_from_room d (get_user d k w.db) k w.db)
        (remove_banned_user_from_room-Arrivals d (get_user d k w.db) k w.db)
  take_step-Calm (RoomEvent.loses k) w =
      mirror-Calm w (lose_mirror d c k w) (λ j. refl) (λ j. refl) (λ j. refl)
  take_step-Calm (RoomEvent.gives_up k g) w = room_join_timeout_job-Calm k g w
  take_step-Calm (RoomEvent.kicks owner target) w = handle_kick_command-Calm d c owner target w
  take_step-Calm (RoomEvent.sets_status k opens) w =
      after_status-Calm d c k opens w (set_room_open_status d (get_user d k w.db) k opens w.db)
        (set_room_open_status-Arrivals d (get_user d k w.db) k opens w.db)
  take_step-Calm (RoomEvent.sweeps now) w = sweep_room_join_queue-Calm d c now w
  take_step-Calm RoomEvent.syncs w =
      Aside-Calm d c w (active_room_mirror_sync_job d c w) (λ j other. ground arith)
        (set_missing-Aside d c (list_users_with_active_room d w.db) w.redis)
