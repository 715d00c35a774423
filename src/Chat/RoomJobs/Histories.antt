-- ===== src/Chat/RoomJobs/Histories.antt =====
-- Any history of the handlers and jobs of the chat rooms, each run to its end before the next.
use bluechat.Base.{ℕ, ◌≡◌, refl, Bool, List, [], ◌∷◌, arith}
use bluechat.Db.Models.{Database, RoomGenderPref}
use bluechat.Db.Rooms.Effects.{active}
use bluechat.Redis.Keys.{RoomBucket, Redis}
use bluechat.Chat.RoomSearch.{Lobby, handle_cancel_room_join_button, room_join_timeout_job}
use bluechat.Chat.Filling.{get_active_room}
use bluechat.Chat.Rooms.{
  handle_capacity_selected, leave_room_button, delete_room_confirm_callback, handle_kick_command,
  set_room_status, remove_from_room,
}
use bluechat.Chat.Rooms.Mirrored.{Mirrored}
use bluechat.Chat.Rooms.Handled.{
  leave_room_button-Mirrored, handle_kick_command-Mirrored, delete_room_confirm_callback-Mirrored,
  set_room_status-Mirrored, remove_from_room-Mirrored, handle_capacity_selected-Mirrored,
}
use bluechat.Chat.RoomJobs.{
  handle_join_gender_selected, exit_room_ui_button, sweep_room_join_queue,
  active_room_mirror_sync_job,
}
use bluechat.Chat.RoomJobs.Mirrored.{
  handle_join_gender_selected-Mirrored, handle_cancel_room_join_button-Mirrored,
  room_join_timeout_job-Mirrored, exit_room_ui_button-Mirrored, sweep_room_join_queue-Mirrored,
  active_room_mirror_sync_job-Mirrored, active_room_mirror_sync_job-exact,
}

-- `loses` is a key of the mirror that is gone, as after a crash before it could be set.
pub data RoomEvent : Type 0 where
  creates : ℕ → RoomGenderPref → ℕ → RoomEvent
  searches : ℕ → RoomGenderPref → ℕ → RoomEvent
  cancels leaves deletes exits expels loses : ℕ → RoomEvent
  gives_up : ℕ → RoomBucket → RoomEvent
  kicks : ℕ → ℕ → RoomEvent
  sets_status : ℕ → Bool → RoomEvent
  sweeps : ℕ → RoomEvent
  syncs : RoomEvent

module _ (d : Database) (c : Redis) where
  abbrev pub lose_mirror : ℕ → Lobby d c → Lobby d c
  lose_mirror k w = record w {
    redis = record (w.redis) { active_room = c.active_room.del k w.redis.active_room };
  }

  unfoldable pub take_step : RoomEvent → Lobby d c → Lobby d c
  take_step (RoomEvent.creates k pref capacity) w = handle_capacity_selected d c k pref capacity w
  take_step (RoomEvent.searches k wanted now) w = handle_join_gender_selected d c k wanted now w
  take_step (RoomEvent.cancels k) w = handle_cancel_room_join_button d c k w
  take_step (RoomEvent.leaves k) w = leave_room_button d c k w
  take_step (RoomEvent.deletes k) w = delete_room_confirm_callback d c k w
  take_step (RoomEvent.exits k) w = exit_room_ui_button d c k w
  take_step (RoomEvent.expels k) w = remove_from_room d c k w
  take_step (RoomEvent.loses k) w = lose_mirror k w
  take_step (RoomEvent.gives_up k g) w = room_join_timeout_job d c k g w
  take_step (RoomEvent.kicks owner target) w = handle_kick_command d c owner target w
  take_step (RoomEvent.sets_status k opens) w = set_room_status d c k opens w
  take_step (RoomEvent.sweeps now) w = sweep_room_join_queue d c now w
  take_step RoomEvent.syncs w = active_room_mirror_sync_job d c w

  unfoldable pub take_steps : List RoomEvent → Lobby d c → Lobby d c
  unfolding take_step
  take_steps [] w = w
  take_steps (e ∷ es) w = take_steps es (take_step e w)

  lose_mirror-Mirrored : (k : ℕ) (w : Lobby d c) → Mirrored d c w → Mirrored d c (lose_mirror k w)
  lose_mirror-Mirrored k w v = record {
    rooms = v.rooms;
    mirror =
        λ j q h. ground (arith, h, c.active_room.get-del j k w.redis.active_room, v.mirror j q);
  }

  take_step-Mirrored :
      (e : RoomEvent) (w : Lobby d c) → Mirrored d c w → Mirrored d c (take_step e w)
  unfolding take_step
  take_step-Mirrored (RoomEvent.creates k pref capacity) w v =
      handle_capacity_selected-Mirrored d c k pref capacity w v
  take_step-Mirrored (RoomEvent.searches k wanted now) w v =
      handle_join_gender_selected-Mirrored d c k wanted now w v
  take_step-Mirrored (RoomEvent.cancels k) w v = handle_cancel_room_join_button-Mirrored d c k w v
  take_step-Mirrored (RoomEvent.leaves k) w v = leave_room_button-Mirrored d c k w v
  take_step-Mirrored (RoomEvent.deletes k) w v = delete_room_confirm_callback-Mirrored d c k w v
  take_step-Mirrored (RoomEvent.exits k) w v = exit_room_ui_button-Mirrored d c k w v
  take_step-Mirrored (RoomEvent.expels k) w v = remove_from_room-Mirrored d c k w v
  take_step-Mirrored (RoomEvent.loses k) w v = lose_mirror-Mirrored k w v
  take_step-Mirrored (RoomEvent.gives_up k g) w v = room_join_timeout_job-Mirrored d c k g w v
  take_step-Mirrored (RoomEvent.kicks owner target) w v =
      handle_kick_command-Mirrored d c owner target w v
  take_step-Mirrored (RoomEvent.sets_status k opens) w v = set_room_status-Mirrored d c k opens w v
  take_step-Mirrored (RoomEvent.sweeps now) w v = sweep_room_join_queue-Mirrored d c now w v
  take_step-Mirrored RoomEvent.syncs w v = active_room_mirror_sync_job-Mirrored d c w v

  -- Every history of the handlers of the chat rooms, the search for a room, an expulsion, the
  -- sweep, the sync job and lost keys of the mirror keeps the rooms in order, and the mirror names
  -- no room but the one that the database has for the user.
  pub take_steps-Mirrored :
      (es : List RoomEvent) (w : Lobby d c) → Mirrored d c w → Mirrored d c (take_steps es w)
  unfolding take_steps
  take_steps-Mirrored [] w v = v
  take_steps-Mirrored (e ∷ es) w v =
      take_steps-Mirrored es (take_step e w) (take_step-Mirrored e w v)

  -- After such a history and one run of the sync job, the mirror in Redis gives for every user what
  -- the database does, and the job has not changed what the database gives.
  pub active_room_mirror_sync_job-take_steps :
      (es : List RoomEvent) (w : Lobby d c)
      → Mirrored d c w
      → let before = take_steps es w in
        let after = active_room_mirror_sync_job d c before in
        (k : ℕ)
        → (get_active_room d c k after.redis ≡ active d k after.db)
          × (active d k after.db ≡ active d k before.db)
  unfolding active_room_mirror_sync_job
  active_room_mirror_sync_job-take_steps es w v k =
      (active_room_mirror_sync_job-exact d c (take_steps es w) (take_steps-Mirrored es w v) k, refl)
