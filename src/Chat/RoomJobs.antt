-- ===== src/Chat/RoomJobs.antt =====
-- The paid search for a room as a handler (handlers/chatroom/matching.py), the button that leaves
-- only the room's view (membership.py), the sweep of the queue and the job of main.py that
-- restores the mirror of `active_room_id`; and every step that the chat rooms take.
pub mod Mirrored
pub mod Histories
pub mod Searches
use bluechat.Base.{ℕ, Bool, true, false, Option, none, some, List, [], ◌∷◌, if◌then◌else◌}
use bluechat.Db.Models.{Database, State, RoomGenderPref, Reason}
use bluechat.Db.Coins.{deduct_coins}
use bluechat.Db.RoomLists.{
  list_users_with_active_room, list_open_room_ids_with_spare_capacity, find_open_room_for_join,
}
use bluechat.Redis.Keys.{RoomBucket, Redis, Store}
use bluechat.Redis.RoomQueue.{purge_stale_room_join_queue}
use bluechat.Chat.RoomSearch.{
  Lobby, room_join_cost, set_active_room, try_join_room, handle_cancel_room_join_button,
  room_join_timeout_job,
}
use bluechat.Chat.Filling.{
  redis_conflict_check, get_active_room, clear_active_room, suppress_room_ui,
  try_fill_room_from_queue,
}
use bluechat.Chat.Rooms.{
  may_start_room_flow, handle_capacity_selected, leave_room_button, delete_room_confirm_callback,
  handle_kick_command, set_room_status, remove_from_room,
}

-- The bucket of the queue by the gender that is looked for.
abbrev pub bucket_of : RoomGenderPref → RoomBucket
bucket_of RoomGenderPref.male = RoomBucket.male
bucket_of RoomGenderPref.female = RoomBucket.female
bucket_of RoomGenderPref.any = RoomBucket.any

module _ (d : Database) (c : Redis) where
  -- `handle_join_gender_selected` behind the payment.
  unfoldable pub after_fee : ℕ → RoomGenderPref → ℕ → Lobby d c → State d × Option ℕ → Lobby d c
  after_fee k wanted now w (paid, none) = record w { db = paid }
  after_fee k wanted now w (paid, some left) =
      try_join_room d c k (bucket_of wanted) (find_open_room_for_join d wanted paid)
        (redis_conflict_check d c k w.redis) now (record w { db = paid })

  unfoldable pub handle_join_gender_selected : ℕ → RoomGenderPref → ℕ → Lobby d c → Lobby d c
  unfolding after_fee
  handle_join_gender_selected k wanted now w =
      if may_start_room_flow d c k w.redis
      then after_fee k wanted now w
          (deduct_coins d k room_join_cost Reason.chat_room_join_search w.db)
      else w

  unfoldable pub exit_room_ui_button : ℕ → Lobby d c → Lobby d c
  exit_room_ui_button k w = record w { redis = suppress_room_ui d c k w.redis }

  unfoldable pub fill_rooms : List ℕ → Lobby d c → Lobby d c
  fill_rooms [] w = w
  fill_rooms (r ∷ rs) w = fill_rooms rs (try_fill_room_from_queue d c r w)

  unfoldable pub sweep_room_join_queue : ℕ → Lobby d c → Lobby d c
  unfolding fill_rooms
  sweep_room_join_queue now w =
      fill_rooms (list_open_room_ids_with_spare_capacity d w.db)
        (record w { redis = purge_stale_room_join_queue c now w.redis })

  -- A key that is there is left as it is.
  unfoldable pub set_missing : List (ℕ × ℕ) → Store c → Store c
  set_missing [] s = s
  set_missing ((k, r) ∷ rest) s =
      set_missing rest
        (elim (get_active_room d c k s) [ none ↦ set_active_room d c k r s | some _ ↦ s ])

  unfoldable pub active_room_mirror_sync_job : Lobby d c → Lobby d c
  unfolding set_missing
  active_room_mirror_sync_job w = record w {
    redis = set_missing (list_users_with_active_room d w.db) w.redis;
  }
