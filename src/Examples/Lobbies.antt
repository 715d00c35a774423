-- ===== src/Examples/Lobbies.antt =====
-- Searches for a room in the town of two rooms.
use bluechat.Base.{◌≡◌, ◌⊎◌, refl, true, false, none, some, [], ◌∷◌, elem, is_some}
use bluechat.Redis.Keys.{RoomBucket}
use bluechat.Redis.RoomQueue.{joining, is_waiting_room_join}
use bluechat.Chat.RoomSearch.{
  Lobby, try_join_room, handle_cancel_room_join_button, room_join_timeout_job,
}
use bluechat.Chat.RoomSearch.Settled.{
  InRoom, InQueue, Repaid, try_join_room-settled, handle_cancel_room_join_button-Repaid,
  room_join_timeout_job-Repaid,
}
use bluechat.Memory.{memory}
use bluechat.Examples.Cache.{cache, only, empty_store}
use bluechat.Examples.Rooms.{town, town-RoomsInv}

-- User 6 waits for any room.
abbrev pub lobby : Lobby memory cache
lobby = record {
  db = town;
  redis = record empty_store { joining_any = only 6 30 };
  timeouts = 6 ∷ [];
}

try_join_room-settled_example :
    let w' = try_join_room memory cache 6 RoomBucket.any (some 0) none 40 lobby in
    InRoom memory cache 6 w'
    ⊎ (Repaid memory cache 6 lobby w' ⊎ InQueue memory cache 6 RoomBucket.any 40 w')
try_join_room-settled_example =
    try_join_room-settled memory cache 6 RoomBucket.any (some 0) none 40 lobby refl town-RoomsInv

handle_cancel_room_join_button-Repaid_example :
    let w' = handle_cancel_room_join_button memory cache 6 lobby in
    ((is_waiting_room_join cache 6 lobby.redis ≡ none) × (w' ≡ lobby))
    ⊎ ((g : RoomBucket) × (is_waiting_room_join cache 6 lobby.redis ≡ some g)
        × Repaid memory cache 6 lobby w'
        × (cache.room_join_queue.zscore 6 (joining cache g w'.redis) ≡ none)
        × (elem 6 w'.timeouts ≡ false))
handle_cancel_room_join_button-Repaid_example =
    handle_cancel_room_join_button-Repaid memory cache 6 lobby refl

-- The time-out of 6 has been taken from the scheduler.
abbrev lobby_at_timeout : Lobby memory cache
lobby_at_timeout = record lobby { timeouts = [] }

room_join_timeout_job-Repaid_example :
    let w' = room_join_timeout_job memory cache 6 RoomBucket.any lobby_at_timeout in
    ((is_waiting_room_join cache 6 lobby_at_timeout.redis ≡ none) × (w' ≡ lobby_at_timeout))
    ⊎ ((is_some (is_waiting_room_join cache 6 lobby_at_timeout.redis) ≡ true)
        × Repaid memory cache 6 lobby_at_timeout w'
        × (cache.room_join_queue.zscore 6 (joining cache RoomBucket.any w'.redis) ≡ none))
room_join_timeout_job-Repaid_example =
    room_join_timeout_job-Repaid memory cache 6 RoomBucket.any lobby_at_timeout refl
