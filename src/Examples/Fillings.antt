-- ===== src/Examples/Fillings.antt =====
-- The rooms of the town under the jobs and the paid search.
use bluechat.Base.{◌+◌, ◌≡◌, refl, true, none, some, List, [], ◌∷◌, arith}
use bluechat.Db.Models.{RoomGenderPref}
use bluechat.Db.Coins.Balance.{balance}
use bluechat.Db.Users.{get_user}
use bluechat.Db.Rooms.Effects.{active}
use bluechat.Db.RoomLists.{Found, find_open_room_for_join, find_open_room_for_join-Found}
use bluechat.Redis.Queue.{is_waiting}
use bluechat.Redis.RoomQueue.{compatible_buckets, is_waiting_room_join}
use bluechat.Chat.Rooms.{may_start_room_flow}
use bluechat.Chat.RoomSearch.{Lobby, room_join_cost}
use bluechat.Chat.Filling.{fill, queued, get_active_room, try_fill_room_from_queue}
use bluechat.Chat.Filling.Ends.{fill_enough_fuel}
use bluechat.Chat.Filling.Kept.{Kept}
use bluechat.Chat.Filling.Filled.{Filled, try_fill_room_from_queue-Filled}
use bluechat.Chat.Rooms.Mirrored.{Mirrored}
use bluechat.Chat.RoomJobs.{handle_join_gender_selected, active_room_mirror_sync_job}
use bluechat.Chat.RoomJobs.Histories.{
  RoomEvent, take_steps, take_steps-Mirrored, active_room_mirror_sync_job-take_steps,
}
use bluechat.Chat.RoomJobs.Searches.{Searched, handle_join_gender_selected-Searched}
use bluechat.Memory.{memory}
use bluechat.Examples.Cache.{cache, empty_store}
use bluechat.Examples.Rooms.{town, town-RoomsInv, room_of, guest}
use bluechat.Examples.Lobbies.{lobby}

find_open_room_for_join-Found_example :
    Found memory RoomGenderPref.male town (find_open_room_for_join memory RoomGenderPref.male town)
find_open_room_for_join-Found_example =
    find_open_room_for_join-Found memory RoomGenderPref.male town

fill_enough_fuel_example :
    ((fill memory cache 7 0 (compatible_buckets RoomGenderPref.any) lobby).1 ≡ true)
    × (fill memory cache 7 0 (compatible_buckets RoomGenderPref.any) lobby
        ≡ fill memory cache
            (queued memory cache lobby.redis + 1)
            0
            (compatible_buckets RoomGenderPref.any)
            lobby)
fill_enough_fuel_example =
    fill_enough_fuel memory cache 7 0 (compatible_buckets RoomGenderPref.any) lobby (omega arith)

lobby-Kept : Kept memory cache 0 (some (room_of 1 3)) lobby
lobby-Kept = record { rooms = town-RoomsInv; mirror = λ k q h. ground (arith, h); same = refl }

try_fill_room_from_queue-Filled_example :
    let w' = try_fill_room_from_queue memory cache 0 lobby in
    Kept memory cache 0 (some (room_of 1 3)) w' × Filled memory cache 0 (room_of 1 3) w'
try_fill_room_from_queue-Filled_example =
    try_fill_room_from_queue-Filled memory cache 0 (room_of 1 3) lobby refl lobby-Kept

lobby-Mirrored : Mirrored memory cache lobby
lobby-Mirrored = record { rooms = town-RoomsInv; mirror = λ k q h. ground (arith, h) }

-- 6 gets the free place of room 0, 3 leaves, the owner of room 0 kicks 6, and the owner of room 5 is
-- expelled.
abbrev busy_day : List RoomEvent
busy_day =
    RoomEvent.sweeps 100
    ∷ RoomEvent.syncs
    ∷ RoomEvent.leaves 3
    ∷ RoomEvent.kicks 1 6
    ∷ RoomEvent.expels 4
    ∷ []

take_steps-Mirrored_example : Mirrored memory cache (take_steps memory cache busy_day lobby)
take_steps-Mirrored_example = take_steps-Mirrored memory cache busy_day lobby lobby-Mirrored

active_room_mirror_sync_job-take_steps_example :
    let before = take_steps memory cache busy_day lobby in
    let after = active_room_mirror_sync_job memory cache before in
    (get_active_room memory cache 2 after.redis ≡ active memory 2 after.db)
    × (active memory 2 after.db ≡ active memory 2 before.db)
active_room_mirror_sync_job-take_steps_example =
    active_room_mirror_sync_job-take_steps memory cache busy_day lobby lobby-Mirrored 2

-- 6 does not wait yet, and has the price.
abbrev fresh_lobby : Lobby memory cache
fresh_lobby = record lobby { redis = empty_store; timeouts = [] }

handle_join_gender_selected-Searched_example :
    let w' = handle_join_gender_selected memory cache 6 RoomGenderPref.any 40 fresh_lobby in
    (balance (get_user memory 6 w'.db) + room_join_cost ≡ guest.coins)
    × Searched memory cache 6 RoomGenderPref.any 40 town none w'
unfolding may_start_room_flow is_waiting is_waiting_room_join
handle_join_gender_selected-Searched_example =
    handle_join_gender_selected-Searched memory cache 6 RoomGenderPref.any 40 fresh_lobby guest refl
      refl (omega arith) town-RoomsInv
