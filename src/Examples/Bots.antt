-- ===== src/Examples/Bots.antt =====
-- An evening in which the town's rooms and the 1:1 chat run side by side.
use bluechat.Base.{◌≡◌, refl, true, none, some, List, [], ◌∷◌, arith}
use bluechat.Db.Models.{State, Gender, RoomGenderPref}
use bluechat.Db.Rooms.Effects.{active}
use bluechat.Redis.Keys.{PartnerGender}
use bluechat.Redis.Queue.{user_gender_str, is_waiting, waits_in, dequeue, leave_queue}
use bluechat.Redis.RoomQueue.{is_waiting_room_join}
use bluechat.Chat.World.{World}
use bluechat.Chat.Matching.{saved_pref, has_profile, check_room_conflict}
use bluechat.Chat.Session.{next_chat}
use bluechat.Chat.History.{Event}
use bluechat.Chat.Requests.Histories.{RequestEvent}
use bluechat.Chat.RoomJobs.Histories.{RoomEvent}
use bluechat.Chat.Bot.{Bot, BotEvent}
use bluechat.Chat.Exclusive.{engaged, Exclusive}
use bluechat.Chat.Exclusive.Histories.{
  serve_all, all_stay, serve_all-Exclusive, next_chat_from_room,
}
use bluechat.Memory.{memory}
use bluechat.Examples.Cache.{cache, only}
use bluechat.Redis.Partners.{get_partner, set_partner, set_session_id}
use bluechat.Chat.Search.{
  run_search, charge_and_search, search_queue, select_match, candidate_ids, claim, after_selection,
  connect,
}
use bluechat.Db.Users.{get_or_create_user, refresh_user}
use bluechat.Examples.Rooms.{town, guest, lodger}
use bluechat.Examples.Lobbies.{lobby}

-- Users 3, of room 0, and 7, of none, are content with any partner; 8 has told all of his profile.
abbrev content_town : State memory
content_town = record town {
  users =
      (3, record (lodger 0) { next_gender_pref = some RoomGenderPref.any })
      ∷ (7, record guest { gender = Gender.female; next_gender_pref = some RoomGenderPref.any })
      ∷ (8, record guest { display_name = some "Omid"; age = some 30 })
      ∷ town.users;
}

abbrev quiet_town : World memory cache
quiet_town = record { db = content_town; redis = lobby.redis; timeouts = []; sent = [] }

-- 7 searches; 6, who waits for a room, gets one; 3 is refused a search; 8 finds 7 by filters, who may
-- not open a room now; 3 leaves his room and waits for a chat, until the queue is purged; 2 is not
-- let in to a search, and asks 7 for a chat in vain.
abbrev side_by_side : List BotEvent
side_by_side =
    BotEvent.of_chat (RequestEvent.chats (Event.goes_next 7 none 100))
    ∷ BotEvent.of_rooms (RoomEvent.sweeps 101)
    ∷ BotEvent.of_chat (RequestEvent.chats (Event.chooses 3 RoomGenderPref.any none 102))
    ∷ BotEvent.filters 8 (record { gender = none; narrows = true }) (λ ids. some 7) none 103
    ∷ BotEvent.of_rooms (RoomEvent.leaves 3)
    ∷ BotEvent.of_chat (RequestEvent.chats (Event.chooses 3 RoomGenderPref.any none 104))
    ∷ BotEvent.of_rooms (RoomEvent.creates 7 RoomGenderPref.any 4)
    ∷ BotEvent.filters 2 (record { gender = none; narrows = true }) (λ ids. none) none 105
    ∷ BotEvent.purges 500
    ∷ BotEvent.of_chat (RequestEvent.asks 80 2 7 106)
    ∷ BotEvent.of_chat (RequestEvent.agrees 80 7 107)
    ∷ []

abbrev whole_bot : Bot memory cache
whole_bot = record { chat = quiet_town; room_timeouts = 6 ∷ [] }

they_all_stay : all_stay memory cache side_by_side whole_bot ≡ true
unfolding all_stay is_waiting_room_join
they_all_stay = refl

quiet_town-Exclusive : Exclusive memory cache quiet_town.db quiet_town.redis
unfolding is_waiting waits_in is_waiting_room_join
quiet_town-Exclusive k = ground arith

serve_all-Exclusive_example :
    let w = (serve_all memory cache side_by_side whole_bot).chat in
    Exclusive memory cache w.db w.redis
serve_all-Exclusive_example =
    serve_all-Exclusive memory cache side_by_side whole_bot they_all_stay quiet_town-Exclusive

next_chat_from_room_example :
    let w' = next_chat memory cache 3 none 100 quiet_town in
    (active memory 3 w'.db ≡ some 0) × (engaged memory cache 3 w'.redis ≡ true)
unfolding is_waiting waits_in user_gender_str saved_pref
next_chat_from_room_example =
    next_chat_from_room memory cache 3 0 PartnerGender.male none 100 quiet_town refl refl refl refl

-- Once 7 waits, 8 finds her: both are engaged.
abbrev waiting_seven : World memory cache
waiting_seven = record quiet_town { redis = record (lobby.redis) { waiting_female = only 7 100 } }

filters_find_seven :
    get_partner cache 8
      (run_search memory cache 8
        (record { gender = none; narrows = true })
        (λ ids. some 7)
        none
        103
        waiting_seven).redis
    ≡ some 7
unfolding run_search is_waiting waits_in is_waiting_room_join has_profile check_room_conflict
    charge_and_search search_queue select_match candidate_ids claim after_selection connect dequeue
    leave_queue set_partner set_session_id get_or_create_user refresh_user
filters_find_seven = refl
