-- ===== src/Examples/Chats.antt =====
-- Runs of the handlers over both stores.
use bluechat.Base.{◌+◌, ◌≡◌, refl, true, none, some, List, [], ◌∷◌, arith}
use bluechat.Db.Models.{User, Gender, RoomGenderPref}
use bluechat.Db.Users.{new_user}
use bluechat.Redis.Keys.{PartnerGender, chat_coin_cost}
use bluechat.Redis.Queue.{is_waiting, waits_in}
use bluechat.Chat.World.{World}
use bluechat.Chat.Session.{stop_chat, next_chat}
use bluechat.Chat.Matching.{queue_timeout_job}
use bluechat.Chat.Pairing.{Sound}
use bluechat.Chat.History.{Event, handle_all, handle_all-Sound}
use bluechat.Chat.Refunds.{
  coins_of, SearchCancelled, stop_chat-SearchCancelled, queue_timeout_job-SearchCancelled,
  next_chat_unrefunded,
}
use bluechat.Memory.{memory}
use bluechat.Examples.Cache.{cache, busy_store}

abbrev bert : User
bert = record (new_user none none none) {
  gender = Gender.male;
  next_gender_pref = some RoomGenderPref.female;
}

abbrev mona : User
mona = record bert { gender = Gender.female; next_gender_pref = some RoomGenderPref.any }

abbrev pub evening : World memory cache
evening = record {
  db = record {
    users = (1, bert) ∷ (2, bert) ∷ (3, mona) ∷ (4, mona) ∷ (6, mona) ∷ [];
    rooms = [];
    sessions = [];
    members = [];
    blocked = [];
    transactions = [];
    warnings = [];
  };
  redis = busy_store;
  timeouts = 1 ∷ 4 ∷ [];
  sent = [];
}

pub evening-Sound : Sound memory cache evening
unfolding is_waiting waits_in
evening-Sound = record {
  symmetric = λ a b. ground arith;
  apart = λ a. ground arith;
  free = λ a. ground arith;
}

one_waits : is_waiting cache 1 evening.redis ≡ true
unfolding is_waiting
one_waits = refl

-- 6 finds 1, 2 looks for another partner, 3 stops, 4 gives up, and 1 is banned.
abbrev night : List Event
night =
    Event.chooses 6 RoomGenderPref.male none 100
    ∷ Event.goes_next 2 (some 11) 110
    ∷ Event.stops 3
    ∷ Event.times_out 4
    ∷ Event.starts 3 none none none 130
    ∷ Event.is_expelled 1
    ∷ []

handle_all-Sound_example : Sound memory cache (handle_all memory cache night evening)
handle_all-Sound_example = handle_all-Sound memory cache night evening evening-Sound

stop_chat-SearchCancelled_example :
    SearchCancelled memory cache 1 evening (stop_chat memory cache 1 evening)
stop_chat-SearchCancelled_example = stop_chat-SearchCancelled memory cache 1 evening refl one_waits

queue_timeout_job-SearchCancelled_example :
    SearchCancelled memory cache 1 evening (queue_timeout_job memory cache 1 evening)
queue_timeout_job-SearchCancelled_example =
    queue_timeout_job-SearchCancelled memory cache 1 evening refl one_waits

next_chat_unrefunded_example :
    coins_of memory cache 1 (next_chat memory cache 1 none 100 evening) + chat_coin_cost
    ≡ coins_of memory cache 1 evening
next_chat_unrefunded_example =
    next_chat_unrefunded memory cache 1 none 100 evening bert RoomGenderPref.female
      PartnerGender.female refl one_waits refl refl refl refl (omega arith)
