-- ===== src/Examples/Requests.antt =====
-- Requests for a chat on an evening.
use bluechat.Base.{◌+◌, ◌≡◌, refl, none, List, [], ◌∷◌, arith, ltb, if◌then◌else◌}
use bluechat.Redis.Keys.{Store, chat_request_timeout_seconds}
use bluechat.Redis.Requests.{
  get_chat_request, create_chat_request, pop_expired_chat_requests, count_active_chat_requests,
}
use bluechat.Redis.Requests.Invariant.{RequestsInv, create_chat_request-RequestsInv}
use bluechat.Redis.Requests.Expiry.{get_chat_request-pop_expired_chat_requests}
use bluechat.Chat.World.{World}
use bluechat.Chat.History.{Event}
use bluechat.Chat.Requests.Kept.{InOrder}
use bluechat.Chat.Requests.Histories.{RequestEvent, respond, respond_all, respond_all-InOrder}
use bluechat.Chat.Requests.Coins.{holdings, spent, respond-holdings}
use bluechat.Memory.{memory}
use bluechat.Examples.Cache.{cache, busy_store}
use bluechat.Examples.Chats.{evening, evening-Sound}

busy_store-RequestsInv : RequestsInv cache busy_store
unfolding count_active_chat_requests
busy_store-RequestsInv = record {
  pending = λ id. refl;
  listed = λ r id. refl;
  few = λ r. omega arith;
  apart = λ id. refl;
}

evening-InOrder : InOrder memory cache evening.redis
evening-InOrder = record { pairs = evening-Sound; requests = busy_store-RequestsInv }

-- 6 asks 4, who waits; 4 leaves the queue and accepts; 3 asks 6 in vain, and the rest expires.
abbrev exchanges : List RequestEvent
exchanges =
    RequestEvent.asks 70 6 4 100
    ∷ RequestEvent.chats (Event.stops 4)
    ∷ RequestEvent.agrees 70 4 120
    ∷ RequestEvent.asks 71 3 6 130
    ∷ RequestEvent.expires 900
    ∷ []

respond_all-InOrder_example :
    InOrder memory cache (respond_all memory cache exchanges evening).redis
respond_all-InOrder_example = respond_all-InOrder memory cache exchanges evening evening-InOrder

-- 6 has asked 4, who still waits for a chat.
abbrev asked_store : Store cache
asked_store = create_chat_request cache 70 6 4 100 busy_store

asked_store-RequestsInv : RequestsInv cache asked_store
unfolding count_active_chat_requests
asked_store-RequestsInv =
    create_chat_request-RequestsInv cache 70 6 4 100 busy_store refl (omega arith) (omega arith)
      busy_store-RequestsInv

abbrev asked : World memory cache
asked = record evening { redis = asked_store }

respond-holdings_example :
    holdings memory cache 6 (respond memory cache (RequestEvent.agrees 70 4 110) asked)
      + spent memory cache 6 (RequestEvent.agrees 70 4 110) asked
    ≡ holdings memory cache 6 asked
unfolding create_chat_request
respond-holdings_example =
    respond-holdings memory cache 6 (RequestEvent.agrees 70 4 110) asked refl refl refl
      asked_store-RequestsInv

get_chat_request-pop_expired_chat_requests_example :
    get_chat_request cache 70 (pop_expired_chat_requests cache 410 asked_store).0 ≡ (
      if ltb 410 (100 + chat_request_timeout_seconds)
      then get_chat_request cache 70 asked_store
      else none)
unfolding create_chat_request
get_chat_request-pop_expired_chat_requests_example =
    get_chat_request-pop_expired_chat_requests cache 70 100 410 asked_store refl (omega arith)
