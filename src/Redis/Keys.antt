-- ===== src/Redis/Keys.antt =====
-- The families of keys that are modelled, by the names of redis_client.py, and its constants.
-- Times are whole ticks of the clock that `time.time()` reads.
use bluechat.Base.{ℕ, Bool}
use bluechat.Db.Tables.{Pairs}
use bluechat.Redis.Stores.{Keyspace, SortedSet}

-- The genders that the queue of the 1:1 chat knows (`PARTNER_GENDERS`).
pub data PartnerGender : Type 0 where
  male female : PartnerGender

abbrev pub same_gender : PartnerGender → PartnerGender → Bool
same_gender PartnerGender.male PartnerGender.male = Bool.true
same_gender PartnerGender.female PartnerGender.female = Bool.true
same_gender _ _ = Bool.false

-- The buckets of the queue for a room, by what the user looks for.
pub data RoomBucket : Type 0 where
  male female any : RoomBucket

abbrev pub queue_timeout_seconds : ℕ
queue_timeout_seconds = 120

abbrev pub room_join_timeout_seconds : ℕ
room_join_timeout_seconds = 120

abbrev pub chat_coin_cost : ℕ
chat_coin_cost = 2

-- `CHAT_REQUEST_TIMEOUT_SECONDS` and `MAX_ACTIVE_CHAT_REQUESTS_PER_USER`
abbrev pub chat_request_timeout_seconds : ℕ
chat_request_timeout_seconds = 300

abbrev pub max_active_chat_requests_per_user : ℕ
max_active_chat_requests_per_user = 5

-- What is stored of a request for a chat.
pub record ChatRequest : Type 0 where
  pub requester_id : ℕ
  pub target_id : ℕ

-- The last three: the requests by their ids, the ids by the time of their creation, and one set of
-- ids for each requester (SADD, SREM and SCARD).
pub record Redis : Type 1 where
  pub waiting_queue : SortedSet
  pub room_join_queue : SortedSet
  pub desired_gender : Keyspace PartnerGender
  pub partner : Keyspace ℕ
  pub chat_start : Keyspace ℕ
  pub chat_payer : Keyspace Bool
  pub chat_msg_count : Keyspace ℕ
  pub secure_chat : Keyspace Bool
  pub session_id : Keyspace ℕ
  pub queue_pin : Keyspace ℕ
  pub active_room : Keyspace ℕ
  pub room_ui_suppressed : Keyspace Bool
  pub chat_request : Keyspace ChatRequest
  pub chat_request_pending : SortedSet
  pub chat_request_by_requester : Pairs

-- The queues have one sorted set for each gender or bucket; `KEY_CHAT_MSG_COUNT` is keyed by the
-- pair, here by its two ids, the smaller first.
pub record Store (c : Redis) : Type 0 where
  pub waiting_male : c.waiting_queue.Set
  pub waiting_female : c.waiting_queue.Set
  pub joining_male : c.room_join_queue.Set
  pub joining_female : c.room_join_queue.Set
  pub joining_any : c.room_join_queue.Set
  pub desired_gender : c.desired_gender.Keys
  pub partner : c.partner.Keys
  pub chat_start : c.chat_start.Keys
  pub chat_payer : c.chat_payer.Keys
  pub chat_msg_count : ℕ → c.chat_msg_count.Keys
  pub secure_chat : c.secure_chat.Keys
  pub session_id : c.session_id.Keys
  pub queue_pin : c.queue_pin.Keys
  pub active_room : c.active_room.Keys
  pub room_ui_suppressed : c.room_ui_suppressed.Keys
  pub chat_request : c.chat_request.Keys
  pub chat_request_pending : c.chat_request_pending.Set
  pub chat_request_by_requester : c.chat_request_by_requester.Rows
