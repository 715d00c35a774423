-- ===== src/Chat/Exclusive/Histories.antt =====
-- Histories of the whole bot, and the way by which a user of a room gets into the 1:1 chat.
use bluechat.Base.{
  ℕ, ◌≡◌, refl, ap, ◌∙◌, Bool, true, false, not, ◌&&◌, Option, none, some, List, [], ◌∷◌, ◌==◌,
  arith, eq_of_test, ==-refl,
}
use bluechat.Db.Models.{Database, RoomGenderPref}
use bluechat.Db.Rooms.Effects.{active}
use bluechat.Redis.Keys.{PartnerGender, Redis, Store}
use bluechat.Redis.Queue.{
  user_gender_str, waits_in, is_waiting, dequeue, atomic_match_or_enqueue, match_or_enqueue,
}
use bluechat.Redis.Queue.Matching.{Matched, match_or_enqueue-Matched}
use bluechat.Redis.Partners.{get_partner, set_queue_pin_message}
use bluechat.Chat.World.{World, Notice, send, with_redis, desired_of}
use bluechat.Chat.Matching.{wait_for_partner, after_search, try_match, pay_and_match, saved_pref}
use bluechat.Chat.Session.{end_chat, search_again, next_chat}
use bluechat.Chat.History.{Event, handle}
use bluechat.Chat.Untouched.Endings.{handle-Untouched}
use bluechat.Chat.Requests.Histories.{RequestEvent, respond}
use bluechat.Chat.RoomJobs.Histories.{take_step}
use bluechat.Chat.Bot.{Bot, BotEvent, lobby_of, serve}
use bluechat.Chat.Exclusive.{
  engaged, held, Exclusive, Joins, quiet-Joins, then-Joins, Joins-Exclusive, engaged-begin_chat,
}
use bluechat.Chat.Exclusive.Searches.{
  pay_and_match-Joins, start_chat-Exclusive, handle_desired_gender_callback-Exclusive,
}
use bluechat.Chat.Exclusive.Endings.{
  queue_timeout_job-Joins, end_chat-Joins, stop_chat-Joins, close_active_1to1_chat-Joins,
}
use bluechat.Chat.Exclusive.Filters.{
  dequeue-Joins, run_search-Exclusive, purge_stale_queue_job-Exclusive,
}
use bluechat.Chat.Exclusive.Lobbies.{Calm-Exclusive}
use bluechat.Chat.Exclusive.Jobs.{take_step-Calm}
use bluechat.Chat.Exclusive.Requests.{
  handle_chat_request_button-Exclusive, handle_chat_request_accept-Exclusive,
  handle_chat_request_reject-Exclusive, expire_chat_requests_job-Exclusive,
}

module _ (d : Database) (c : Redis) where
  -- `next_chat` does not ask whether the user is in a room; here nobody who is asks for it.
  abbrev pub stays : BotEvent → Bot d c → Bool
  stays (BotEvent.of_chat (RequestEvent.chats (Event.goes_next k pinned now))) b =
      not (held d c k b.chat.db b.chat.redis)
  stays _ b = true

  unfoldable pub serve_all : List BotEvent → Bot d c → Bot d c
  serve_all [] b = b
  serve_all (e ∷ es) b = serve_all es (serve d c e b)

  unfoldable pub all_stay : List BotEvent → Bot d c → Bool
  all_stay [] b = true
  all_stay (e ∷ es) b = stays e b && all_stay es (serve d c e b)

  -- A step that engages nobody anew.
  quiet-Exclusive :
      (e : Event) (w : World d c)
      → Joins d c (λ j. false) w (handle d c e w)
      → Exclusive d c w.db w.redis
      → Exclusive d c (handle d c e w).db (handle d c e w).redis
  quiet-Exclusive e w joins =
      Joins-Exclusive d c (λ j. false) w (handle d c e w) joins (handle-Untouched d c e w)
        (λ j new. ground (arith, new))

  more-Joins :
      (k : ℕ) (w w' : World d c) → Joins d c (λ j. false) w w' → Joins d c (λ j. j == k) w w'
  more-Joins k w w' joins = record { rooms = joins.rooms; others = λ j other. joins.others j refl }

  search_again-Joins :
      (k : ℕ) (pref : Option RoomGenderPref) (pinned : Option ℕ) (now : ℕ) (w : World d c)
      → Joins d c (λ j. j == k) w (search_again d c k pref pinned now w)
  unfolding search_again
  search_again-Joins k none pinned now w =
      quiet-Joins d c (λ j. j == k) w (search_again d c k none pinned now w) (λ j. refl) (λ j. refl)
  search_again-Joins k (some choice) pinned now w =
      pay_and_match-Joins d c k (desired_of choice) pinned now w

  next_chat-Joins :
      (k : ℕ) (pinned : Option ℕ) (now : ℕ) (w : World d c)
      → Joins d c (λ j. j == k) w (next_chat d c k pinned now w)
  unfolding next_chat
  next_chat-Joins k pinned now w =
      let after : World d c = (end_chat d c false k w).0 in
      let out : World d c = with_redis d c (dequeue c k after.redis).0 after in
      then-Joins d c (λ j. j == k) w out (next_chat d c k pinned now w)
        (more-Joins k w out (
          then-Joins d c (λ j. false) w after out (end_chat-Joins d c false k w)
            (dequeue-Joins d c k after)))
        (search_again-Joins k (saved_pref d c k out) pinned now out)

  respond-Exclusive :
      (e : RequestEvent) (b : Bot d c)
      → stays (BotEvent.of_chat e) b ≡ true
      → Exclusive d c b.chat.db b.chat.redis
      → let w = respond d c e b.chat in Exclusive d c w.db w.redis
  unfolding respond handle
  respond-Exclusive (RequestEvent.chats (Event.starts k username first_name pinned now)) b h v =
      start_chat-Exclusive d c k username first_name pinned now b.chat v
  respond-Exclusive (RequestEvent.chats (Event.chooses k choice pinned now)) b h v =
      handle_desired_gender_callback-Exclusive d c k choice pinned now b.chat v
  respond-Exclusive (RequestEvent.chats (Event.times_out k)) b h v =
      quiet-Exclusive (Event.times_out k) b.chat (queue_timeout_job-Joins d c k b.chat) v
  respond-Exclusive (RequestEvent.chats (Event.stops k)) b h v =
      quiet-Exclusive (Event.stops k) b.chat (stop_chat-Joins d c k b.chat) v
  respond-Exclusive (RequestEvent.chats (Event.goes_next k pinned now)) b h v =
      Joins-Exclusive d c (λ j. j == k) b.chat (next_chat d c k pinned now b.chat)
        (next_chat-Joins k pinned now b.chat)
        (handle-Untouched d c (Event.goes_next k pinned now) b.chat)
        (λ j new. rw (eq_of_test j k new) (ground (arith, h))) v
  respond-Exclusive (RequestEvent.chats (Event.is_expelled k)) b h v =
      quiet-Exclusive (Event.is_expelled k) b.chat (close_active_1to1_chat-Joins d c k b.chat) v
  respond-Exclusive (RequestEvent.asks id k target now) b h v =
      handle_chat_request_button-Exclusive d c id k target now b.chat v
  respond-Exclusive (RequestEvent.agrees id k now) b h v =
      handle_chat_request_accept-Exclusive d c id k now b.chat v
  respond-Exclusive (RequestEvent.rejects id k) b h v =
      handle_chat_request_reject-Exclusive d c id k b.chat v
  respond-Exclusive (RequestEvent.expires now) b h v =
      expire_chat_requests_job-Exclusive d c now b.chat v

  serve-Exclusive :
      (e : BotEvent) (b : Bot d c)
      → stays e b ≡ true
      → Exclusive d c b.chat.db b.chat.redis
      → let w = (serve d c e b).chat in Exclusive d c w.db w.redis
  unfolding serve
  serve-Exclusive (BotEvent.of_chat e) b h v = respond-Exclusive e b h v
  serve-Exclusive (BotEvent.of_rooms e) b h v =
      Calm-Exclusive d c (lobby_of d c b) (take_step d c e (lobby_of d c b))
        (take_step-Calm d c e (lobby_of d c b)) v
  serve-Exclusive (BotEvent.filters k asked fits pinned now) b h v =
      run_search-Exclusive d c k asked fits pinned now b.chat v
  serve-Exclusive (BotEvent.purges now) b h v = purge_stale_queue_job-Exclusive d c now b.chat v

  -- Every history of `start_chat`, the choice of a gender, the time-out of a search, `stop_chat`,
  -- `next_chat`, `_close_active_1to1_chat`, the requests for a chat with their expiry, `run_search`
  -- with any result of its select, the purge of the waiting queue, and the handlers, expulsions and
  -- jobs of the chat rooms, in which nobody who is in a room or waits for one asks for `next_chat`,
  -- keeps rooms and 1:1 chat apart: who is in a room or waits for one neither has a partner nor waits
  -- for one.
  pub serve_all-Exclusive :
      (es : List BotEvent) (b : Bot d c)
      → all_stay es b ≡ true
      → Exclusive d c b.chat.db b.chat.redis
      → let w = (serve_all es b).chat in Exclusive d c w.db w.redis
  unfolding serve_all all_stay
  serve_all-Exclusive [] b h v = v
  serve_all-Exclusive (e ∷ es) b h v =
      serve_all-Exclusive es (serve d c e b) (ground (arith, h))
        (serve-Exclusive e b (ground (arith, h)) v)

  -- A search that the script answers leaves the searcher paired or waiting.
  after_search-engaged :
      (k : ℕ) (own : PartnerGender) (wanted : Option PartnerGender) (pinned : Option ℕ) (now : ℕ)
      (w : World d c) (r : Store c) (found : Option ℕ)
      → Matched c k own wanted w.redis (r, found)
      → engaged d c k (after_search d c k pinned now w (r, true, found)).0.redis ≡ true
  unfolding after_search wait_for_partner set_queue_pin_message is_waiting waits_in
  after_search-engaged k own wanted none now w r none (unfit, waits, wants) =
      ground (arith, waits k, ==-refl k)
  after_search-engaged k own wanted (some m) now w r none (unfit, waits, wants) =
      ground (arith, waits k, ==-refl k)
  after_search-engaged k own wanted pinned now w r (some p) m =
      ground (arith, engaged-begin_chat d c k k p now (with_redis d c r w), ==-refl k)

  try_match-engaged :
      (k : ℕ) (own : PartnerGender) (wanted : Option PartnerGender) (pinned : Option ℕ) (now : ℕ)
      (w : World d c)
      → user_gender_str d k w.db ≡ some own
      → engaged d c k (try_match d c k wanted pinned now w).0.redis ≡ true
  unfolding try_match atomic_match_or_enqueue
  try_match-engaged k own wanted pinned now w h =
      let (r, found) = match_or_enqueue c k own wanted now w.redis in
      rw (h, try_match)
        (after_search-engaged k own wanted pinned now w r found
          (match_or_enqueue-Matched c k own wanted now w.redis))

  search_again-engaged :
      (k : ℕ) (own : PartnerGender) (pinned : Option ℕ) (now : ℕ) (w : World d c)
      → user_gender_str d k w.db ≡ some own
      → saved_pref d c k w ≡ some RoomGenderPref.any
      → engaged d c k (search_again d c k (saved_pref d c k w) pinned now w).redis ≡ true
  unfolding search_again pay_and_match
  search_again-engaged k own pinned now w gender content =
      rw content (try_match-engaged k own none pinned now (send d c k Notice.searching w) gender)

  end_chat-alone :
      (told : Bool) (k : ℕ) (w : World d c)
      → get_partner c k w.redis ≡ none
      → (end_chat d c told k w).0.db ≡ w.db
  unfolding end_chat
  end_chat-alone told k w alone = rw (alone, end_chat) refl

  -- A user who is in a room, has neither a partner nor waits for one, has told his gender and is
  -- content with any partner: after `next_chat` he is in that room still, and has a partner of the
  -- 1:1 chat or waits for one.
  pub next_chat_from_room :
      (k q : ℕ) (own : PartnerGender) (pinned : Option ℕ) (now : ℕ) (w : World d c)
      → active d k w.db ≡ some q
      → engaged d c k w.redis ≡ false
      → user_gender_str d k w.db ≡ some own
      → saved_pref d c k w ≡ some RoomGenderPref.any
      → let w' = next_chat d c k pinned now w in
        (active d k w'.db ≡ some q) × (engaged d c k w'.redis ≡ true)
  unfolding next_chat saved_pref
  next_chat_from_room k q own pinned now w there idle gender content =
      let after : World d c = (end_chat d c false k w).0 in
      let out : World d c = with_redis d c (dequeue c k after.redis).0 after in
      let same : after.db ≡ w.db = end_chat-alone false k w (ground (arith, idle)) in
      (
        (next_chat-Joins k pinned now w).rooms k ∙ there,
        search_again-engaged k own pinned now out (ap (λ s. user_gender_str d k s) same ∙ gender)
            (ap (λ s. saved_pref d c k (record w { db = s })) same ∙ content),
      )
