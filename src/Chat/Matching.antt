-- ===== src/Chat/Matching.antt =====
-- handlers/chat/matching.py: the search for a partner, and its time-out. `now` is the time of the
-- call, `pinned` the id of the queue message if the bot could pin it.
use bluechat.Base.{
  ℕ, Bool, true, false, not, Option, none, some, [], ◌∷◌, if◌then◌else◌, is_some, String, ◌&&◌,
}
use bluechat.Db.Models.{Database, State, User, Gender, ChatSession, RoomGenderPref, Reason}
use bluechat.Db.Users.{get_user, get_or_create_user, increment_total_chats}
use bluechat.Db.Coins.{deduct_coins, refund_coins}
use bluechat.Redis.Keys.{PartnerGender, Redis, Store, chat_coin_cost}
use bluechat.Redis.Queue.{user_gender_str, is_waiting, dequeue, atomic_match_or_enqueue}
use bluechat.Redis.Partners.{
  get_partner, set_partner, set_session_id, set_queue_pin_message, pop_queue_pin_message,
  is_chat_payer, set_chat_payer, clear_chat_payer,
}
use bluechat.Redis.RoomQueue.{is_waiting_room_join}
use bluechat.Chat.World.{World, Notice, desired_of, drop_all, send, with_redis, with_db}

-- `is_profile_complete` of handlers/profile.py.
abbrev is_set : Gender → Bool
is_set Gender.unset = false
is_set _ = true

abbrev has_text : Option String → Bool
has_text none = false
has_text (some String.[]) = false
has_text (some (String.◌∷◌ _ _)) = true

abbrev pub is_profile_complete : User → Bool
is_profile_complete u = has_text u.display_name && is_set u.gender && is_some u.age

module _ (d : Database) (c : Redis) where
  unfoldable pub check_room_conflict : ℕ → World d c → Option Notice
  check_room_conflict k w =
      let in_room : Bool = elim (get_user d k w.db) [
        | none ↦ false
        | some u ↦ is_some u.active_room_id
      ] in
      if in_room
      then some Notice.room_conflict
      else if is_some (is_waiting_room_join c k w.redis)
      then some Notice.room_search_conflict
      else none

  unfoldable pub unpin_queue_message : ℕ → World d c → World d c
  unpin_queue_message k w = record w {
    redis = pop_queue_pin_message c k w.redis;
    timeouts = drop_all k w.timeouts;
  }

  unfoldable pub wait_for_partner : ℕ → Option ℕ → World d c → World d c
  wait_for_partner k pinned w = record w {
    redis = elim pinned [
      | none ↦ w.redis
      | some message ↦ set_queue_pin_message c k message w.redis
    ];
    timeouts = k ∷ w.timeouts;
    sent = (k, Notice.queued) ∷ w.sent;
  }

  -- The pair is set up: partners, a session row, the counters.
  unfoldable pub begin_chat : ℕ → ℕ → ℕ → World d c → World d c
  unfolding unpin_queue_message
  begin_chat k p now w =
      let free : World d c = unpin_queue_message p (unpin_queue_message k w) in
      let id : ℕ = d.sessions.next_id free.db.sessions in
      let row : ChatSession = record { user_a_id = k; user_b_id = p; ended_by = none } in
      let stored : State d = record (free.db) {
        sessions = d.sessions.put id row free.db.sessions;
      } in
      record free {
        redis = set_session_id c k p id (set_partner c k p now free.redis);
        db = increment_total_chats d (k ∷ p ∷ []) stored;
        sent = (p, Notice.matched) ∷ (k, Notice.matched) ∷ free.sent;
      }

  -- `try_match` behind the script's answer.
  unfoldable pub after_search :
      ℕ → Option ℕ → ℕ → World d c → Store c × Bool × Option ℕ → World d c × Bool
  unfolding wait_for_partner begin_chat
  after_search k pinned now w (r, false, found) =
      (send d c k Notice.gender_missing (with_redis d c r w), false)
  after_search k pinned now w (r, true, none) =
      (wait_for_partner k pinned (with_redis d c r w), false)
  after_search k pinned now w (r, true, some p) = (begin_chat k p now (with_redis d c r w), true)

  unfoldable pub try_match : ℕ → Option PartnerGender → Option ℕ → ℕ → World d c → World d c × Bool
  unfolding after_search
  try_match k wanted pinned now w =
      after_search k pinned now w
        (atomic_match_or_enqueue c k (user_gender_str d k w.db) wanted now w.redis)

  -- What follows the payment for a search, by the balance that it left.
  unfoldable pub after_payment :
      ℕ → PartnerGender → Option ℕ → ℕ → World d c → State d × Option ℕ → World d c
  unfolding try_match
  after_payment k g pinned now w (paid, none) = send d c k Notice.coins_missing (with_db d c paid w)
  after_payment k g pinned now w (paid, some left) =
      let marked : World d c = record w { db = paid; redis = set_chat_payer c k w.redis } in
      (try_match k (some g) pinned now (send d c k Notice.searching marked)).0

  -- The end of `start_chat`, of `handle_desired_gender_callback` and of `next_chat`: a search for
  -- one gender is paid for first, and the payer marked.
  unfoldable pub pay_and_match : ℕ → Option PartnerGender → Option ℕ → ℕ → World d c → World d c
  unfolding try_match after_payment
  pay_and_match k none pinned now w =
      (try_match k none pinned now (send d c k Notice.searching w)).0
  pay_and_match k (some g) pinned now w =
      after_payment k g pinned now w (deduct_coins d k chat_coin_cost Reason.gender_search w.db)

  unfoldable pub has_profile : ℕ → World d c → Bool
  has_profile k w = elim (get_user d k w.db) [ none ↦ false | some u ↦ is_profile_complete u ]

  unfoldable pub saved_pref : ℕ → World d c → Option RoomGenderPref
  saved_pref k w = elim (get_user d k w.db) [ none ↦ none | some u ↦ u.next_gender_pref ]

  -- The choice is acted on unless the user is in a room or waits for one.
  unfoldable pub search_unless_in_room : ℕ → RoomGenderPref → Option ℕ → ℕ → World d c → World d c
  unfolding check_room_conflict pay_and_match
  search_unless_in_room k choice pinned now w = elim (check_room_conflict k w) [
    | some conflict ↦ send d c k conflict w
    | none ↦ pay_and_match k (desired_of choice) pinned now w
  ]

  unfoldable pub start_by_preference :
      ℕ → Option RoomGenderPref → Option ℕ → ℕ → World d c → World d c
  unfolding search_unless_in_room
  start_by_preference k none pinned now w = send d c k Notice.choose_gender w
  start_by_preference k (some choice) pinned now w = search_unless_in_room k choice pinned now w

  unfoldable pub start_chat :
      ℕ → Option String → Option String → Option ℕ → ℕ → World d c → World d c
  unfolding start_by_preference has_profile saved_pref
  start_chat k username first_name pinned now w0 =
      let w : World d c = with_db d c (get_or_create_user d k username first_name none w0.db) w0 in
      if not (has_profile k w)
      then send d c k Notice.onboarding w
      else if is_some (get_partner c k w.redis)
      then send d c k Notice.already_in_chat w
      else if is_waiting c k w.redis
      then send d c k Notice.already_waiting w
      else start_by_preference k (saved_pref k w) pinned now w

  unfoldable pub handle_desired_gender_callback :
      ℕ → RoomGenderPref → Option ℕ → ℕ → World d c → World d c
  unfolding search_unless_in_room
  handle_desired_gender_callback k choice pinned now w =
      if is_some (get_partner c k w.redis)
      then send d c k Notice.already_in_chat w
      else if is_waiting c k w.redis
      then send d c k Notice.already_waiting w
      else search_unless_in_room k choice pinned now w

  -- The coins of a search that ends without a partner go back to the user who paid.
  unfoldable pub refund_search : ℕ → Reason → World d c → World d c
  refund_search k reason w =
      if is_chat_payer c k w.redis
      then record w {
        db = (refund_coins d k chat_coin_cost reason w.db).0;
        redis = clear_chat_payer c k w.redis;
      }
      else w

  -- The job that runs is no longer among the pending ones, which the scheduler sees to before the
  -- call.
  unfoldable pub queue_timeout_job : ℕ → World d c → World d c
  unfolding unpin_queue_message refund_search
  queue_timeout_job k w =
      if not (is_waiting c k w.redis)
      then w
      else let out : World d c = unpin_queue_message k (with_redis d c (dequeue c k w.redis).0 w) in
        send d c k Notice.nobody_found (refund_search k Reason.search_timeout_refund out)
