-- ===== src/Chat/Untouched.antt =====
-- What the handlers of the 1:1 chat leave alone in Redis: the queue for a room, the mirror of the
-- active rooms and the requests for a chat.
pub mod Endings
use bluechat.Base.{
  ℕ, ◌≡◌, refl, ◌∙◌, inl, inr, Bool, true, false, Option, none, some, is_some, Option-cases,
  Bool-cases, String,
}
use bluechat.Db.Models.{Database, State, RoomGenderPref, Reason}
use bluechat.Db.Users.{get_or_create_user}
use bluechat.Db.Coins.{deduct_coins}
use bluechat.Redis.Keys.{PartnerGender, Redis, Store, chat_coin_cost}
use bluechat.Redis.Queue.{
  user_gender_str, is_waiting, leave_queue, join_queue, dequeue, match_or_enqueue,
  atomic_match_or_enqueue,
}
use bluechat.Redis.Partners.{
  get_partner, set_partner, clear_partner, drop_chat, set_session_id, set_queue_pin_message,
  pop_queue_pin_message, set_chat_payer, clear_chat_payer, clear_session_id, is_chat_payer,
  get_session_id,
}
use bluechat.Redis.Untouched.{
  Elsewhere, elsewhere, elsewhere-match_or_enqueue, elsewhere-clear_partner,
}
use bluechat.Chat.World.{World, desired_of, with_redis, with_db}
use bluechat.Chat.Matching.{
  unpin_queue_message, wait_for_partner, begin_chat, after_search, after_payment, try_match,
  pay_and_match, start_chat, handle_desired_gender_callback, refund_search, queue_timeout_job,
  check_room_conflict, search_unless_in_room, start_by_preference, has_profile, saved_pref,
}
use bluechat.Chat.Session.{
  end_chat, end_session, end_session_record, stop_chat, next_chat, search_again,
  close_active_1to1_chat,
}
use bluechat.Chat.History.{Event, handle, handle_all}

module _ (d : Database) (c : Redis) where
  -- The rest of Redis as it was.
  abbrev pub Untouched : World d c → World d c → Type 0
  Untouched w w' = elsewhere c w'.redis ≡ elsewhere c w.redis

  wait_for_partner-Untouched :
      (k : ℕ) (pinned : Option ℕ) (w : World d c) → Untouched w (wait_for_partner d c k pinned w)
  unfolding wait_for_partner set_queue_pin_message
  wait_for_partner-Untouched k none w = refl
  wait_for_partner-Untouched k (some m) w = refl

  begin_chat-Untouched : (k p now : ℕ) (w : World d c) → Untouched w (begin_chat d c k p now w)
  unfolding begin_chat unpin_queue_message set_session_id set_partner pop_queue_pin_message
  begin_chat-Untouched k p now w = refl

  after_search-Untouched :
      (k : ℕ) (pinned : Option ℕ) (now : ℕ) (w : World d c) (r : Store c) (entered : Bool)
      (found : Option ℕ)
      → elsewhere c r ≡ elsewhere c w.redis
      → Untouched w (after_search d c k pinned now w (r, entered, found)).0
  unfolding after_search
  after_search-Untouched k pinned now w r false found h = h
  after_search-Untouched k pinned now w r true none h =
      wait_for_partner-Untouched k pinned (with_redis d c r w) ∙ h
  after_search-Untouched k pinned now w r true (some p) h =
      begin_chat-Untouched k p now (with_redis d c r w) ∙ h

  search-Untouched :
      (k : ℕ) (own wanted : Option PartnerGender) (pinned : Option ℕ) (now : ℕ) (w : World d c)
      → Untouched w
          (after_search d c k pinned now w (atomic_match_or_enqueue c k own wanted now w.redis)).0
  unfolding atomic_match_or_enqueue
  search-Untouched k none wanted pinned now w =
      after_search-Untouched k pinned now w w.redis false none refl
  search-Untouched k (some own) wanted pinned now w =
      let (r, found) = match_or_enqueue c k own wanted now w.redis in
      after_search-Untouched k pinned now w r true found
        (elsewhere-match_or_enqueue c k own wanted now w.redis)

  pub try_match-Untouched :
      (k : ℕ) (wanted : Option PartnerGender) (pinned : Option ℕ) (now : ℕ) (w : World d c)
      → Untouched w (try_match d c k wanted pinned now w).0
  unfolding try_match
  try_match-Untouched k wanted pinned now w =
      search-Untouched k (user_gender_str d k w.db) wanted pinned now w

  after_payment-Untouched :
      (k : ℕ) (g : PartnerGender) (pinned : Option ℕ) (now : ℕ) (w : World d c)
      (r : State d × Option ℕ)
      → Untouched w (after_payment d c k g pinned now w r)
  unfolding after_payment set_chat_payer
  after_payment-Untouched k g pinned now w (paid, none) = refl
  after_payment-Untouched k g pinned now w (paid, some left) =
      try_match-Untouched k (some g) pinned now _

  pub pay_and_match-Untouched :
      (k : ℕ) (wanted : Option PartnerGender) (pinned : Option ℕ) (now : ℕ) (w : World d c)
      → Untouched w (pay_and_match d c k wanted pinned now w)
  unfolding pay_and_match
  pay_and_match-Untouched k none pinned now w = try_match-Untouched k none pinned now _
  pay_and_match-Untouched k (some g) pinned now w =
      after_payment-Untouched k g pinned now w
        (deduct_coins d k chat_coin_cost Reason.gender_search w.db)

  search_unless_in_room-Untouched :
      (k : ℕ) (choice : RoomGenderPref) (pinned : Option ℕ) (now : ℕ) (w : World d c)
      → Untouched w (search_unless_in_room d c k choice pinned now w)
  unfolding search_unless_in_room
  search_unless_in_room-Untouched k choice pinned now w =
      elim (Option-cases (check_room_conflict d c k w)) [
        | inl clear ↦
            rw (clear, search_unless_in_room)
              (pay_and_match-Untouched k (desired_of choice) pinned now w)
        | inr (notice, conflict) ↦ rw (conflict, search_unless_in_room) refl
      ]

  pub handle_desired_gender_callback-Untouched :
      (k : ℕ) (choice : RoomGenderPref) (pinned : Option ℕ) (now : ℕ) (w : World d c)
      → Untouched w (handle_desired_gender_callback d c k choice pinned now w)
  unfolding handle_desired_gender_callback
  handle_desired_gender_callback-Untouched k choice pinned now w =
      elim (Bool-cases (is_some (get_partner c k w.redis))) [
        | inl busy ↦ rw (busy, handle_desired_gender_callback) refl
        | inr alone ↦ elim (Bool-cases (is_waiting c k w.redis)) [
          | inl queued ↦ rw (alone, queued, handle_desired_gender_callback) refl
          | inr idle ↦
              rw (alone, idle, handle_desired_gender_callback)
                (search_unless_in_room-Untouched k choice pinned now w)
        ]
      ]

  start_by_preference-Untouched :
      (k : ℕ) (pref : Option RoomGenderPref) (pinned : Option ℕ) (now : ℕ) (w : World d c)
      → Untouched w (start_by_preference d c k pref pinned now w)
  unfolding start_by_preference
  start_by_preference-Untouched k none pinned now w = refl
  start_by_preference-Untouched k (some choice) pinned now w =
      search_unless_in_room-Untouched k choice pinned now w

  pub start_chat-Untouched :
      (k : ℕ) (username first_name : Option String) (pinned : Option ℕ) (now : ℕ) (w : World d c)
      → Untouched w (start_chat d c k username first_name pinned now w)
  unfolding start_chat
  start_chat-Untouched k username first_name pinned now w0 =
      let w : World d c = with_db d c (get_or_create_user d k username first_name none w0.db) w0 in
      elim (Bool-cases (has_profile d c k w)) [
        | inr bare ↦ rw (bare, start_chat) refl
        | inl full ↦ elim (Bool-cases (is_some (get_partner c k w.redis))) [
          | inl busy ↦ rw (full, busy, start_chat) refl
          | inr alone ↦ elim (Bool-cases (is_waiting c k w.redis)) [
            | inl queued ↦ rw (full, alone, queued, start_chat) refl
            | inr idle ↦
                rw (full, alone, idle, start_chat)
                  (start_by_preference-Untouched k (saved_pref d c k w) pinned now w)
          ]
        ]
      ]
