-- ===== src/Chat/Pairing.antt =====
-- The pairs and the queue under the searches of the 1:1 chat.
pub mod Endings
use bluechat.Base.{
  ℕ, ◌≡◌, ◌≢◌, refl, ◌∙◌, inl, inr, Bool, true, false, Option, none, some, is_some, arith,
  Option-cases, Bool-cases, String,
}
use bluechat.Db.Models.{Database, State, RoomGenderPref, Reason}
use bluechat.Db.Users.{get_or_create_user}
use bluechat.Db.Coins.{deduct_coins}
use bluechat.Redis.Keys.{PartnerGender, Redis, Store, chat_coin_cost}
use bluechat.Redis.Queue.{
  user_gender_str, waits_in, is_waiting, leave_queue, dequeue, match_or_enqueue,
  atomic_match_or_enqueue,
}
use bluechat.Redis.Queue.Matching.{is_waiting-leave_queue}
use bluechat.Redis.Partners.{
  get_partner, clear_partner, set_session_id, set_queue_pin_message, pop_queue_pin_message,
  set_chat_payer, clear_chat_payer, clear_session_id, is_chat_payer, get_session_id,
}
use bluechat.Redis.Partners.Pairing.{
  Paired, set_partner-Paired, get_partner-clear_partner, clear_partner-Paired,
}
use bluechat.Redis.Partners.Searching.{Searched, leave_queue-Paired, match_or_enqueue-Searched}
use bluechat.Chat.World.{World, desired_of, with_redis, with_db}
use bluechat.Chat.Matching.{
  unpin_queue_message, wait_for_partner, begin_chat, after_search, after_payment, try_match,
  pay_and_match, start_chat, handle_desired_gender_callback, refund_search, queue_timeout_job,
  check_room_conflict, search_unless_in_room, start_by_preference, has_profile, saved_pref,
}
use bluechat.Chat.Session.{
  end_chat, end_session, end_session_record, stop_chat, next_chat, search_again,
  close_active_1to1_chat,
}

module _ (d : Database) (c : Redis) where
  abbrev pub Sound : World d c → Type 0
  Sound w = Paired c w.redis

  -- Nothing holds the user: no partner and no place in the queue.
  abbrev pub Idle : ℕ → World d c → Type 0
  Idle k w = (get_partner c k w.redis ≡ none) × (is_waiting c k w.redis ≡ false)

  wait_for_partner-Sound :
      (k : ℕ) (pinned : Option ℕ) (w : World d c)
      → Sound w
      → Sound (wait_for_partner d c k pinned w)
  unfolding wait_for_partner set_queue_pin_message is_waiting waits_in
  wait_for_partner-Sound k none w v = v
  wait_for_partner-Sound k (some m) w v = v

  begin_chat-Sound :
      (k p now : ℕ) (w : World d c)
      → k ≢ p
      → Idle k w
      → Idle p w
      → Sound w
      → Sound (begin_chat d c k p now w)
  unfolding begin_chat unpin_queue_message set_session_id pop_queue_pin_message is_waiting waits_in
  begin_chat-Sound k p now w ne (ka, ki) (pa, pi) v =
      set_partner-Paired c k p now (pop_queue_pin_message c p (pop_queue_pin_message c k w.redis))
        ne ka pa ki pi v

  after_search-Sound :
      (k : ℕ) (pinned : Option ℕ) (now : ℕ) (w : World d c) (r : Store c) (entered : Bool)
      (found : Option ℕ)
      → Searched c k (r, found)
      → Sound (after_search d c k pinned now w (r, entered, found)).0
  unfolding after_search
  after_search-Sound k pinned now w r false none h = h
  after_search-Sound k pinned now w r false (some p) h = h.0
  after_search-Sound k pinned now w r true none h =
      wait_for_partner-Sound k pinned (with_redis d c r w) h
  after_search-Sound k pinned now w r true (some p) (v, ne, ka, pa, ki, pi) =
      begin_chat-Sound k p now (with_redis d c r w) ne (ka, ki) (pa, pi) v

  search-Sound :
      (k : ℕ) (own wanted : Option PartnerGender) (pinned : Option ℕ) (now : ℕ) (w : World d c)
      → Idle k w
      → Sound w
      → Sound
          (after_search d c k pinned now w (atomic_match_or_enqueue c k own wanted now w.redis)).0
  unfolding atomic_match_or_enqueue
  search-Sound k none wanted pinned now w idle v =
      after_search-Sound k pinned now w w.redis false none v
  search-Sound k (some own) wanted pinned now w idle v =
      let (r, found) = match_or_enqueue c k own wanted now w.redis in
      after_search-Sound k pinned now w r true found
        (match_or_enqueue-Searched c k own wanted now w.redis idle.0 idle.1 v)

  pub try_match-Sound :
      (k : ℕ) (wanted : Option PartnerGender) (pinned : Option ℕ) (now : ℕ) (w : World d c)
      → Idle k w
      → Sound w
      → Sound (try_match d c k wanted pinned now w).0
  unfolding try_match
  try_match-Sound k wanted pinned now w idle v =
      search-Sound k (user_gender_str d k w.db) wanted pinned now w idle v

  after_payment-Sound :
      (k : ℕ) (g : PartnerGender) (pinned : Option ℕ) (now : ℕ) (w : World d c)
      (r : State d × Option ℕ)
      → Idle k w
      → Sound w
      → Sound (after_payment d c k g pinned now w r)
  unfolding after_payment set_chat_payer is_waiting waits_in
  after_payment-Sound k g pinned now w (paid, none) idle v = v
  after_payment-Sound k g pinned now w (paid, some left) idle v =
      try_match-Sound k (some g) pinned now _ idle v

  pub pay_and_match-Sound :
      (k : ℕ) (wanted : Option PartnerGender) (pinned : Option ℕ) (now : ℕ) (w : World d c)
      → Idle k w
      → Sound w
      → Sound (pay_and_match d c k wanted pinned now w)
  unfolding pay_and_match
  pay_and_match-Sound k none pinned now w idle v = try_match-Sound k none pinned now _ idle v
  pay_and_match-Sound k (some g) pinned now w idle v =
      after_payment-Sound k g pinned now w
        (deduct_coins d k chat_coin_cost Reason.gender_search w.db) idle v

  search_unless_in_room-Sound :
      (k : ℕ) (choice : RoomGenderPref) (pinned : Option ℕ) (now : ℕ) (w : World d c)
      → Idle k w
      → Sound w
      → Sound (search_unless_in_room d c k choice pinned now w)
  unfolding search_unless_in_room
  search_unless_in_room-Sound k choice pinned now w idle v =
      elim (Option-cases (check_room_conflict d c k w)) [
        | inl clear ↦
            rw (clear, search_unless_in_room)
              (pay_and_match-Sound k (desired_of choice) pinned now w idle v)
        | inr (notice, conflict) ↦ rw (conflict, search_unless_in_room) v
      ]

  pub handle_desired_gender_callback-Sound :
      (k : ℕ) (choice : RoomGenderPref) (pinned : Option ℕ) (now : ℕ) (w : World d c)
      → Sound w
      → Sound (handle_desired_gender_callback d c k choice pinned now w)
  unfolding handle_desired_gender_callback
  handle_desired_gender_callback-Sound k choice pinned now w v =
      elim (Bool-cases (is_some (get_partner c k w.redis))) [
        | inl busy ↦ rw (busy, handle_desired_gender_callback) v
        | inr alone ↦ elim (Bool-cases (is_waiting c k w.redis)) [
          | inl queued ↦ rw (alone, queued, handle_desired_gender_callback) v
          | inr idle ↦
              rw (alone, idle, handle_desired_gender_callback)
                (search_unless_in_room-Sound k choice pinned now w (ground (arith, alone), idle) v)
        ]
      ]

  start_by_preference-Sound :
      (k : ℕ) (pref : Option RoomGenderPref) (pinned : Option ℕ) (now : ℕ) (w : World d c)
      → Idle k w
      → Sound w
      → Sound (start_by_preference d c k pref pinned now w)
  unfolding start_by_preference
  start_by_preference-Sound k none pinned now w idle v = v
  start_by_preference-Sound k (some choice) pinned now w idle v =
      search_unless_in_room-Sound k choice pinned now w idle v

  pub start_chat-Sound :
      (k : ℕ) (username first_name : Option String) (pinned : Option ℕ) (now : ℕ) (w : World d c)
      → Sound w
      → Sound (start_chat d c k username first_name pinned now w)
  unfolding start_chat
  start_chat-Sound k username first_name pinned now w0 v =
      let w : World d c = with_db d c (get_or_create_user d k username first_name none w0.db) w0 in
      elim (Bool-cases (has_profile d c k w)) [
        | inr bare ↦ rw (bare, start_chat) v
        | inl full ↦ elim (Bool-cases (is_some (get_partner c k w.redis))) [
          | inl busy ↦ rw (full, busy, start_chat) v
          | inr alone ↦ elim (Bool-cases (is_waiting c k w.redis)) [
            | inl queued ↦ rw (full, alone, queued, start_chat) v
            | inr idle ↦
                rw (full, alone, idle, start_chat)
                  (start_by_preference-Sound k (saved_pref d c k w) pinned now w
                    (ground (arith, alone), idle) v)
          ]
        ]
      ]
