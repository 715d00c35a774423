-- ===== src/Chat/Pairing/Endings.antt =====
-- The pairs and the queue when a search or a chat ends.
use bluechat.Base.{
  ℕ, ◌≡◌, refl, ◌∙◌, inl, inr, Bool, true, false, Option, none, some, arith, Option-cases,
  Bool-cases,
}
use bluechat.Db.Models.{Database, RoomGenderPref, Reason}
use bluechat.Redis.Keys.{Redis, Store}
use bluechat.Redis.Queue.{waits_in, is_waiting, leave_queue, dequeue}
use bluechat.Redis.Queue.Matching.{is_waiting-leave_queue}
use bluechat.Redis.Partners.{
  get_partner, clear_partner, pop_queue_pin_message, clear_chat_payer, clear_session_id,
  is_chat_payer, get_session_id,
}
use bluechat.Redis.Partners.Pairing.{get_partner-clear_partner, clear_partner-Paired}
use bluechat.Redis.Partners.Searching.{leave_queue-Paired}
use bluechat.Chat.World.{World, desired_of, with_redis}
use bluechat.Chat.Matching.{unpin_queue_message, refund_search, queue_timeout_job, saved_pref}
use bluechat.Chat.Session.{
  end_chat, end_session, end_session_record, stop_chat, next_chat, search_again,
  close_active_1to1_chat,
}
use bluechat.Chat.Pairing.{Sound, Idle, pay_and_match-Sound}

module _ (d : Database) (c : Redis) where
  -- Out of the queue, a user without a partner is idle.
  leave_queue-idle : (k : ℕ) (s : Store c) → is_waiting c k (leave_queue c k s) ≡ false
  leave_queue-idle k s = ground (arith, is_waiting-leave_queue c k k s)

  refund_search-Sound :
      (k : ℕ) (reason : Reason) (w : World d c)
      → Sound d c w
      → Sound d c (refund_search d c k reason w)
  unfolding refund_search clear_chat_payer is_waiting waits_in
  refund_search-Sound k reason w v = elim (Bool-cases (is_chat_payer c k w.redis)) [
    | inl paid ↦ rw (paid, refund_search) v
    | inr free ↦ rw (free, refund_search) v
  ]

  leave_and_refund-Sound :
      (k : ℕ) (reason : Reason) (w : World d c)
      → Sound d c w
      → Sound d c (
          refund_search d c k reason
            (unpin_queue_message d c k (with_redis d c (dequeue c k w.redis).0 w)))
  unfolding unpin_queue_message dequeue pop_queue_pin_message is_waiting waits_in
  leave_and_refund-Sound k reason w v =
      refund_search-Sound k reason
        (unpin_queue_message d c k (with_redis d c (dequeue c k w.redis).0 w))
        (leave_queue-Paired c k w.redis v)

  pub queue_timeout_job-Sound :
      (k : ℕ) (w : World d c) → Sound d c w → Sound d c (queue_timeout_job d c k w)
  unfolding queue_timeout_job
  queue_timeout_job-Sound k w v = elim (Bool-cases (is_waiting c k w.redis)) [
    | inl there ↦
        rw (there, queue_timeout_job) (leave_and_refund-Sound k Reason.search_timeout_refund w v)
    | inr gone ↦ rw (gone, queue_timeout_job) v
  ]

  end_session-Sound :
      (reopen : Bool) (a b ended_by : ℕ) (w : World d c)
      → Sound d c w
      → Sound d c (end_session d c reopen a b ended_by w).0
  unfolding end_session clear_session_id is_waiting waits_in
  end_session-Sound reopen a b ended_by w v = elim (Option-cases (get_session_id c a w.redis)) [
    | inl e ↦ rw (e, end_session) v
    | inr (id, e) ↦ rw (e, end_session) v
  ]

  end_chat-Sound :
      (told : Bool) (k : ℕ) (w : World d c) → Sound d c w → Sound d c (end_chat d c told k w).0
  unfolding end_chat end_session_record
  end_chat-Sound told k w v = elim (Option-cases (get_partner c k w.redis)) [
    | inl e ↦ rw (e, end_chat) (clear_partner-Paired c k w.redis v)
    | inr (p, e) ↦
        rw (e, end_chat)
          (end_session-Sound true k p k (with_redis d c (clear_partner c k w.redis).0 w)
            (clear_partner-Paired c k w.redis v))
  ]

  pub stop_chat-Sound : (k : ℕ) (w : World d c) → Sound d c w → Sound d c (stop_chat d c k w)
  unfolding stop_chat
  stop_chat-Sound k w v = elim (Bool-cases (is_waiting c k w.redis)) [
    | inl there ↦ rw (there, stop_chat) (leave_and_refund-Sound k Reason.search_cancel_refund w v)
    | inr gone ↦ elim (Option-cases (end_chat d c true k w).1) [
      | inl e ↦ rw (gone, e, stop_chat) (end_chat-Sound true k w v)
      | inr (p, e) ↦ rw (gone, e, stop_chat) (end_chat-Sound true k w v)
    ]
  ]

  pub close_active_1to1_chat-Sound :
      (k : ℕ) (w : World d c) → Sound d c w → Sound d c (close_active_1to1_chat d c k w)
  unfolding close_active_1to1_chat
  close_active_1to1_chat-Sound k w v = elim (Option-cases (get_partner c k w.redis)) [
    | inl e ↦ rw (e, close_active_1to1_chat) (clear_partner-Paired c k w.redis v)
    | inr (p, e) ↦
        rw (e, close_active_1to1_chat)
          (end_session-Sound false k p k (with_redis d c (clear_partner c k w.redis).0 w)
            (clear_partner-Paired c k w.redis v))
  ]

  get_partner-end_session :
      (j : ℕ) (reopen : Bool) (a b ended_by : ℕ) (w : World d c)
      → get_partner c j (end_session d c reopen a b ended_by w).0.redis ≡ get_partner c j w.redis
  unfolding end_session clear_session_id
  get_partner-end_session j reopen a b ended_by w =
      elim (Option-cases (get_session_id c a w.redis)) [
        | inl e ↦ rw (e, end_session) refl
        | inr (id, e) ↦ rw (e, end_session) refl
      ]

  cleared :
      (k : ℕ) (w : World d c) → Sound d c w → get_partner c k (clear_partner c k w.redis).0 ≡ none
  cleared k w v = ground (arith, get_partner-clear_partner c k k w.redis v)

  partner_after_end :
      (told : Bool) (k : ℕ) (w : World d c)
      → Sound d c w
      → get_partner c k (end_chat d c told k w).0.redis ≡ none
  unfolding end_chat end_session_record
  partner_after_end told k w v = elim (Option-cases (get_partner c k w.redis)) [
    | inl e ↦ rw (e, end_chat) (cleared k w v)
    | inr (p, e) ↦
        rw (e, end_chat)
          (get_partner-end_session k true k p k (with_redis d c (clear_partner c k w.redis).0 w)
            ∙ cleared k w v)
  ]

  partner_after_leave :
      (k : ℕ) (w : World d c)
      → get_partner c k w.redis ≡ none
      → get_partner c k (leave_queue c k w.redis) ≡ none
  unfolding leave_queue
  partner_after_leave k w e = e

  search_again-Sound :
      (k : ℕ) (pref : Option RoomGenderPref) (pinned : Option ℕ) (now : ℕ) (w : World d c)
      → Idle d c k w
      → Sound d c w
      → Sound d c (search_again d c k pref pinned now w)
  unfolding search_again
  search_again-Sound k none pinned now w idle v = v
  search_again-Sound k (some choice) pinned now w idle v =
      pay_and_match-Sound d c k (desired_of choice) pinned now w idle v

  pub next_chat-Sound :
      (k : ℕ) (pinned : Option ℕ) (now : ℕ) (w : World d c)
      → Sound d c w
      → Sound d c (next_chat d c k pinned now w)
  unfolding next_chat dequeue
  next_chat-Sound k pinned now w v =
      let after : World d c = (end_chat d c false k w).0 in
      let out : World d c = with_redis d c (leave_queue c k after.redis) after in
      search_again-Sound k (saved_pref d c k out) pinned now out
        (
          partner_after_leave k after (partner_after_end false k w v),
          leave_queue-idle k after.redis,
        )
        (leave_queue-Paired c k after.redis (end_chat-Sound false k w v))
