-- ===== src/Chat/Untouched/Endings.antt =====
-- The ends of a 1:1 chat, and every history of its handlers, leave the rest of Redis alone.
use bluechat.Base.{
  ℕ, refl, ◌∙◌, inl, inr, Bool, true, false, Option, none, some, Option-cases, Bool-cases,
}
use bluechat.Db.Models.{Database, RoomGenderPref, Reason}
use bluechat.Redis.Keys.{Redis}
use bluechat.Redis.Queue.{is_waiting, leave_queue, dequeue}
use bluechat.Redis.Partners.{
  get_partner, clear_partner, pop_queue_pin_message, clear_chat_payer, clear_session_id,
  is_chat_payer, get_session_id,
}
use bluechat.Redis.Untouched.{elsewhere-clear_partner}
use bluechat.Chat.World.{World, desired_of, with_redis}
use bluechat.Chat.Matching.{unpin_queue_message, refund_search, queue_timeout_job, saved_pref}
use bluechat.Chat.Session.{
  end_chat, end_session, end_session_record, stop_chat, next_chat, search_again,
  close_active_1to1_chat,
}
use bluechat.Chat.History.{Event, handle}
use bluechat.Chat.Untouched.{
  Untouched, pay_and_match-Untouched, start_chat-Untouched,
  handle_desired_gender_callback-Untouched,
}

module _ (d : Database) (c : Redis) where
  refund_search-Untouched :
      (k : ℕ) (reason : Reason) (w : World d c) → Untouched d c w (refund_search d c k reason w)
  unfolding refund_search clear_chat_payer
  refund_search-Untouched k reason w = elim (Bool-cases (is_chat_payer c k w.redis)) [
    | inl paid ↦ rw (paid, refund_search) refl
    | inr free ↦ rw (free, refund_search) refl
  ]

  leave_and_refund-Untouched :
      (k : ℕ) (reason : Reason) (w : World d c)
      → Untouched d c w (
          refund_search d c k reason
            (unpin_queue_message d c k (with_redis d c (dequeue c k w.redis).0 w)))
  unfolding unpin_queue_message dequeue leave_queue pop_queue_pin_message
  leave_and_refund-Untouched k reason w =
      refund_search-Untouched k reason
        (unpin_queue_message d c k (with_redis d c (dequeue c k w.redis).0 w))

  queue_timeout_job-Untouched :
      (k : ℕ) (w : World d c) → Untouched d c w (queue_timeout_job d c k w)
  unfolding queue_timeout_job
  queue_timeout_job-Untouched k w = elim (Bool-cases (is_waiting c k w.redis)) [
    | inl there ↦
        rw (there, queue_timeout_job) (leave_and_refund-Untouched k Reason.search_timeout_refund w)
    | inr gone ↦ rw (gone, queue_timeout_job) refl
  ]

  end_session-Untouched :
      (reopen : Bool) (a b ended_by : ℕ) (w : World d c)
      → Untouched d c w (end_session d c reopen a b ended_by w).0
  unfolding end_session clear_session_id
  end_session-Untouched reopen a b ended_by w = elim (Option-cases (get_session_id c a w.redis)) [
    | inl e ↦ rw (e, end_session) refl
    | inr (id, e) ↦ rw (e, end_session) refl
  ]

  end_chat-Untouched :
      (told : Bool) (k : ℕ) (w : World d c) → Untouched d c w (end_chat d c told k w).0
  unfolding end_chat end_session_record
  end_chat-Untouched told k w = elim (Option-cases (get_partner c k w.redis)) [
    | inl e ↦ rw (e, end_chat) (elsewhere-clear_partner c k w.redis)
    | inr (p, e) ↦
        rw (e, end_chat)
          (end_session-Untouched true k p k (with_redis d c (clear_partner c k w.redis).0 w)
            ∙ elsewhere-clear_partner c k w.redis)
  ]

  stop_chat-Untouched : (k : ℕ) (w : World d c) → Untouched d c w (stop_chat d c k w)
  unfolding stop_chat
  stop_chat-Untouched k w = elim (Bool-cases (is_waiting c k w.redis)) [
    | inl there ↦ rw (there, stop_chat) (leave_and_refund-Untouched k Reason.search_cancel_refund w)
    | inr gone ↦ elim (Option-cases (end_chat d c true k w).1) [
      | inl e ↦ rw (gone, e, stop_chat) (end_chat-Untouched true k w)
      | inr (p, e) ↦ rw (gone, e, stop_chat) (end_chat-Untouched true k w)
    ]
  ]

  close_active_1to1_chat-Untouched :
      (k : ℕ) (w : World d c) → Untouched d c w (close_active_1to1_chat d c k w)
  unfolding close_active_1to1_chat
  close_active_1to1_chat-Untouched k w = elim (Option-cases (get_partner c k w.redis)) [
    | inl e ↦ rw (e, close_active_1to1_chat) (elsewhere-clear_partner c k w.redis)
    | inr (p, e) ↦
        rw (e, close_active_1to1_chat)
          (end_session-Untouched false k p k (with_redis d c (clear_partner c k w.redis).0 w)
            ∙ elsewhere-clear_partner c k w.redis)
  ]

  search_again-Untouched :
      (k : ℕ) (pref : Option RoomGenderPref) (pinned : Option ℕ) (now : ℕ) (w : World d c)
      → Untouched d c w (search_again d c k pref pinned now w)
  unfolding search_again
  search_again-Untouched k none pinned now w = refl
  search_again-Untouched k (some choice) pinned now w =
      pay_and_match-Untouched d c k (desired_of choice) pinned now w

  next_chat-Untouched :
      (k : ℕ) (pinned : Option ℕ) (now : ℕ) (w : World d c)
      → Untouched d c w (next_chat d c k pinned now w)
  unfolding next_chat dequeue leave_queue
  next_chat-Untouched k pinned now w =
      let after : World d c = (end_chat d c false k w).0 in
      let out : World d c = with_redis d c (leave_queue c k after.redis) after in
      search_again-Untouched k (saved_pref d c k out) pinned now out ∙ end_chat-Untouched false k w

  pub handle-Untouched : (e : Event) (w : World d c) → Untouched d c w (handle d c e w)
  unfolding handle
  handle-Untouched (Event.starts k username first_name pinned now) w =
      start_chat-Untouched d c k username first_name pinned now w
  handle-Untouched (Event.chooses k choice pinned now) w =
      handle_desired_gender_callback-Untouched d c k choice pinned now w
  handle-Untouched (Event.times_out k) w = queue_timeout_job-Untouched k w
  handle-Untouched (Event.stops k) w = stop_chat-Untouched k w
  handle-Untouched (Event.goes_next k pinned now) w = next_chat-Untouched k pinned now w
  handle-Untouched (Event.is_expelled k) w = close_active_1to1_chat-Untouched k w
