-- ===== src/Chat/Exclusive/Endings.antt =====
-- The ends of a search and of a 1:1 chat engage nobody.
use bluechat.Base.{
  ℕ, ◌≡◌, refl, ◌∙◌, inl, inr, Bool, true, false, not, ◌&&◌, is_some, arith, Option-cases,
  Bool-cases,
}
use bluechat.Db.Models.{Database, State, Reason}
use bluechat.Db.Rooms.Effects.{active}
use bluechat.Redis.Keys.{Redis, Store, chat_coin_cost}
use bluechat.Redis.Queue.{waits_in, is_waiting, leave_queue, dequeue}
use bluechat.Redis.Queue.Matching.{is_waiting-leave_queue}
use bluechat.Redis.Partners.{
  get_partner, clear_partner, drop_chat, pop_queue_pin_message, clear_chat_payer, clear_session_id,
  is_chat_payer, get_session_id,
}
use bluechat.Redis.Partners.Pairing.{is_waiting-clear_partner}
use bluechat.Chat.World.{World, with_redis}
use bluechat.Chat.Matching.{unpin_queue_message, refund_search, queue_timeout_job}
use bluechat.Chat.Session.{
  end_row, refund_if, end_chat, end_session, end_session_record, stop_chat, close_active_1to1_chat,
}
use bluechat.Chat.Filling.Kept.{active-refund_coins}
use bluechat.Chat.Exclusive.{Joins, quiet-Joins, then-Joins}

abbrev nobody : ℕ → Bool
nobody j = false

module _ (d : Database) (c : Redis) where
  refund_search-Joins :
      (k : ℕ) (reason : Reason) (w : World d c) → Joins d c nobody w (refund_search d c k reason w)
  unfolding refund_search clear_chat_payer is_waiting waits_in
  refund_search-Joins k reason w = elim (Bool-cases (is_chat_payer c k w.redis)) [
    | inl paid ↦
        rw (paid, refund_search)
          (quiet-Joins d c nobody w _ (λ j. active-refund_coins d c j k chat_coin_cost reason w.db)
            (λ j. refl))
    | inr free ↦ rw (free, refund_search) (quiet-Joins d c nobody w w (λ j. refl) (λ j. refl))
  ]

  leave-Joins :
      (k : ℕ) (w : World d c)
      → Joins d c nobody w (unpin_queue_message d c k (with_redis d c (dequeue c k w.redis).0 w))
  unfolding unpin_queue_message dequeue pop_queue_pin_message leave_queue is_waiting waits_in
  leave-Joins k w = record {
    rooms = λ j. refl;
    others = λ j other. ground (arith, is_waiting-leave_queue c j k w.redis);
  }

  leave_and_refund-Joins :
      (k : ℕ) (reason : Reason) (w : World d c)
      → Joins d c nobody w (
          refund_search d c k reason
            (unpin_queue_message d c k (with_redis d c (dequeue c k w.redis).0 w)))
  leave_and_refund-Joins k reason w =
      let out : World d c = unpin_queue_message d c k (with_redis d c (dequeue c k w.redis).0 w) in
      then-Joins d c nobody w out (refund_search d c k reason out) (leave-Joins k w)
        (refund_search-Joins k reason out)

  pub queue_timeout_job-Joins :
      (k : ℕ) (w : World d c) → Joins d c nobody w (queue_timeout_job d c k w)
  unfolding queue_timeout_job
  queue_timeout_job-Joins k w = elim (Bool-cases (is_waiting c k w.redis)) [
    | inl there ↦
        let left = leave_and_refund-Joins k Reason.search_timeout_refund w in
        rw (there, queue_timeout_job) (record { rooms = left.rooms; others = left.others })
    | inr gone ↦ rw (gone, queue_timeout_job) (quiet-Joins d c nobody w w (λ j. refl) (λ j. refl))
  ]

  active-end_row :
      (j : ℕ) (reopen : Bool) (id ended_by : ℕ) (s : State d)
      → active d j (end_row d c reopen id ended_by s) ≡ active d j s
  unfolding end_row
  active-end_row j reopen id ended_by s = elim (Option-cases (d.sessions.get id s.sessions)) [
    | inl e ↦ rw (e, end_row) refl
    | inr (row, e) ↦ elim (Bool-cases (not reopen && is_some row.ended_by)) [
      | inl skip ↦ rw (e, skip, end_row) refl
      | inr write ↦ rw (e, write, end_row) refl
    ]
  ]

  end_session-Joins :
      (reopen : Bool) (a b ended_by : ℕ) (w : World d c)
      → Joins d c nobody w (end_session d c reopen a b ended_by w).0
  unfolding end_session clear_session_id is_waiting waits_in
  end_session-Joins reopen a b ended_by w = elim (Option-cases (get_session_id c a w.redis)) [
    | inl e ↦ rw (e, end_session) (quiet-Joins d c nobody w w (λ j. refl) (λ j. refl))
    | inr (id, e) ↦
        rw (e, end_session)
          (quiet-Joins d c nobody w _ (λ j. active-end_row j reopen id ended_by w.db) (λ j. refl))
  ]

  partner_only_cleared :
      (j k : ℕ) (s : Store c)
      → (is_some (get_partner c j (clear_partner c k s).0) && not (is_some (get_partner c j s)))
        ≡ false
  unfolding clear_partner drop_chat
  partner_only_cleared j k s = elim (Option-cases (get_partner c k s)) [
    | inl e ↦ rw (e, clear_partner) (ground (arith, c.partner.get-del j k s.partner))
    | inr (p, e) ↦
        rw (e, clear_partner)
          (ground (
            arith,
            c.partner.get-del j p (c.partner.del k s.partner),
            c.partner.get-del j k s.partner,
          ))
  ]

  clear_partner-Joins :
      (k : ℕ) (w : World d c) → Joins d c nobody w (with_redis d c (clear_partner c k w.redis).0 w)
  clear_partner-Joins k w = record {
    rooms = λ j. refl;
    others = λ j other.
        ground (arith, partner_only_cleared j k w.redis, is_waiting-clear_partner c j k w.redis);
  }

  active-refund_if :
      (j : ℕ) (yes : Bool) (k : ℕ) (s : State d) → active d j (refund_if d c yes k s) ≡ active d j s
  unfolding refund_if
  active-refund_if j false k s = refl
  active-refund_if j true k s =
      active-refund_coins d c j k chat_coin_cost Reason.failed_chat_refund s

  close-Joins :
      (reopen : Bool) (a b ended_by : ℕ) (w : World d c)
      → Joins d c nobody w
          (end_session d c reopen a b ended_by (with_redis d c (clear_partner c a w.redis).0 w)).0
  close-Joins reopen a b ended_by w =
      let cleared : World d c = with_redis d c (clear_partner c a w.redis).0 w in
      then-Joins d c nobody w cleared (end_session d c reopen a b ended_by cleared).0
        (clear_partner-Joins a w) (end_session-Joins reopen a b ended_by cleared)

  pub end_chat-Joins :
      (told : Bool) (k : ℕ) (w : World d c) → Joins d c nobody w (end_chat d c told k w).0
  unfolding end_chat end_session_record
  end_chat-Joins told k w = elim (Option-cases (get_partner c k w.redis)) [
    | inl e ↦ rw (e, end_chat) (clear_partner-Joins k w)
    | inr (p, e) ↦
        let closed = close-Joins true k p k w in
        rw (e, end_chat)
          (record {
            rooms = λ j. active-refund_if j _ p _ ∙ (active-refund_if j _ k _ ∙ closed.rooms j);
            others = closed.others;
          })
  ]

  pub stop_chat-Joins : (k : ℕ) (w : World d c) → Joins d c nobody w (stop_chat d c k w)
  unfolding stop_chat
  stop_chat-Joins k w = elim (Bool-cases (is_waiting c k w.redis)) [
    | inl there ↦
        let left = leave_and_refund-Joins k Reason.search_cancel_refund w in
        rw (there, stop_chat) (record { rooms = left.rooms; others = left.others })
    | inr gone ↦
        let ended = end_chat-Joins true k w in
        elim (Option-cases (end_chat d c true k w).1) [
          | inl e ↦ rw (gone, e, stop_chat) (record { rooms = ended.rooms; others = ended.others })
          | inr (p, e) ↦ rw (gone, e, stop_chat) ended
        ]
  ]

  pub close_active_1to1_chat-Joins :
      (k : ℕ) (w : World d c) → Joins d c nobody w (close_active_1to1_chat d c k w)
  unfolding close_active_1to1_chat
  close_active_1to1_chat-Joins k w = elim (Option-cases (get_partner c k w.redis)) [
    | inl e ↦ rw (e, close_active_1to1_chat) (clear_partner-Joins k w)
    | inr (p, e) ↦
        let closed = close-Joins false k p k w in
        rw (e, close_active_1to1_chat) (record { rooms = closed.rooms; others = closed.others })
  ]
