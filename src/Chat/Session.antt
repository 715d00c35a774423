-- ===== src/Chat/Session.antt =====
-- handlers/chat/session.py: the end of a chat, and `_close_active_1to1_chat` of
-- ban_enforcement.py. What `offer_history_deletion` sends is kept as `history_offer`; its keys and
-- its job are not modelled.
use bluechat.Base.{
  ℕ, ◌+◌, ◌-◌, Bool, true, false, not, Option, none, some, ◌∷◌, ltb, ◌&&◌, if◌then◌else◌, is_some,
}
use bluechat.Db.Models.{Database, State, RoomGenderPref, Reason}
use bluechat.Db.Coins.{refund_coins}
use bluechat.Redis.Keys.{Redis, chat_coin_cost}
use bluechat.Redis.Queue.{is_waiting, dequeue}
use bluechat.Redis.Partners.{
  get_partner, clear_partner, get_session_id, clear_session_id, is_chat_payer, get_chat_msg_count,
  get_chat_start,
}
use bluechat.Chat.World.{World, Notice, desired_of, send, with_redis}
use bluechat.Chat.Matching.{unpin_queue_message, refund_search, pay_and_match, saved_pref}

-- `MIN_CHAT_SECONDS`
abbrev pub min_chat_seconds : ℕ
min_chat_seconds = 10

module _ (d : Database) (c : Redis) where
  -- The session's row gets who ended it. `reopen` tells whether a row that has ended already is
  -- written again.
  unfoldable pub end_row : Bool → ℕ → ℕ → State d → State d
  end_row reopen id ended_by s = elim (d.sessions.get id s.sessions) [
    | none ↦ s
    | some row ↦ if not reopen && is_some row.ended_by then s else record s {
      sessions = d.sessions.put id (record row { ended_by = some ended_by }) s.sessions;
    }
  ]

  -- The session's id is read under the first user and cleared under both.
  unfoldable pub end_session : Bool → ℕ → ℕ → ℕ → World d c → World d c × Option ℕ
  unfolding end_row
  end_session reopen a b ended_by w = elim (get_session_id c a w.redis) [
    | none ↦ (w, none)
    | some id ↦ (
      record w {
        db = end_row reopen id ended_by w.db;
        redis = clear_session_id c b (clear_session_id c a w.redis);
      },
      some id,
    )
  ]

  unfoldable pub end_session_record : ℕ → ℕ → ℕ → World d c → World d c × Option ℕ
  unfolding end_session
  end_session_record a b ended_by w = end_session true a b ended_by w

  unfoldable pub refund_if : Bool → ℕ → State d → State d
  refund_if false k s = s
  refund_if true k s = (refund_coins d k chat_coin_cost Reason.failed_chat_refund s).0

  -- Ends the chat of `k`, if he has one: `stop_chat` behind its queue branch, and the first half
  -- of `next_chat`. Who has paid and the number of messages are read before the keys are cleared.
  -- `told` says whether `k` himself is told of the end, as `stop_chat` does.
  unfoldable pub end_chat : Bool → ℕ → World d c → World d c × Option ℕ
  unfolding end_session_record refund_if
  end_chat told k w = elim (get_partner c k w.redis) [
    | none ↦ (with_redis d c (clear_partner c k w.redis).0 w, none)
    | some p ↦
        let failed : Bool = ltb (get_chat_msg_count c k p w.redis) 3 in
        let k_paid : Bool = is_chat_payer c k w.redis in
        let p_paid : Bool = is_chat_payer c p w.redis in
        let (closed, session) =
          end_session_record k p k (with_redis d c (clear_partner c k w.redis).0 w) in
        let refunded : State d =
          refund_if (failed && p_paid) p (refund_if (failed && k_paid) k closed.db) in
        (
          record closed {
            db = refunded;
            sent =
                (p, Notice.history_offer session)
                ∷ (k, Notice.history_offer session)
                ∷ (p, Notice.ended_by_partner (failed && p_paid))
                ∷ (if told
                    then (k, Notice.ended (failed && k_paid)) ∷ closed.sent
                    else closed.sent);
          },
          some p,
        )
  ]

  unfoldable pub stop_chat : ℕ → World d c → World d c
  unfolding end_chat
  stop_chat k w =
      let out : World d c = unpin_queue_message d c k (with_redis d c (dequeue c k w.redis).0 w) in
      let (after, partner) = end_chat true k w in
      let ended : World d c = elim partner [
        | none ↦ send d c k Notice.not_in_chat after
        | some _ ↦ after
      ] in
      if is_waiting c k w.redis
      then send d c k Notice.left_queue (refund_search d c k Reason.search_cancel_refund out)
      else ended

  -- Unlike `stop_chat`, the queue is left with no refund, and what is pinned or scheduled stays.
  unfoldable pub search_again : ℕ → Option RoomGenderPref → Option ℕ → ℕ → World d c → World d c
  search_again k none pinned now w = send d c k Notice.choose_gender w
  search_again k (some choice) pinned now w = pay_and_match d c k (desired_of choice) pinned now w

  unfoldable pub next_chat : ℕ → Option ℕ → ℕ → World d c → World d c
  unfolding end_chat search_again
  next_chat k pinned now w =
      let after : World d c = (end_chat false k w).0 in
      let out : World d c = with_redis d c (dequeue c k after.redis).0 after in
      search_again k (saved_pref d c k out) pinned now out

  -- The seconds that the user is told to wait before he may end the chat, `none` if he may. The clock
  -- shows whole seconds here, so `int` changes nothing; one more is told.
  unfoldable pub end_chat_button : ℕ → ℕ → World d c → Option ℕ
  end_chat_button k now w = elim (get_chat_start c k w.redis) [
    | none ↦ none
    | some start ↦
        if ltb now (start + min_chat_seconds)
        then some (start + min_chat_seconds - now + 1)
        else none
  ]

  unfoldable pub close_active_1to1_chat : ℕ → World d c → World d c
  unfolding end_session
  close_active_1to1_chat k w = elim (get_partner c k w.redis) [
    | none ↦ with_redis d c (clear_partner c k w.redis).0 w
    | some p ↦
        send d c p Notice.closed_by_ban
          (end_session false k p k (with_redis d c (clear_partner c k w.redis).0 w)).0
  ]
