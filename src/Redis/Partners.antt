-- ===== src/Redis/Partners.antt =====
-- The pairs of the running 1:1 chats and what goes with a chat (redis_client.py): the partner,
-- the start, who has paid, the number of messages, the session.
pub mod Pairing
pub mod Searching
use bluechat.Base.{
  ℕ, ◌+◌, Bool, true, false, Option, none, some, ltb, ◌==◌, if◌then◌else◌, is_some, min,
}
use Prim.Native.Nat.{max}
use bluechat.Redis.Stores.{Keyspace}
use bluechat.Redis.Keys.{Redis, Store}

module _ (c : Redis) where
  abbrev pub get_partner : ℕ → Store c → Option ℕ
  get_partner k s = c.partner.get k s.partner

  abbrev pub is_chat_payer : ℕ → Store c → Bool
  is_chat_payer k s = is_some (c.chat_payer.get k s.chat_payer)

  abbrev pub get_chat_start : ℕ → Store c → Option ℕ
  get_chat_start k s = c.chat_start.get k s.chat_start

  abbrev pub get_session_id : ℕ → Store c → Option ℕ
  get_session_id k s = c.session_id.get k s.session_id

  -- The two users are each other's partner, and the chat starts now.
  unfoldable pub set_partner : ℕ → ℕ → ℕ → Store c → Store c
  set_partner a b now s = record s {
    partner = c.partner.set b a (c.partner.set a b s.partner);
    chat_start = c.chat_start.set b now (c.chat_start.set a now s.chat_start);
  }

  unfoldable pub set_chat_payer : ℕ → Store c → Store c
  set_chat_payer k s = record s { chat_payer = c.chat_payer.set k true s.chat_payer }

  unfoldable pub clear_chat_payer : ℕ → Store c → Store c
  clear_chat_payer k s = record s { chat_payer = c.chat_payer.del k s.chat_payer }

  -- The counter of a pair stands under the smaller id, then the larger (`pair_key`).
  pub get_chat_msg_count : ℕ → ℕ → Store c → ℕ
  get_chat_msg_count a b s = elim (c.chat_msg_count.get (max a b) (s.chat_msg_count (min a b))) [
    | none ↦ 0
    | some n ↦ n
  ]

  pub increment_chat_msg_count : ℕ → ℕ → Store c → Store c
  unfolding get_chat_msg_count
  increment_chat_msg_count a b s = record s {
    chat_msg_count = λ lo.
        if lo == min a b
        then c.chat_msg_count.set (max a b) (get_chat_msg_count a b s + 1) (s.chat_msg_count lo)
        else s.chat_msg_count lo;
  }

  unfoldable pub drop_chat : ℕ → ℕ → Store c → Store c
  drop_chat k p s = record s {
    partner = c.partner.del p (c.partner.del k s.partner);
    secure_chat = c.secure_chat.del k s.secure_chat;
    chat_start = c.chat_start.del p (c.chat_start.del k s.chat_start);
    chat_payer = c.chat_payer.del p (c.chat_payer.del k s.chat_payer);
    chat_msg_count = λ lo.
        if lo == min k p
        then c.chat_msg_count.del (max k p) (s.chat_msg_count lo)
        else s.chat_msg_count lo;
  }

  -- The user's own key is deleted in any case, the rest of the chat if there was one.
  unfoldable pub clear_partner : ℕ → Store c → Store c × Option ℕ
  unfolding drop_chat
  clear_partner k s = elim (get_partner k s) [
    | none ↦ (record s { partner = c.partner.del k s.partner }, none)
    | some p ↦ (drop_chat k p s, some p)
  ]

  unfoldable pub set_session_id : ℕ → ℕ → ℕ → Store c → Store c
  set_session_id a b session s = record s {
    session_id = c.session_id.set b session (c.session_id.set a session s.session_id);
  }

  unfoldable pub clear_session_id : ℕ → Store c → Store c
  clear_session_id k s = record s { session_id = c.session_id.del k s.session_id }

  unfoldable pub set_queue_pin_message : ℕ → ℕ → Store c → Store c
  set_queue_pin_message k message s = record s { queue_pin = c.queue_pin.set k message s.queue_pin }

  unfoldable pub pop_queue_pin_message : ℕ → Store c → Store c
  pop_queue_pin_message k s = record s { queue_pin = c.queue_pin.del k s.queue_pin }
