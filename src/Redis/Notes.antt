-- ===== src/Redis/Notes.antt =====
-- Anonymous notes and direct messages (redis_client.py): who has written a note, which message it
-- is, and who is about to answer which note. The id of a note is drawn at random, here an argument.
use bluechat.Base.{ℕ, Option, none, some}
use bluechat.Redis.Stores.{Keyspace}

-- A message of Telegram by the chat that it stands in and its own id.
pub record NoteMessage : Type 0 where
  pub chat_id : ℕ
  pub message_id : ℕ

pub record NoteCache : Type 1 where
  pub note : Keyspace ℕ
  pub note_msg : Keyspace NoteMessage
  pub awaiting_reply : Keyspace ℕ

pub record NoteStore (n : NoteCache) : Type 0 where
  pub note : n.note.Keys
  pub note_msg : n.note_msg.Keys
  pub awaiting_reply : n.awaiting_reply.Keys

abbrev pub direct_msg_coin_cost : ℕ
direct_msg_coin_cost = 1

module _ (n : NoteCache) where
  unfoldable pub create_note : ℕ → ℕ → NoteStore n → NoteStore n
  create_note id sender s = record s { note = n.note.set id sender s.note }

  unfoldable pub get_note_sender : ℕ → NoteStore n → Option ℕ
  get_note_sender id s = n.note.get id s.note

  unfoldable pub store_note_message : ℕ → NoteMessage → NoteStore n → NoteStore n
  store_note_message id m s = record s { note_msg = n.note_msg.set id m s.note_msg }

  unfoldable pub get_note_message : ℕ → NoteStore n → Option NoteMessage
  get_note_message id s = n.note_msg.get id s.note_msg

  unfoldable pub set_awaiting_reply : ℕ → ℕ → NoteStore n → NoteStore n
  set_awaiting_reply owner id s = record s {
    awaiting_reply = n.awaiting_reply.set owner id s.awaiting_reply;
  }

  unfoldable pub clear_awaiting_reply : ℕ → NoteStore n → NoteStore n
  clear_awaiting_reply owner s = record s {
    awaiting_reply = n.awaiting_reply.del owner s.awaiting_reply;
  }

  unfoldable pub pop_awaiting_reply : ℕ → NoteStore n → NoteStore n × Option ℕ
  unfolding clear_awaiting_reply
  pop_awaiting_reply owner s = elim (n.awaiting_reply.get owner s.awaiting_reply) [
    | none ↦ (s, none)
    | some id ↦ (clear_awaiting_reply owner s, some id)
  ]
