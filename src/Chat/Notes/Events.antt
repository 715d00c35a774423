-- ===== src/Chat/Notes/Events.antt =====
-- Any history of the handlers of notes, each run to its end before the next.
use bluechat.Base.{ℕ, Bool, List, [], ◌∷◌}
use bluechat.Db.Models.{Database}
use bluechat.Redis.Notes.{NoteMessage, NoteCache}
use bluechat.Chat.Notes.{
  Desk, send_anon_note, send_direct_msg, handle_view_note, handle_reply_button,
  handle_cancel_reply_button, handle_block_button, handle_pending_reply_input,
}

-- A note or direct message is written, a note is viewed or about to be answered, a reply is given
-- up or written, a sender is blocked.
pub data NoteEvent : Type 0 where
  writes messages : ℕ → ℕ → ℕ → NoteMessage → NoteEvent
  views : ℕ → ℕ → Bool → NoteEvent
  wants_reply : ℕ → ℕ → NoteEvent
  gives_up : ℕ → NoteEvent
  replies : ℕ → ℕ → NoteMessage → Bool → NoteEvent
  blocks : ℕ → ℕ → NoteEvent

module _ (d : Database) (n : NoteCache) where
  unfoldable pub process : NoteEvent → Desk d n → Desk d n
  process (NoteEvent.writes owner sender id m) w = send_anon_note d n owner sender id m w
  process (NoteEvent.messages owner sender id m) w = send_direct_msg d n owner sender id m w
  process (NoteEvent.views owner id copied) w = handle_view_note d n owner id copied w
  process (NoteEvent.wants_reply owner id) w = handle_reply_button d n owner id w
  process (NoteEvent.gives_up owner) w = handle_cancel_reply_button d n owner w
  process (NoteEvent.replies owner id m copied) w =
      (handle_pending_reply_input d n owner id m copied w).0
  process (NoteEvent.blocks owner sender) w = handle_block_button d n owner sender w

  unfoldable pub process_all : List NoteEvent → Desk d n → Desk d n
  unfolding process
  process_all [] w = w
  process_all (e ∷ es) w = process_all es (process e w)
