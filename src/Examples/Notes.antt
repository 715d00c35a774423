-- ===== src/Examples/Notes.antt =====
-- Notes between users 1, 2 and 3, of whom 2 has blocked 1.
use bluechat.Base.{ℕ, ◌≡◌, refl, true, none, some, List, [], ◌∷◌, ◌==◌, false, if◌then◌else◌}
use bluechat.Db.Users.{is_sender_blocked}
use bluechat.Redis.Notes.{NoteMessage, NoteCache, get_note_sender}
use bluechat.Chat.Notes.{Letter, Desk, handle_reply_button, handle_pending_reply_input}
use bluechat.Chat.Notes.Answers.{handle_pending_reply_input-Answered}
use bluechat.Chat.Notes.Events.{NoteEvent, process_all}
use bluechat.Chat.Notes.Blocked.{letters, process_all-Silent}
use bluechat.Memory.{memory}
use bluechat.Examples.Cache.{keyspace}
use bluechat.Examples.Chats.{evening}

abbrev note_cache : NoteCache
note_cache = record {
  note = keyspace ℕ;
  note_msg = keyspace NoteMessage;
  awaiting_reply = keyspace ℕ;
}

abbrev greeting : NoteMessage
greeting = record { chat_id = 3; message_id = 44 }

-- Note 90 is by 3.
abbrev desk : Desk memory note_cache
desk = record {
  db = record (evening.db) { blocked = (2, 1) ∷ [] };
  notes = record {
    note = λ k. if k == 90 then some 3 else none;
    note_msg = λ k. if k == 90 then some greeting else none;
    awaiting_reply = λ k. none;
  };
  sent = [];
}

handle_pending_reply_input-Answered_example :
    let asked = handle_reply_button memory note_cache 2 90 desk in
    let (after, taken) = handle_pending_reply_input memory note_cache 2 91 greeting true asked in
    (taken ≡ true)
    × (after.sent
        ≡ record { receiver = 2; author = none; letter = Letter.reply_sent }
          ∷ record { receiver = 3; author = some 2; letter = Letter.reply greeting 91 }
          ∷ record { receiver = 2; author = none; letter = Letter.write_reply }
          ∷ [])
    × ((j : ℕ)
        → get_note_sender note_cache j after.notes
          ≡ (if j == 91 then some 2 else get_note_sender note_cache j desk.notes))
    × ((handle_pending_reply_input memory note_cache 2 92 greeting true after).1 ≡ false)
unfolding get_note_sender is_sender_blocked
handle_pending_reply_input-Answered_example =
    handle_pending_reply_input-Answered memory note_cache 2 90 3 91 92 greeting greeting desk refl
      refl

-- 1 tries a note and a direct message to 2, 2 writes to 1, and 1 answers.
abbrev letters_of_a_day : List NoteEvent
letters_of_a_day =
    NoteEvent.writes 2 1 91 greeting
    ∷ NoteEvent.messages 2 1 92 greeting
    ∷ NoteEvent.messages 1 2 93 greeting
    ∷ NoteEvent.views 1 93 true
    ∷ NoteEvent.wants_reply 1 93
    ∷ NoteEvent.replies 1 94 greeting true
    ∷ NoteEvent.blocks 2 3
    ∷ []

process_all-Silent_example :
    let w' = process_all memory note_cache letters_of_a_day desk in
    (is_sender_blocked memory 2 1 w'.db ≡ true) × (letters 2 1 w'.sent ≡ letters 2 1 [])
unfolding is_sender_blocked
process_all-Silent_example = process_all-Silent memory note_cache 2 1 letters_of_a_day desk refl
