-- ===== src/Chat/Notes/Answers.antt =====
-- An answer reaches the one who has written the note, and can be answered in turn.
use bluechat.Base.{
  ℕ, ◌≡◌, ap, refl, ◌∙◌, Bool, true, false, none, some, ◌∷◌, ◌==◌, if◌then◌else◌, ==-refl, arith,
}
use bluechat.Db.Models.{Database}
use bluechat.Db.Users.{is_sender_blocked}
use bluechat.Redis.Notes.{
  NoteMessage, NoteCache, NoteStore, create_note, get_note_sender, set_awaiting_reply,
  clear_awaiting_reply, pop_awaiting_reply,
}
use bluechat.Chat.Notes.{
  Letter, Desk, handle_reply_button, send_reply, answer_note, after_pop, handle_pending_reply_input,
}

module _ (d : Database) (n : NoteCache) where
  handle_reply_button-notes :
      (owner note sender : ℕ) (w : Desk d n)
      → get_note_sender n note w.notes ≡ some sender
      → is_sender_blocked d sender owner w.db ≡ false
      → handle_reply_button d n owner note w ≡ record w {
        notes = set_awaiting_reply n owner note w.notes;
        sent = record { receiver = owner; author = none; letter = Letter.write_reply } ∷ w.sent;
      }
  unfolding handle_reply_button
  handle_reply_button-notes owner note sender w known free =
      rw (known, free, handle_reply_button) refl

  pop_awaiting_reply-pending :
      (owner note : ℕ) (s : NoteStore n)
      → n.awaiting_reply.get owner s.awaiting_reply ≡ some note
      → pop_awaiting_reply n owner s ≡ (clear_awaiting_reply n owner s, some note)
  unfolding pop_awaiting_reply
  pop_awaiting_reply-pending owner note s waits = rw (waits, pop_awaiting_reply) refl

  answer_note-known :
      (owner note sender id : ℕ) (m : NoteMessage) (copied : Bool) (w : Desk d n)
      → get_note_sender n note w.notes ≡ some sender
      → is_sender_blocked d sender owner w.db ≡ false
      → answer_note d n owner note id m copied w ≡ send_reply d n owner sender id m copied w
  unfolding answer_note
  answer_note-known owner note sender id m copied w known free = rw (known, free, answer_note) refl

  handle_pending_reply_input-pending :
      (owner note sender id : ℕ) (m : NoteMessage) (copied : Bool) (w : Desk d n)
      → n.awaiting_reply.get owner w.notes.awaiting_reply ≡ some note
      → get_note_sender n note w.notes ≡ some sender
      → is_sender_blocked d sender owner w.db ≡ false
      → handle_pending_reply_input d n owner id m copied w ≡ (
        send_reply d n owner sender id m copied
            (record w { notes = clear_awaiting_reply n owner w.notes }),
        true,
      )
  unfolding handle_pending_reply_input after_pop get_note_sender clear_awaiting_reply
  handle_pending_reply_input-pending owner note sender id m copied w waits known free =
      let popped : Desk d n = record w { notes = clear_awaiting_reply n owner w.notes } in
      ap (after_pop d n owner id m copied w) (pop_awaiting_reply-pending owner note w.notes waits)
      ∙ ap (λ u. (u, true)) (answer_note-known owner note sender id m copied popped known free)

  handle_pending_reply_input-idle :
      (owner id : ℕ) (m : NoteMessage) (copied : Bool) (w : Desk d n)
      → n.awaiting_reply.get owner w.notes.awaiting_reply ≡ none
      → (handle_pending_reply_input d n owner id m copied w).1 ≡ false
  unfolding handle_pending_reply_input after_pop pop_awaiting_reply
  handle_pending_reply_input-idle owner id m copied w idle =
      rw (idle, handle_pending_reply_input, pop_awaiting_reply) refl

  -- The user `sender` has written the note and has not blocked `owner`, who presses the button of a
  -- reply. The next message of `owner`, if Telegram copies it, is taken as the answer: exactly one
  -- message of a user goes out, from `owner` to `sender`, it carries a note of its own that names
  -- `owner` for an answer in turn, all other notes are as before, and a further message of
  -- `owner` is no answer any more.
  pub handle_pending_reply_input-Answered :
      (owner note sender id next : ℕ) (m later : NoteMessage) (w : Desk d n)
      → get_note_sender n note w.notes ≡ some sender
      → is_sender_blocked d sender owner w.db ≡ false
      → let asked = handle_reply_button d n owner note w in
        let (after, taken) = handle_pending_reply_input d n owner id m true asked in
        (taken ≡ true)
        × (after.sent
            ≡ record { receiver = owner; author = none; letter = Letter.reply_sent }
              ∷ record { receiver = sender; author = some owner; letter = Letter.reply m id }
              ∷ record { receiver = owner; author = none; letter = Letter.write_reply }
              ∷ w.sent)
        × ((j : ℕ)
            → get_note_sender n j after.notes
              ≡ (if j == id then some owner else get_note_sender n j w.notes))
        × ((handle_pending_reply_input d n owner next later true after).1 ≡ false)
  unfolding send_reply set_awaiting_reply clear_awaiting_reply create_note get_note_sender
  handle_pending_reply_input-Answered owner note sender id next m later w known free =
      let asked : Desk d n = record w {
        notes = set_awaiting_reply n owner note w.notes;
        sent = record { receiver = owner; author = none; letter = Letter.write_reply } ∷ w.sent;
      } in
      let answered : Desk d n =
        send_reply d n owner sender id m true
          (record asked { notes = clear_awaiting_reply n owner asked.notes }) in
      rw (handle_reply_button-notes owner note sender w known free) (
        rw
          (handle_pending_reply_input-pending owner note sender id m true asked
            (ground (
              arith,
              ==-refl owner,
              n.awaiting_reply.get-set owner owner note w.notes.awaiting_reply,
            ))
            known free)
          (
            refl,
            refl,
            λ j. n.note.get-set j id owner w.notes.note,
            handle_pending_reply_input-idle owner next later true answered (
                ground (
                  arith,
                  ==-refl owner,
                  n.awaiting_reply.get-del owner owner asked.notes.awaiting_reply,
                )),
          ))
