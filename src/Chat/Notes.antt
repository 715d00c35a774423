-- ===== src/Chat/Notes.antt =====
-- The handlers of anonymous notes and direct messages (handlers/anon_note.py) over the database,
-- the keys of the notes and what was sent. Whether Telegram copies a message is an argument.
pub mod Events
pub mod Blocked
pub mod Answers
use bluechat.Base.{ℕ, Bool, true, false, Option, none, some, List, [], ◌∷◌, if◌then◌else◌}
use bluechat.Db.Models.{Database, State, Reason}
use bluechat.Db.Users.{is_sender_blocked, block_sender}
use bluechat.Db.Coins.{deduct_coins}
use bluechat.Redis.Notes.{
  NoteMessage, NoteCache, NoteStore, direct_msg_coin_cost, create_note, get_note_sender,
  store_note_message, get_note_message, set_awaiting_reply, clear_awaiting_reply,
  pop_awaiting_reply,
}

-- The number in a letter is the id of the note that its button names.
pub data Letter : Type 0 where
  sender_is_blocked delivered coins_missing note_gone copy_gone seen : Letter
  write_reply reply_cancelled blocked reply_sent reply_failed : Letter
  note_waits direct_waits : ℕ → Letter
  copy reply : NoteMessage → ℕ → Letter

-- `author` is the user who has written to another; the bot's own notices have none.
pub record Delivery : Type 0 where
  pub receiver : ℕ
  pub author : Option ℕ
  pub letter : Letter

pub record Desk (d : Database) (n : NoteCache) : Type 0 where
  pub db : State d
  pub notes : NoteStore n
  pub sent : List Delivery

module _ (d : Database) (n : NoteCache) where
  abbrev pub tell : ℕ → Letter → Desk d n → Desk d n
  tell k l w = record w { sent = record { receiver = k; author = none; letter = l } ∷ w.sent }

  -- The end of `send_anon_note` and of `send_direct_msg`: the note is stored and announced.
  unfoldable pub announce : ℕ → ℕ → ℕ → NoteMessage → Letter → Desk d n → Desk d n
  announce owner sender id m l w = record w {
    notes = store_note_message n id m (create_note n id sender w.notes);
    sent =
        record { receiver = owner; author = some sender; letter = l }
        ∷ record { receiver = sender; author = none; letter = Letter.delivered }
        ∷ w.sent;
  }

  unfoldable pub send_anon_note : ℕ → ℕ → ℕ → NoteMessage → Desk d n → Desk d n
  unfolding announce
  send_anon_note owner sender id m w =
      if is_sender_blocked d owner sender w.db
      then tell sender Letter.sender_is_blocked w
      else announce owner sender id m (Letter.note_waits id) w

  -- `send_direct_msg` behind the payment.
  unfoldable pub after_charge : ℕ → ℕ → ℕ → NoteMessage → Desk d n → State d × Option ℕ → Desk d n
  unfolding announce
  after_charge owner sender id m w (paid, none) =
      tell sender Letter.coins_missing (record w { db = paid })
  after_charge owner sender id m w (paid, some left) =
      announce owner sender id m (Letter.direct_waits id) (record w { db = paid })

  unfoldable pub send_direct_msg : ℕ → ℕ → ℕ → NoteMessage → Desk d n → Desk d n
  unfolding after_charge
  send_direct_msg owner sender id m w =
      if is_sender_blocked d owner sender w.db
      then tell sender Letter.sender_is_blocked w
      else after_charge owner sender id m w
          (deduct_coins d sender direct_msg_coin_cost Reason.direct_msg_cost w.db)

  unfoldable pub handle_view_note : ℕ → ℕ → Bool → Desk d n → Desk d n
  handle_view_note owner id copied w = elim (get_note_sender n id w.notes) [
    | none ↦ tell owner Letter.note_gone w
    | some sender ↦ elim (get_note_message n id w.notes) [
      | none ↦ tell owner Letter.note_gone w
      | some m ↦
          if copied
          then tell sender Letter.seen (tell owner (Letter.copy m id) w)
          else tell owner Letter.copy_gone w
    ]
  ]

  unfoldable pub handle_reply_button : ℕ → ℕ → Desk d n → Desk d n
  handle_reply_button owner id w = elim (get_note_sender n id w.notes) [
    | none ↦ tell owner Letter.note_gone w
    | some sender ↦
        if is_sender_blocked d sender owner w.db
        then tell owner Letter.sender_is_blocked w
        else tell owner Letter.write_reply
            (record w { notes = set_awaiting_reply n owner id w.notes })
  ]

  unfoldable pub handle_cancel_reply_button : ℕ → Desk d n → Desk d n
  handle_cancel_reply_button owner w =
      tell owner Letter.reply_cancelled (record w { notes = clear_awaiting_reply n owner w.notes })

  unfoldable pub handle_block_button : ℕ → ℕ → Desk d n → Desk d n
  handle_block_button owner sender w =
      tell owner Letter.blocked (record w { db = block_sender d owner sender w.db })

  -- The reply becomes a note of its own, which the receiver may answer in turn.
  unfoldable pub send_reply : ℕ → ℕ → ℕ → NoteMessage → Bool → Desk d n → Desk d n
  send_reply owner sender id m copied w =
      let made : Desk d n = record w { notes = create_note n id owner w.notes } in
      if copied
      then tell owner Letter.reply_sent (record made {
        sent =
            record { receiver = sender; author = some owner; letter = Letter.reply m id }
            ∷ made.sent;
      })
      else tell owner Letter.reply_failed made

  -- The answer to a note; `id` is the id of the new note.
  unfoldable pub answer_note : ℕ → ℕ → ℕ → NoteMessage → Bool → Desk d n → Desk d n
  unfolding send_reply
  answer_note owner note id m copied w = elim (get_note_sender n note w.notes) [
    | none ↦ tell owner Letter.note_gone w
    | some sender ↦
        if is_sender_blocked d sender owner w.db
        then tell owner Letter.sender_is_blocked w
        else send_reply owner sender id m copied w
  ]

  -- `handle_pending_reply_input` by what the pop yields: whether the message is taken as an answer.
  unfoldable pub after_pop :
      ℕ → ℕ → NoteMessage → Bool → Desk d n → NoteStore n × Option ℕ → Desk d n × Bool
  unfolding answer_note
  after_pop owner id m copied w (popped, none) = (record w { notes = popped }, false)
  after_pop owner id m copied w (popped, some note) =
      (answer_note owner note id m copied (record w { notes = popped }), true)

  unfoldable pub handle_pending_reply_input :
      ℕ → ℕ → NoteMessage → Bool → Desk d n → Desk d n × Bool
  unfolding after_pop
  handle_pending_reply_input owner id m copied w =
      after_pop owner id m copied w (pop_awaiting_reply n owner w.notes)
