-- ===== src/Chat/Notes/Blocked.antt =====
-- Notes, direct messages and replies by a sender whom a user has blocked.
use bluechat.Base.{
  ℕ, suc, ◌≡◌, refl, ◌∙◌, inl, inr, Bool, true, false, Option, none, some, List, [], ◌∷◌, ◌==◌,
  ◌&&◌, if◌then◌else◌, arith, ltb, Option-cases, Bool-cases, eq_of_test,
}
use bluechat.Db.Models.{Database, State, Reason}
use bluechat.Db.Users.{get_user, is_sender_blocked, block_sender}
use bluechat.Db.Blocking.{is_sender_blocked-block_sender}
use bluechat.Db.Coins.{book, deduct_coins}
use bluechat.Redis.Notes.{
  NoteMessage, NoteCache, NoteStore, direct_msg_coin_cost, get_note_sender, get_note_message,
  set_awaiting_reply, clear_awaiting_reply, pop_awaiting_reply,
}
use bluechat.Chat.Notes.{
  Letter, Delivery, Desk, tell, announce, send_anon_note, after_charge, send_direct_msg,
  handle_view_note, handle_reply_button, handle_cancel_reply_button, handle_block_button,
  send_reply, answer_note, after_pop, handle_pending_reply_input,
}
use bluechat.Chat.Notes.Events.{NoteEvent, process, process_all}

abbrev is_by : ℕ → Option ℕ → Bool
is_by k none = false
is_by k (some j) = k == j

-- How many announcements and replies of `sender` have gone to `owner`.
unfoldable pub letters : ℕ → ℕ → List Delivery → ℕ
letters owner sender [] = 0
letters owner sender (x ∷ xs) =
    let rest = letters owner sender xs in
    if (owner == x.receiver) && is_by sender x.author then suc rest else rest

module _ (d : Database) (n : NoteCache) where
  module _ (o k : ℕ) where
    -- `k` stays blocked by `o`, and nothing new of his has come to `o`.
    record Silent (w w' : Desk d n) : Type 0 where
      blocked : is_sender_blocked d o k w'.db ≡ true
      letters_same : letters o k w'.sent ≡ letters o k w.sent

    deduct_coins-blocked :
        (i l j amount : ℕ) (reason : Reason) (s : State d)
        → is_sender_blocked d i l (deduct_coins d j amount reason s).0 ≡ is_sender_blocked d i l s
    unfolding deduct_coins book is_sender_blocked
    deduct_coins-blocked i l j amount reason s = elim (Option-cases (get_user d j s)) [
      | inl e ↦ rw (e, deduct_coins) refl
      | inr (u, e) ↦ elim (Bool-cases (ltb u.coins amount)) [
        | inl short ↦ rw (e, short, deduct_coins) refl
        | inr enough ↦ rw (e, enough, deduct_coins) refl
      ]
    ]

    tell-letters :
        (j : ℕ) (l : Letter) (w : Desk d n) → letters o k (tell d n j l w).sent ≡ letters o k w.sent
    unfolding letters
    tell-letters j l w = ground arith

    -- Whoever is not blocked announces a note, so it is not `k` to `o`.
    announce-letters :
        (owner sender id : ℕ) (m : NoteMessage) (l : Letter) (w : Desk d n)
        → is_sender_blocked d o k w.db ≡ true
        → is_sender_blocked d owner sender w.db ≡ false
        → letters o k (announce d n owner sender id m l w).sent ≡ letters o k w.sent
    unfolding announce letters
    announce-letters owner sender id m l w h free =
        ground (arith, h, free, eq_of_test o owner, eq_of_test k sender)

    told-Silent :
        (j : ℕ) (l : Letter) (w w' : Desk d n)
        → is_sender_blocked d o k w'.db ≡ true
        → letters o k w'.sent ≡ letters o k w.sent
        → Silent w (tell d n j l w')
    told-Silent j l w w' h same = record { blocked = h; letters_same = tell-letters j l w' ∙ same }

    send_anon_note-Silent :
        (owner sender id : ℕ) (m : NoteMessage) (w : Desk d n)
        → is_sender_blocked d o k w.db ≡ true
        → Silent w (send_anon_note d n owner sender id m w)
    unfolding send_anon_note
    send_anon_note-Silent owner sender id m w h =
        elim (Bool-cases (is_sender_blocked d owner sender w.db)) [
          | inl stopped ↦ rw stopped (told-Silent sender Letter.sender_is_blocked w w h refl)
          | inr free ↦ rw free (record {
            blocked = h;
            letters_same = announce-letters owner sender id m (Letter.note_waits id) w h free;
          })
        ]

    after_charge-Silent :
        (owner sender id : ℕ) (m : NoteMessage) (w : Desk d n) (answer : State d × Option ℕ)
        → ((i j : ℕ) → is_sender_blocked d i j answer.0 ≡ is_sender_blocked d i j w.db)
        → is_sender_blocked d o k w.db ≡ true
        → is_sender_blocked d owner sender w.db ≡ false
        → Silent w (after_charge d n owner sender id m w answer)
    unfolding after_charge
    after_charge-Silent owner sender id m w (paid, none) same h free =
        told-Silent sender Letter.coins_missing w (record w { db = paid }) (same o k ∙ h) refl
    after_charge-Silent owner sender id m w (paid, some left) same h free = record {
      blocked = same o k ∙ h;
      letters_same =
          announce-letters owner sender id m (Letter.direct_waits id) (record w { db = paid })
            (same o k ∙ h) (same owner sender ∙ free);
    }

    send_direct_msg-Silent :
        (owner sender id : ℕ) (m : NoteMessage) (w : Desk d n)
        → is_sender_blocked d o k w.db ≡ true
        → Silent w (send_direct_msg d n owner sender id m w)
    unfolding send_direct_msg
    send_direct_msg-Silent owner sender id m w h =
        elim (Bool-cases (is_sender_blocked d owner sender w.db)) [
          | inl stopped ↦ rw stopped (told-Silent sender Letter.sender_is_blocked w w h refl)
          | inr free ↦ rw free (
              after_charge-Silent owner sender id m w
                (deduct_coins d sender direct_msg_coin_cost Reason.direct_msg_cost w.db)
                (λ i j.
                  deduct_coins-blocked i j sender direct_msg_coin_cost Reason.direct_msg_cost w.db)
                h free)
        ]

    handle_view_note-Silent :
        (owner id : ℕ) (copied : Bool) (w : Desk d n)
        → is_sender_blocked d o k w.db ≡ true
        → Silent w (handle_view_note d n owner id copied w)
    unfolding handle_view_note
    handle_view_note-Silent owner id copied w h =
        elim (Option-cases (get_note_sender n id w.notes)) [
          | inl unknown ↦
              rw (unknown, handle_view_note) (told-Silent owner Letter.note_gone w w h refl)
          | inr (sender, known) ↦ elim (Option-cases (get_note_message n id w.notes)) [
            | inl lost ↦
                rw (known, lost, handle_view_note) (told-Silent owner Letter.note_gone w w h refl)
            | inr (m, there) ↦ elim (Bool-cases copied) [
              | inr fails ↦
                  rw (known, there, fails, handle_view_note)
                    (told-Silent owner Letter.copy_gone w w h refl)
              | inl goes ↦
                  rw (known, there, goes, handle_view_note)
                    (told-Silent sender Letter.seen w (tell d n owner (Letter.copy m id) w) h
                      (tell-letters owner (Letter.copy m id) w))
            ]
          ]
        ]

    handle_reply_button-Silent :
        (owner id : ℕ) (w : Desk d n)
        → is_sender_blocked d o k w.db ≡ true
        → Silent w (handle_reply_button d n owner id w)
    unfolding handle_reply_button
    handle_reply_button-Silent owner id w h = elim (Option-cases (get_note_sender n id w.notes)) [
      | inl unknown ↦
          rw (unknown, handle_reply_button) (told-Silent owner Letter.note_gone w w h refl)
      | inr (sender, known) ↦ elim (Bool-cases (is_sender_blocked d sender owner w.db)) [
        | inl stopped ↦
            rw (known, stopped, handle_reply_button)
              (told-Silent owner Letter.sender_is_blocked w w h refl)
        | inr free ↦
            rw (known, free, handle_reply_button)
              (told-Silent owner Letter.write_reply w
                (record w { notes = set_awaiting_reply n owner id w.notes }) h refl)
      ]
    ]

    send_reply-Silent :
        (owner sender id : ℕ) (m : NoteMessage) (copied : Bool) (w : Desk d n)
        → is_sender_blocked d o k w.db ≡ true
        → is_sender_blocked d sender owner w.db ≡ false
        → Silent w (send_reply d n owner sender id m copied w)
    unfolding send_reply letters
    send_reply-Silent owner sender id m copied w h free = record {
      blocked = ground (arith, h);
      letters_same = ground (arith, h, free, eq_of_test o sender, eq_of_test k owner);
    }

    answer_note-Silent :
        (owner note id : ℕ) (m : NoteMessage) (copied : Bool) (w : Desk d n)
        → is_sender_blocked d o k w.db ≡ true
        → Silent w (answer_note d n owner note id m copied w)
    unfolding answer_note
    answer_note-Silent owner note id m copied w h =
        elim (Option-cases (get_note_sender n note w.notes)) [
          | inl unknown ↦ rw (unknown, answer_note) (told-Silent owner Letter.note_gone w w h refl)
          | inr (sender, known) ↦ elim (Bool-cases (is_sender_blocked d sender owner w.db)) [
            | inl stopped ↦
                rw (known, stopped, answer_note)
                  (told-Silent owner Letter.sender_is_blocked w w h refl)
            | inr free ↦
                rw (known, free, answer_note) (send_reply-Silent owner sender id m copied w h free)
          ]
        ]

    after_pop-Silent :
        (owner id : ℕ) (m : NoteMessage) (copied : Bool) (w : Desk d n)
        (popped : NoteStore n × Option ℕ)
        → is_sender_blocked d o k w.db ≡ true
        → Silent w (after_pop d n owner id m copied w popped).0
    unfolding after_pop
    after_pop-Silent owner id m copied w (s, none) h = record { blocked = h; letters_same = refl }
    after_pop-Silent owner id m copied w (s, some note) h =
        let answered = answer_note-Silent owner note id m copied (record w { notes = s }) h in
        record { blocked = answered.blocked; letters_same = answered.letters_same }

    process-Silent :
        (e : NoteEvent) (w : Desk d n)
        → is_sender_blocked d o k w.db ≡ true
        → Silent w (process d n e w)
    unfolding process handle_cancel_reply_button handle_block_button handle_pending_reply_input
    process-Silent (NoteEvent.writes owner sender id m) w h =
        send_anon_note-Silent owner sender id m w h
    process-Silent (NoteEvent.messages owner sender id m) w h =
        send_direct_msg-Silent owner sender id m w h
    process-Silent (NoteEvent.views owner id copied) w h =
        handle_view_note-Silent owner id copied w h
    process-Silent (NoteEvent.wants_reply owner id) w h = handle_reply_button-Silent owner id w h
    process-Silent (NoteEvent.gives_up owner) w h =
        told-Silent owner Letter.reply_cancelled w
          (record w { notes = clear_awaiting_reply n owner w.notes }) h refl
    process-Silent (NoteEvent.replies owner id m copied) w h =
        after_pop-Silent owner id m copied w (pop_awaiting_reply n owner w.notes) h
    process-Silent (NoteEvent.blocks owner sender) w h =
        told-Silent owner Letter.blocked w (record w { db = block_sender d owner sender w.db })
          (ground (arith, h, is_sender_blocked-block_sender d o k owner sender w.db)) refl

    -- In every history of notes, direct messages, views, replies and blocks, a sender who is blocked
    -- by a user at its start is so at its end, and no announcement of a note or a direct message of
    -- his and no reply of his goes to that user.
    pub process_all-Silent :
        (es : List NoteEvent) (w : Desk d n)
        → is_sender_blocked d o k w.db ≡ true
        → let w' = process_all d n es w in
          (is_sender_blocked d o k w'.db ≡ true) × (letters o k w'.sent ≡ letters o k w.sent)
    unfolding process_all
    process_all-Silent [] w h = (h, refl)
    process_all-Silent (e ∷ es) w h =
        let one = process-Silent e w h in
        let (kept, same) = process_all-Silent es (process d n e w) one.blocked in
        (kept, same ∙ one.letters_same)
