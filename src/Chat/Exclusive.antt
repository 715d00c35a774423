-- ===== src/Chat/Exclusive.antt =====
-- Who is in a room or waits for one, and who has a partner or waits for one.
pub mod Searches
pub mod Endings
pub mod Lobbies
pub mod Fillings
pub mod Rooms
pub mod Jobs
pub mod Requests
pub mod Filters
pub mod Histories
use bluechat.Base.{
  ℕ, ◌≡◌, refl, ◌∙◌, inl, inr, Bool, true, false, not, ◌&&◌, ◌||◌, Option, none, some, List, [],
  ◌∷◌, ◌==◌, if◌then◌else◌, is_some, arith, ltb, ◌-◌, ◌+◌, Option-cases, Bool-cases, String,
  eq_of_test, ==-refl, ap,
}
use bluechat.Db.Models.{Database, State, RoomGenderPref, Reason, User}
use bluechat.Db.Users.{
  get_user, save_user, get_or_create_user, refresh_user, new_user, differs, increment_total_chats,
  count_chat,
}
use bluechat.Db.Coins.{deduct_coins}
use bluechat.Db.Rooms.Effects.{active}
use bluechat.Db.Rooms.Saves.{active-get_or_create_user}
use bluechat.Redis.Keys.{PartnerGender, Redis, Store, chat_coin_cost}
use bluechat.Redis.Queue.{
  user_gender_str, waits_in, is_waiting, match_or_enqueue, atomic_match_or_enqueue,
  candidate_genders,
}
use bluechat.Redis.Queue.Matching.{Matched, match_or_enqueue-Matched}
use bluechat.Redis.Partners.{
  get_partner, set_partner, set_session_id, set_queue_pin_message, pop_queue_pin_message,
  set_chat_payer,
}
use bluechat.Redis.Partners.Pairing.{get_partner-set_partner, is_waiting-set_partner}
use bluechat.Redis.Partners.Searching.{waits_among-is_waiting, get_partner-match_or_enqueue}
use bluechat.Redis.RoomQueue.{is_waiting_room_join}
use bluechat.Redis.Untouched.{Elsewhere, elsewhere}
use bluechat.Chat.World.{World, Notice, send, desired_of, with_redis, with_db}
use bluechat.Chat.Matching.{
  unpin_queue_message, wait_for_partner, begin_chat, after_search, after_payment, try_match,
  pay_and_match, start_chat, handle_desired_gender_callback, check_room_conflict,
  search_unless_in_room, start_by_preference, has_profile, saved_pref,
}
use bluechat.Chat.RoomJobs.Mirrored.{active-deduct_coins}
use bluechat.Chat.Untouched.{Untouched, pay_and_match-Untouched}

module _ (d : Database) (c : Redis) where
  -- He has a partner or waits for one.
  abbrev pub engaged : ℕ → Store c → Bool
  engaged k s = is_some (get_partner c k s) || is_waiting c k s

  -- He is in a room or waits for one.
  abbrev pub held : ℕ → State d → Store c → Bool
  held k s r = is_some (active d k s) || is_some (is_waiting_room_join c k r)

  abbrev pub Exclusive : State d → Store c → Type 0
  Exclusive s r = (k : ℕ) → (held k s r && engaged k r) ≡ false

  -- Nobody but a newcomer is engaged who was not, and nobody moves to a room or out of one.
  pub record Joins (newcomer : ℕ → Bool) (w w' : World d c) : Type 0 where
    pub rooms : (j : ℕ) → active d j w'.db ≡ active d j w.db
    pub others :
        (j : ℕ) → newcomer j ≡ false → (engaged j w'.redis && not (engaged j w.redis)) ≡ false

  pub quiet-Joins :
      (newcomer : ℕ → Bool) (w w' : World d c)
      → ((j : ℕ) → active d j w'.db ≡ active d j w.db)
      → ((j : ℕ) → engaged j w'.redis ≡ engaged j w.redis)
      → Joins newcomer w w'
  quiet-Joins newcomer w w' rooms same = record {
    rooms = rooms;
    others = λ j other. ground (arith, same j);
  }

  pub then-Joins :
      (newcomer : ℕ → Bool) (w w1 w2 : World d c)
      → Joins newcomer w w1
      → Joins newcomer w1 w2
      → Joins newcomer w w2
  then-Joins newcomer w w1 w2 a b = record {
    rooms = λ j. b.rooms j ∙ a.rooms j;
    others = λ j other. ground (arith, a.others j other, b.others j other);
  }

  pub active-increment_total_chats :
      (j : ℕ) (ks : List ℕ) (s : State d) → active d j (increment_total_chats d ks s) ≡ active d j s
  unfolding increment_total_chats count_chat
  active-increment_total_chats j [] s = refl
  active-increment_total_chats j (k ∷ ks) s = elim (Option-cases (get_user d k s)) [
    | inl e ↦ rw (e, count_chat) (active-increment_total_chats j ks s)
    | inr (u, e) ↦
        rw (e, count_chat)
          (active-increment_total_chats j ks
              (save_user d k (record u { total_chats = u.total_chats + 1 }) s)
            ∙ ground (
              arith,
              e,
              eq_of_test j k,
              d.users.get-put j k (record u { total_chats = u.total_chats + 1 }) s.users,
            ))
  ]

  pub active-begin_chat :
      (j k p now : ℕ) (w : World d c) → active d j (begin_chat d c k p now w).db ≡ active d j w.db
  unfolding begin_chat unpin_queue_message
  active-begin_chat j k p now w = active-increment_total_chats j (k ∷ p ∷ []) _

  pub engaged-begin_chat :
      (j k p now : ℕ) (w : World d c)
      → engaged j (begin_chat d c k p now w).redis ≡ ((j == k) || (j == p) || engaged j w.redis)
  unfolding begin_chat unpin_queue_message set_session_id pop_queue_pin_message is_waiting waits_in
  engaged-begin_chat j k p now w =
      let s : Store c = pop_queue_pin_message c p (pop_queue_pin_message c k w.redis) in
      ground (arith, get_partner-set_partner c j k p now s, is_waiting-set_partner c j k p now s)

  pub check_room_conflict-held :
      (k : ℕ) (w : World d c) → is_some (check_room_conflict d c k w) ≡ held k w.db w.redis
  unfolding check_room_conflict
  check_room_conflict-held k w = elim (Option-cases (get_user d k w.db)) [
    | inl e ↦ rw (e, check_room_conflict) (ground arith)
    | inr (u, e) ↦ rw (e, check_room_conflict) (ground arith)
  ]

  is_waiting_room_join-elsewhere :
      (k : ℕ) (s s' : Store c)
      → elsewhere c s' ≡ elsewhere c s
      → is_waiting_room_join c k s' ≡ is_waiting_room_join c k s
  unfolding is_waiting_room_join
  is_waiting_room_join-elsewhere k s s' same =
      let male = ap (λ (e : Elsewhere c). e.joining_male) same in
      let female = ap (λ (e : Elsewhere c). e.joining_female) same in
      let any = ap (λ (e : Elsewhere c). e.joining_any) same in rw (male, female, any) refl

  -- Newcomers who are not held, with the rest of Redis as it was.
  pub Joins-Exclusive :
      (newcomer : ℕ → Bool) (w w' : World d c)
      → Joins newcomer w w'
      → Untouched d c w w'
      → ((j : ℕ) → newcomer j ≡ true → held j w.db w.redis ≡ false)
      → Exclusive w.db w.redis
      → Exclusive w'.db w'.redis
  Joins-Exclusive newcomer w w' joins untouched free v k = elim (Bool-cases (newcomer k)) [
    | inl new ↦ ground (
      arith,
      free k new,
      joins.rooms k,
      is_waiting_room_join-elsewhere k w.redis w'.redis untouched,
    )
    | inr old ↦ ground (
      arith,
      v k,
      joins.others k old,
      joins.rooms k,
      is_waiting_room_join-elsewhere k w.redis w'.redis untouched,
    )
  ]
