-- ===== src/Chat/Exclusive/Searches.antt =====
-- The searches of the 1:1 chat by one who is held by no room.
use bluechat.Base.{
  ℕ, ◌≡◌, refl, inl, inr, true, false, Option, none, some, ◌==◌, is_some, arith, Option-cases,
  Bool-cases, String, eq_of_test,
}
use bluechat.Db.Models.{Database, State, RoomGenderPref, Reason}
use bluechat.Db.Users.{get_or_create_user}
use bluechat.Db.Coins.{deduct_coins}
use bluechat.Db.Rooms.Effects.{active}
use bluechat.Db.Rooms.Saves.{active-get_or_create_user}
use bluechat.Redis.Keys.{PartnerGender, Redis, Store, chat_coin_cost}
use bluechat.Redis.Queue.{
  user_gender_str, waits_in, is_waiting, match_or_enqueue, atomic_match_or_enqueue,
}
use bluechat.Redis.Queue.Matching.{Matched, match_or_enqueue-Matched}
use bluechat.Redis.Partners.{get_partner, set_queue_pin_message, set_chat_payer}
use bluechat.Redis.Partners.Searching.{waits_among-is_waiting, get_partner-match_or_enqueue}
use bluechat.Chat.World.{World, Notice, send, desired_of, with_redis, with_db}
use bluechat.Chat.Matching.{
  wait_for_partner, after_search, after_payment, try_match, pay_and_match, start_chat,
  handle_desired_gender_callback, check_room_conflict, search_unless_in_room, start_by_preference,
  has_profile, saved_pref,
}
use bluechat.Chat.RoomJobs.Mirrored.{active-deduct_coins}
use bluechat.Chat.Untouched.{pay_and_match-Untouched}
use bluechat.Chat.Exclusive.{
  held, Exclusive, Joins, quiet-Joins, then-Joins, active-begin_chat, engaged-begin_chat,
  check_room_conflict-held, Joins-Exclusive,
}

module _ (d : Database) (c : Redis) where
  -- The search of `k`, by what the script answers.
  after_search-Joins :
      (k : ℕ) (own : PartnerGender) (wanted : Option PartnerGender) (pinned : Option ℕ) (now : ℕ)
      (w : World d c) (r : Store c) (found : Option ℕ)
      → Matched c k own wanted w.redis (r, found)
      → ((j : ℕ) → get_partner c j r ≡ get_partner c j w.redis)
      → Joins d c (λ j. j == k) w (after_search d c k pinned now w (r, true, found)).0
  unfolding after_search wait_for_partner set_queue_pin_message is_waiting waits_in
  after_search-Joins k own wanted none now w r none (unfit, waits, wants) same = record {
    rooms = λ j. refl;
    others = λ j other. ground (arith, other, waits j, same j);
  }
  after_search-Joins k own wanted (some m) now w r none (unfit, waits, wants) same = record {
    rooms = λ j. refl;
    others = λ j other. ground (arith, other, waits j, same j);
  }
  after_search-Joins k own wanted pinned now w r (some p) (ne, there, admits, waits, wants) same =
      let here : is_waiting c p w.redis ≡ true = waits_among-is_waiting c wanted p w.redis there in
      record {
        rooms = λ j. active-begin_chat d c j k p now (with_redis d c r w);
        others = λ j other. ground (
          arith,
          other,
          here,
          waits j,
          same j,
          eq_of_test j p,
          engaged-begin_chat d c j k p now (with_redis d c r w),
        );
      }

  search-Joins :
      (k : ℕ) (own wanted : Option PartnerGender) (pinned : Option ℕ) (now : ℕ) (w : World d c)
      → Joins d c
          (λ j. j == k)
          w
          (after_search d c k pinned now w (atomic_match_or_enqueue c k own wanted now w.redis)).0
  unfolding atomic_match_or_enqueue after_search
  search-Joins k none wanted pinned now w =
      quiet-Joins d c (λ j. j == k) w _ (λ j. refl) (λ j. refl)
  search-Joins k (some own) wanted pinned now w =
      let (r, found) = match_or_enqueue c k own wanted now w.redis in
      after_search-Joins k own wanted pinned now w r found
        (match_or_enqueue-Matched c k own wanted now w.redis)
        (λ j. get_partner-match_or_enqueue c k own wanted j now w.redis)

  pub try_match-Joins :
      (k : ℕ) (wanted : Option PartnerGender) (pinned : Option ℕ) (now : ℕ) (w : World d c)
      → Joins d c (λ j. j == k) w (try_match d c k wanted pinned now w).0
  unfolding try_match
  try_match-Joins k wanted pinned now w =
      search-Joins k (user_gender_str d k w.db) wanted pinned now w

  after_payment-Joins :
      (k : ℕ) (g : PartnerGender) (pinned : Option ℕ) (now : ℕ) (w : World d c)
      (r : State d × Option ℕ)
      → ((j : ℕ) → active d j r.0 ≡ active d j w.db)
      → Joins d c (λ j. j == k) w (after_payment d c k g pinned now w r)
  unfolding after_payment set_chat_payer is_waiting waits_in
  after_payment-Joins k g pinned now w (paid, none) same =
      quiet-Joins d c (λ j. j == k) w _ same (λ j. refl)
  after_payment-Joins k g pinned now w (paid, some left) same =
      let marked : World d c =
        send d c k Notice.searching (record w { db = paid; redis = set_chat_payer c k w.redis }) in
      then-Joins d c (λ j. j == k) w marked _
        (quiet-Joins d c (λ j. j == k) w marked same (λ j. refl))
        (try_match-Joins k (some g) pinned now marked)

  pub pay_and_match-Joins :
      (k : ℕ) (wanted : Option PartnerGender) (pinned : Option ℕ) (now : ℕ) (w : World d c)
      → Joins d c (λ j. j == k) w (pay_and_match d c k wanted pinned now w)
  unfolding pay_and_match
  pay_and_match-Joins k none pinned now w =
      let told : World d c = send d c k Notice.searching w in
      then-Joins d c (λ j. j == k) w told _
        (quiet-Joins d c (λ j. j == k) w told (λ j. refl) (λ j. refl))
        (try_match-Joins k none pinned now told)
  pay_and_match-Joins k (some g) pinned now w =
      after_payment-Joins k g pinned now w
        (deduct_coins d k chat_coin_cost Reason.gender_search w.db)
        (λ j. active-deduct_coins d c j k chat_coin_cost Reason.gender_search w.db)

  search_unless_in_room-Exclusive :
      (k : ℕ) (choice : RoomGenderPref) (pinned : Option ℕ) (now : ℕ) (w : World d c)
      → Exclusive d c w.db w.redis
      → let w' = search_unless_in_room d c k choice pinned now w in Exclusive d c w'.db w'.redis
  unfolding search_unless_in_room
  search_unless_in_room-Exclusive k choice pinned now w v =
      elim (Option-cases (check_room_conflict d c k w)) [
        | inr (notice, conflict) ↦ rw (conflict, search_unless_in_room) v
        | inl clear ↦
            let free : held d c k w.db w.redis ≡ false =
              ground (arith, clear, check_room_conflict-held d c k w) in
            rw (clear, search_unless_in_room)
              (Joins-Exclusive d c (λ j. j == k) w _
                (pay_and_match-Joins k (desired_of choice) pinned now w)
                (pay_and_match-Untouched d c k (desired_of choice) pinned now w)
                (λ j new. rw (eq_of_test j k new) free) v)
      ]

  pub handle_desired_gender_callback-Exclusive :
      (k : ℕ) (choice : RoomGenderPref) (pinned : Option ℕ) (now : ℕ) (w : World d c)
      → Exclusive d c w.db w.redis
      → let w' = handle_desired_gender_callback d c k choice pinned now w in
        Exclusive d c w'.db w'.redis
  unfolding handle_desired_gender_callback
  handle_desired_gender_callback-Exclusive k choice pinned now w v =
      elim (Bool-cases (is_some (get_partner c k w.redis))) [
        | inl busy ↦ rw (busy, handle_desired_gender_callback) v
        | inr alone ↦ elim (Bool-cases (is_waiting c k w.redis)) [
          | inl queued ↦ rw (alone, queued, handle_desired_gender_callback) v
          | inr idle ↦
              rw (alone, idle, handle_desired_gender_callback)
                (search_unless_in_room-Exclusive k choice pinned now w v)
        ]
      ]

  start_by_preference-Exclusive :
      (k : ℕ) (pref : Option RoomGenderPref) (pinned : Option ℕ) (now : ℕ) (w : World d c)
      → Exclusive d c w.db w.redis
      → let w' = start_by_preference d c k pref pinned now w in Exclusive d c w'.db w'.redis
  unfolding start_by_preference
  start_by_preference-Exclusive k none pinned now w v = v
  start_by_preference-Exclusive k (some choice) pinned now w v =
      search_unless_in_room-Exclusive k choice pinned now w v

  pub start_chat-Exclusive :
      (k : ℕ) (username first_name : Option String) (pinned : Option ℕ) (now : ℕ) (w : World d c)
      → Exclusive d c w.db w.redis
      → let w' = start_chat d c k username first_name pinned now w in Exclusive d c w'.db w'.redis
  unfolding start_chat
  start_chat-Exclusive k username first_name pinned now w0 v0 =
      let w : World d c = with_db d c (get_or_create_user d k username first_name none w0.db) w0 in
      let v : Exclusive d c w.db w.redis =
        λ j. ground (arith, v0 j, active-get_or_create_user d j k username first_name none w0.db) in
      elim (Bool-cases (has_profile d c k w)) [
        | inr bare ↦ rw (bare, start_chat) v
        | inl full ↦ elim (Bool-cases (is_some (get_partner c k w.redis))) [
          | inl busy ↦ rw (full, busy, start_chat) v
          | inr alone ↦ elim (Bool-cases (is_waiting c k w.redis)) [
            | inl queued ↦ rw (full, alone, queued, start_chat) v
            | inr idle ↦
                rw (full, alone, idle, start_chat)
                  (start_by_preference-Exclusive k (saved_pref d c k w) pinned now w v)
          ]
        ]
      ]
