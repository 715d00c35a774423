-- ===== src/Redis/Untouched.antt =====
-- What the operations of the 1:1 chat leave alone in Redis.
use bluechat.Base.{ℕ, ◌≡◌, refl, inl, inr, Option, none, some, Option-cases}
use bluechat.Redis.Keys.{PartnerGender, Redis, Store}
use bluechat.Redis.Queue.{
  candidate_genders, find_candidate, leave_queue, join_queue, match_or_enqueue,
}
use bluechat.Redis.Partners.{get_partner, clear_partner, drop_chat}

-- The queue for a room, the mirror of the active rooms, and the requests for a chat.
pub record Elsewhere (c : Redis) : Type 0 where
  pub joining_male : c.room_join_queue.Set
  pub joining_female : c.room_join_queue.Set
  pub joining_any : c.room_join_queue.Set
  pub active_room : c.active_room.Keys
  pub room_ui_suppressed : c.room_ui_suppressed.Keys
  pub chat_request : c.chat_request.Keys
  pub chat_request_pending : c.chat_request_pending.Set
  pub chat_request_by_requester : c.chat_request_by_requester.Rows

module _ (c : Redis) where
  abbrev pub elsewhere : Store c → Elsewhere c
  elsewhere s = record {
    joining_male = s.joining_male;
    joining_female = s.joining_female;
    joining_any = s.joining_any;
    active_room = s.active_room;
    room_ui_suppressed = s.room_ui_suppressed;
    chat_request = s.chat_request;
    chat_request_pending = s.chat_request_pending;
    chat_request_by_requester = s.chat_request_by_requester;
  }

  elsewhere-join_queue :
      (k : ℕ) (own : PartnerGender) (wanted : Option PartnerGender) (now : ℕ) (s : Store c)
      → elsewhere (join_queue c k own wanted now s) ≡ elsewhere s
  unfolding join_queue
  elsewhere-join_queue k PartnerGender.male none now s = refl
  elsewhere-join_queue k PartnerGender.male (some g) now s = refl
  elsewhere-join_queue k PartnerGender.female none now s = refl
  elsewhere-join_queue k PartnerGender.female (some g) now s = refl

  pub elsewhere-match_or_enqueue :
      (k : ℕ) (own : PartnerGender) (wanted : Option PartnerGender) (now : ℕ) (s : Store c)
      → elsewhere (match_or_enqueue c k own wanted now s).0 ≡ elsewhere s
  unfolding match_or_enqueue leave_queue
  elsewhere-match_or_enqueue k own wanted now s =
      elim (Option-cases (find_candidate c k own (candidate_genders wanted) s)) [
        | inl nobody ↦ rw (nobody, match_or_enqueue) (elsewhere-join_queue k own wanted now s)
        | inr (p, found) ↦ rw (found, match_or_enqueue) refl
      ]

  pub elsewhere-clear_partner :
      (k : ℕ) (s : Store c) → elsewhere (clear_partner c k s).0 ≡ elsewhere s
  unfolding clear_partner drop_chat
  elsewhere-clear_partner k s = elim (Option-cases (get_partner c k s)) [
    | inl alone ↦ rw (alone, clear_partner) refl
    | inr (p, paired) ↦ rw (paired, clear_partner) refl
  ]
