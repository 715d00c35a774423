-- ===== src/Redis/Partners/Searching.antt =====
-- The queue and the pairs: a search takes nobody who has a partner.
use bluechat.Base.{
  ℕ, ◌≡◌, ◌≢◌, refl, ◌∙◌, inl, inr, true, false, Option, none, some, arith, Option-cases,
}
use bluechat.Redis.Keys.{PartnerGender, Redis, Store}
use bluechat.Redis.Queue.{
  candidate_genders, is_waiting, join_queue, leave_queue, match_or_enqueue, find_candidate,
}
use bluechat.Redis.Queue.Matching.{
  is_waiting-leave_queue, waits_among, Matched, match_or_enqueue-Matched,
}
use bluechat.Redis.Partners.{get_partner}
use bluechat.Redis.Partners.Pairing.{Paired}

module _ (c : Redis) where
  get_partner-join_queue :
      (own : PartnerGender) (wanted : Option PartnerGender) (j k now : ℕ) (s : Store c)
      → get_partner c j (join_queue c k own wanted now s) ≡ get_partner c j s
  unfolding join_queue
  get_partner-join_queue PartnerGender.male none j k now s = refl
  get_partner-join_queue PartnerGender.male (some g) j k now s = refl
  get_partner-join_queue PartnerGender.female none j k now s = refl
  get_partner-join_queue PartnerGender.female (some g) j k now s = refl

  pub get_partner-match_or_enqueue :
      (self : ℕ) (own : PartnerGender) (wanted : Option PartnerGender) (j now : ℕ) (s : Store c)
      → get_partner c j (match_or_enqueue c self own wanted now s).0 ≡ get_partner c j s
  unfolding match_or_enqueue leave_queue
  get_partner-match_or_enqueue self own wanted j now s =
      elim (Option-cases (find_candidate c self own (candidate_genders wanted) s)) [
        | inl e ↦ rw (e, match_or_enqueue) (get_partner-join_queue own wanted j self now s)
        | inr (k, e) ↦ rw (e, match_or_enqueue) refl
      ]

  pub waits_among-is_waiting :
      (wanted : Option PartnerGender) (k : ℕ) (s : Store c)
      → waits_among c (candidate_genders wanted) k s ≡ true
      → is_waiting c k s ≡ true
  unfolding waits_among is_waiting
  waits_among-is_waiting none k s h = ground arith
  waits_among-is_waiting (some PartnerGender.male) k s h = ground arith
  waits_among-is_waiting (some PartnerGender.female) k s h = ground arith

  pub leave_queue-Paired : (k : ℕ) (s : Store c) → Paired c s → Paired c (leave_queue c k s)
  unfolding leave_queue
  leave_queue-Paired k s v = record {
    symmetric = v.symmetric;
    apart = v.apart;
    free = λ j. ground (arith, is_waiting-leave_queue c j k s, v.free j);
  }

  -- What a search by a user without a partner, who does not wait, leaves behind.
  abbrev pub Searched : ℕ → Store c × Option ℕ → Type 0
  Searched self (s', none) = Paired c s'
  Searched self (s', some p) =
      Paired c s'
      × (self ≢ p)
      × (get_partner c self s' ≡ none)
      × (get_partner c p s' ≡ none)
      × (is_waiting c self s' ≡ false)
      × (is_waiting c p s' ≡ false)

  match_result-Searched :
      (self : ℕ) (own : PartnerGender) (wanted : Option PartnerGender) (s : Store c)
      → (r : Store c × Option ℕ) → Matched c self own wanted s r
      → ((j : ℕ) → get_partner c j r.0 ≡ get_partner c j s)
      → get_partner c self s ≡ none
      → is_waiting c self s ≡ false
      → Paired c s
      → Searched self r
  match_result-Searched self own wanted s (s', none) m same alone idle v = record {
    symmetric = λ a b. ground (arith, same a, same b, v.symmetric a b);
    apart = λ a. ground (arith, same a, v.apart a);
    free = λ a. ground (arith, same a, m.1 a, v.free a);
  }
  match_result-Searched self own wanted s (s', some p) m same alone idle v =
      let here : is_waiting c p s ≡ true = waits_among-is_waiting wanted p s m.1 in
      (
        record {
          symmetric = λ a b. ground (arith, same a, same b, v.symmetric a b);
          apart = λ a. ground (arith, same a, v.apart a);
          free = λ a. ground (arith, same a, m.3 a, v.free a);
        },
        ground (arith, m.0),
        same self ∙ alone,
        ground (arith, same p, v.free p, here),
        ground (arith, m.3 self, idle),
        ground (arith, m.3 p),
      )

  pub match_or_enqueue-Searched :
      (self : ℕ) (own : PartnerGender) (wanted : Option PartnerGender) (now : ℕ) (s : Store c)
      → get_partner c self s ≡ none
      → is_waiting c self s ≡ false
      → Paired c s
      → Searched self (match_or_enqueue c self own wanted now s)
  match_or_enqueue-Searched self own wanted now s alone idle v =
      match_result-Searched self own wanted s (match_or_enqueue c self own wanted now s)
        (match_or_enqueue-Matched c self own wanted now s)
        (λ j. get_partner-match_or_enqueue self own wanted j now s) alone idle v
