-- ===== src/Redis/Queue/Matching.antt =====
-- The matching script: whom it claims, and when it lets the searcher wait.
use bluechat.Base.{
  ℕ, ◌≡◌, ◌≢◌, inl, inr, refl, Bool, true, false, not, ◌&&◌, ◌||◌, Option, none, some, List, [],
  ◌∷◌, ◌==◌, if◌then◌else◌, is_some, lookup, Option-cases, Bool-cases, arith, eq_of_test,
}
use bluechat.Redis.Keys.{PartnerGender, same_gender, Redis, Store}
use bluechat.Redis.Queue.{
  candidate_genders, admits, first_that, waiting, desired, waits_in, is_waiting, join_queue,
  leave_queue, suits, find_candidate, match_or_enqueue,
}

-- The first that passes is in the range and passes; if there is none, nobody in the range does.
first_that-some :
    (test : ℕ → Bool) (m : List (ℕ × ℕ)) (k : ℕ)
    → first_that test m ≡ some k
    → (test k ≡ true) × (is_some (lookup k m) ≡ true)
unfolding first_that
first_that-some test [] k e = cc
first_that-some test ((j, t) ∷ m) k e = ground (arith, first_that-some test m k)

first_that-none :
    (test : ℕ → Bool) (m : List (ℕ × ℕ))
    → first_that test m ≡ none
    → (k : ℕ) → (test k && is_some (lookup k m)) ≡ false
unfolding first_that
first_that-none test [] e k = ground arith
first_that-none test ((j, t) ∷ m) e k = elim (Bool-cases (test j)) [
  | inl passes ↦ ground (arith, passes)
  | inr fails ↦ elim (Bool-cases (k == j)) [
    | inl same ↦ rw (eq_of_test k j same, fails) refl
    | inr other ↦ rw other (first_that-none test m (ground (arith, fails)) k)
  ]
]

same_gender_refl : (g : PartnerGender) → same_gender g g ≡ true
same_gender_refl PartnerGender.male = refl
same_gender_refl PartnerGender.female = refl

module _ (c : Redis) where
  -- The user waits in one of the queues that a search goes through.
  unfoldable pub waits_among : List PartnerGender → ℕ → Store c → Bool
  waits_among [] k s = false
  waits_among (g ∷ gs) k s = waits_in c g k s || waits_among gs k s

  find_candidate-some :
      (self : ℕ) (own : PartnerGender) (gs : List PartnerGender) (s : Store c) (k : ℕ)
      → find_candidate c self own gs s ≡ some k
      → (suits c self own s k ≡ true) × (waits_among gs k s ≡ true)
  unfolding find_candidate waits_among waits_in
  find_candidate-some self own [] s k e = cc
  find_candidate-some self own (g ∷ gs) s k e = ground (
    arith,
    first_that-some (suits c self own s) (c.waiting_queue.zrange (waiting c g s)) k,
    find_candidate-some self own gs s k,
    c.waiting_queue.lookup-zrange k (waiting c g s),
  )

  find_candidate-none :
      (self : ℕ) (own : PartnerGender) (gs : List PartnerGender) (s : Store c)
      → find_candidate c self own gs s ≡ none
      → (k : ℕ) → (suits c self own s k && waits_among gs k s) ≡ false
  unfolding find_candidate waits_among waits_in
  find_candidate-none self own [] s e k = ground arith
  find_candidate-none self own (g ∷ gs) s e k = ground (
    arith,
    first_that-none (suits c self own s) (c.waiting_queue.zrange (waiting c g s)),
    first_that-none (suits c self own s) (c.waiting_queue.zrange (waiting c g s)) (ground arith) k,
    find_candidate-none self own gs s (ground arith) k,
    c.waiting_queue.lookup-zrange k (waiting c g s),
  )

  pub is_waiting-leave_queue :
      (j k : ℕ) (s : Store c)
      → is_waiting c j (leave_queue c k s) ≡ (not (j == k) && is_waiting c j s)
  unfolding is_waiting waits_in leave_queue
  is_waiting-leave_queue j k s = ground (
    arith,
    c.waiting_queue.zscore-zrem j k s.waiting_male,
    c.waiting_queue.zscore-zrem j k s.waiting_female,
  )

  desired-leave_queue :
      (j k : ℕ) (s : Store c)
      → desired c j (leave_queue c k s) ≡ (if j == k then none else desired c j s)
  unfolding leave_queue
  desired-leave_queue j k s = c.desired_gender.get-del j k s.desired_gender

  pub waits_in-join_queue :
      (g own : PartnerGender) (wanted : Option PartnerGender) (j k now : ℕ) (s : Store c)
      → waits_in c g j (join_queue c k own wanted now s)
        ≡ ((j == k) && same_gender g own || waits_in c g j s)
  unfolding waits_in join_queue
  waits_in-join_queue PartnerGender.male PartnerGender.male wanted j k now s =
      ground (arith, c.waiting_queue.zscore-zadd j k now s.waiting_male)
  waits_in-join_queue PartnerGender.male PartnerGender.female wanted j k now s = ground arith
  waits_in-join_queue PartnerGender.female PartnerGender.male wanted j k now s = ground arith
  waits_in-join_queue PartnerGender.female PartnerGender.female wanted j k now s =
      ground (arith, c.waiting_queue.zscore-zadd j k now s.waiting_female)

  pub is_waiting-join_queue :
      (own : PartnerGender) (wanted : Option PartnerGender) (j k now : ℕ) (s : Store c)
      → is_waiting c j (join_queue c k own wanted now s) ≡ ((j == k) || is_waiting c j s)
  unfolding is_waiting
  is_waiting-join_queue PartnerGender.male wanted j k now s = ground (
    arith,
    waits_in-join_queue PartnerGender.male PartnerGender.male wanted j k now s,
    waits_in-join_queue PartnerGender.female PartnerGender.male wanted j k now s,
  )
  is_waiting-join_queue PartnerGender.female wanted j k now s = ground (
    arith,
    waits_in-join_queue PartnerGender.male PartnerGender.female wanted j k now s,
    waits_in-join_queue PartnerGender.female PartnerGender.female wanted j k now s,
  )

  desired-join_queue :
      (own : PartnerGender) (wanted : Option PartnerGender) (j k now : ℕ) (s : Store c)
      → desired c j (join_queue c k own wanted now s) ≡ (if j == k then wanted else desired c j s)
  unfolding join_queue
  desired-join_queue PartnerGender.male none j k now s =
      c.desired_gender.get-del j k s.desired_gender
  desired-join_queue PartnerGender.male (some g) j k now s =
      c.desired_gender.get-set j k g s.desired_gender
  desired-join_queue PartnerGender.female none j k now s =
      c.desired_gender.get-del j k s.desired_gender
  desired-join_queue PartnerGender.female (some g) j k now s =
      c.desired_gender.get-set j k g s.desired_gender

  -- What the script may answer, and the queue and the preferences after it.
  abbrev pub Matched :
      ℕ → PartnerGender → Option PartnerGender → Store c → Store c × Option ℕ → Type 0
  Matched self own wanted s (s', some k) =
      (k ≢ self)
      × (waits_among (candidate_genders wanted) k s ≡ true)
      × (admits (desired c k s) own ≡ true)
      × ((j : ℕ) → is_waiting c j s' ≡ (not (j == k) && is_waiting c j s))
      × ((j : ℕ) → desired c j s' ≡ (if j == k then none else desired c j s))
  Matched self own wanted s (s', none) =
      ((k : ℕ) → (suits c self own s k && waits_among (candidate_genders wanted) k s) ≡ false)
      × ((j : ℕ) → is_waiting c j s' ≡ ((j == self) || is_waiting c j s))
      × ((j : ℕ) → desired c j s' ≡ (if j == self then wanted else desired c j s))

  -- A claimed partner is another user, waits in a queue that the searcher asked for, and wants the
  -- searcher's gender or any; he alone leaves the queue. The script puts the searcher in the queue
  -- only if nobody who suits waits there.
  pub match_or_enqueue-Matched :
      (self : ℕ) (own : PartnerGender) (wanted : Option PartnerGender) (now : ℕ) (s : Store c)
      → Matched self own wanted s (match_or_enqueue c self own wanted now s)
  unfolding match_or_enqueue suits
  match_or_enqueue-Matched self own wanted now s =
      elim (Option-cases (find_candidate c self own (candidate_genders wanted) s)) [
        | inl e ↦
            rw (e, match_or_enqueue)
              (
                find_candidate-none self own (candidate_genders wanted) s e,
                λ j. is_waiting-join_queue own wanted j self now s,
                λ j. desired-join_queue own wanted j self now s,
              )
        | inr (k, e) ↦
            let (suited, there) = find_candidate-some self own (candidate_genders wanted) s k e in
            rw (e, match_or_enqueue)
              (
                ground (arith, suited),
                there,
                ground (arith, suited),
                λ j. is_waiting-leave_queue j k s,
                λ j. desired-leave_queue j k s,
              )
      ]

  waits_among-candidates :
      (wanted : Option PartnerGender) (g : PartnerGender) (k : ℕ) (s : Store c)
      → admits wanted g ≡ true
      → waits_in c g k s ≡ true
      → waits_among (candidate_genders wanted) k s ≡ true
  unfolding waits_among
  waits_among-candidates none PartnerGender.male k s a w = ground (arith, w)
  waits_among-candidates none PartnerGender.female k s a w = ground (arith, w)
  waits_among-candidates (some PartnerGender.male) PartnerGender.male k s a w = ground (arith, w)
  waits_among-candidates (some PartnerGender.male) PartnerGender.female k s a w = cc
  waits_among-candidates (some PartnerGender.female) PartnerGender.male k s a w = cc
  waits_among-candidates (some PartnerGender.female) PartnerGender.female k s a w =
      ground (arith, w)

  -- Of two users who suit each other, the first found nobody and waits: the second finds a partner
  -- at once, the first or somebody else, so they can never both be left waiting.
  pub match_or_enqueue_second :
      (a b : ℕ) (own_a own_b : PartnerGender) (wanted_a wanted_b : Option PartnerGender)
      (now later : ℕ) (s : Store c)
      → a ≢ b
      → admits wanted_a own_b ≡ true
      → admits wanted_b own_a ≡ true
      → (match_or_enqueue c a own_a wanted_a now s).1 ≡ none
      → (k : ℕ) × ((match_or_enqueue c b own_b wanted_b later
            (match_or_enqueue c a own_a wanted_a now s).0).1
          ≡ some k)
  unfolding match_or_enqueue suits
  match_or_enqueue_second a b own_a own_b wanted_a wanted_b now later s ne ab ba alone =
      let s' : Store c = join_queue c a own_a wanted_a now s in
      let first : find_candidate c a own_a (candidate_genders wanted_a) s ≡ none =
        ground (arith, alone) in
      let there : waits_in c own_a a s' ≡ true =
        rw (waits_in-join_queue own_a own_a wanted_a a a now s)
          (ground (arith, same_gender_refl own_a)) in
      elim (Option-cases (find_candidate c b own_b (candidate_genders wanted_b) s')) [
        | inl none_found ↦ absurd (
            ground (
              arith,
              find_candidate-none b own_b (candidate_genders wanted_b) s' none_found a,
              waits_among-candidates wanted_b own_a a s' ba there,
              desired-join_queue own_a wanted_a a a now s,
            ))
        | inr (k, e) ↦ rw (first, match_or_enqueue) (k, rw (e, match_or_enqueue) refl)
      ]
