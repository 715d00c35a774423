-- ===== src/Chat/Exclusive/Filters.antt =====
-- The search by filters and the purge of the waiting queue.
use bluechat.Base.{
  ℕ, ◌≡◌, refl, ◌∙◌, inl, inr, true, false, ◌||◌, Option, none, some, List, [], ◌∷◌, ◌==◌, is_some,
  arith, Option-cases, Bool-cases, eq_of_test, ◌-◌,
}
use bluechat.Db.Models.{Database, State, Reason}
use bluechat.Db.Users.{get_or_create_user}
use bluechat.Db.Coins.{deduct_coins}
use bluechat.Db.Rooms.Effects.{active}
use bluechat.Db.Rooms.Saves.{active-get_or_create_user}
use bluechat.Redis.Keys.{PartnerGender, Redis, Store, chat_coin_cost, queue_timeout_seconds}
use bluechat.Redis.Queue.{waits_in, is_waiting, leave_queue, dequeue, purge_stale_queue_entries}
use bluechat.Redis.Queue.Matching.{is_waiting-leave_queue}
use bluechat.Redis.Partners.{get_partner, set_partner, set_session_id, set_chat_payer}
use bluechat.Redis.Partners.Pairing.{get_partner-set_partner, is_waiting-set_partner}
use bluechat.Chat.World.{World, Notice, send, with_redis, with_db}
use bluechat.Chat.Matching.{check_room_conflict, has_profile, try_match}
use bluechat.Chat.RoomJobs.Mirrored.{active-deduct_coins}
use bluechat.Chat.Search.{
  Filters, select_match, claim, connect, after_selection, search_queue, after_filter_charge,
  charge_and_search, run_search, purge_stale_queue_job,
}
use bluechat.Chat.Untouched.{Untouched, try_match-Untouched}
use bluechat.Chat.Exclusive.{
  engaged, held, Exclusive, Joins, quiet-Joins, then-Joins, Joins-Exclusive,
  active-increment_total_chats, check_room_conflict-held,
}
use bluechat.Chat.Exclusive.Searches.{try_match-Joins}

module _ (d : Database) (c : Redis) where
  pub dequeue-Joins :
      (k : ℕ) (w : World d c) → Joins d c (λ j. false) w (with_redis d c (dequeue c k w.redis).0 w)
  unfolding dequeue leave_queue is_waiting waits_in
  dequeue-Joins k w = record {
    rooms = λ j. refl;
    others = λ j other. ground (arith, is_waiting-leave_queue c j k w.redis);
  }

  -- Nobody but a newcomer is engaged anew, and the rest of Redis is as it was.
  record Enters (k : ℕ) (w w' : World d c) : Type 0 where
    joins : Joins d c (λ j. j == k) w w'
    rest : Untouched d c w w'

  then-Enters : (k : ℕ) (w w1 w2 : World d c) → Enters k w w1 → Enters k w1 w2 → Enters k w w2
  then-Enters k w w1 w2 a b = record {
    joins = then-Joins d c (λ j. j == k) w w1 w2 a.joins b.joins;
    rest = b.rest ∙ a.rest;
  }

  quiet-Enters :
      (k : ℕ) (w w' : World d c)
      → ((j : ℕ) → active d j w'.db ≡ active d j w.db)
      → ((j : ℕ) → engaged d c j w'.redis ≡ engaged d c j w.redis)
      → Untouched d c w w'
      → Enters k w w'
  quiet-Enters k w w' still same rest = record {
    joins = quiet-Joins d c (λ j. j == k) w w' still same;
    rest = rest;
  }

  connect-Joins :
      (k p now : ℕ) (w : World d c)
      → Joins d c (λ j. (j == k) || (j == p)) w (connect d c k p now w)
  unfolding connect dequeue leave_queue set_session_id is_waiting waits_in
  connect-Joins k p now w =
      let out : Store c = leave_queue c k w.redis in
      record {
        rooms = λ j. active-increment_total_chats d c j (k ∷ p ∷ []) _;
        others = λ j other. ground (
          arith,
          other,
          get_partner-set_partner c j k p now out,
          is_waiting-set_partner c j k p now out,
          is_waiting-leave_queue c j k w.redis,
        );
      }

  connect-Untouched : (k p now : ℕ) (w : World d c) → Untouched d c w (connect d c k p now w)
  unfolding connect dequeue leave_queue set_session_id set_partner
  connect-Untouched k p now w = refl

  dequeue-Untouched :
      (p : ℕ) (w : World d c) → Untouched d c w (with_redis d c (dequeue c p w.redis).0 w)
  unfolding dequeue leave_queue
  dequeue-Untouched p w = refl

  -- Who waits is engaged already, so that it is only the searcher who is engaged anew.
  claimed-Enters :
      (k p now : ℕ) (w : World d c)
      → is_waiting c p w.redis ≡ true
      → Enters k w (connect d c k p now (with_redis d c (dequeue c p w.redis).0 w))
  claimed-Enters k p now w here =
      let out : World d c = with_redis d c (dequeue c p w.redis).0 w in
      let left : Joins d c (λ j. false) w out = dequeue-Joins p w in
      let both : Joins d c (λ j. (j == k) || (j == p)) out (connect d c k p now out) =
        connect-Joins k p now out in
      record {
        joins = record {
          rooms = λ j. both.rooms j ∙ left.rooms j;
          others = λ j other. elim (Bool-cases (j == p)) [
            | inl same ↦ ground (arith, eq_of_test j p same, here)
            | inr apart ↦
                ground (arith, left.others j refl, both.others j (ground (arith, other, apart)))
          ];
        };
        rest = connect-Untouched k p now out ∙ dequeue-Untouched p w;
      }

  ordinary-Enters :
      (k : ℕ) (wanted : Option PartnerGender) (pinned : Option ℕ) (now : ℕ) (w : World d c)
      → Enters k w (try_match d c k wanted pinned now (send d c k Notice.searching w)).0
  ordinary-Enters k wanted pinned now w =
      let told : World d c = send d c k Notice.searching w in
      then-Enters k w told (try_match d c k wanted pinned now told).0
        (quiet-Enters k w told (λ j. refl) (λ j. refl) refl)
        (record {
          joins = try_match-Joins d c k wanted pinned now told;
          rest = try_match-Untouched d c k wanted pinned now told;
        })

  given_up-Enters :
      (k p : ℕ) (wanted : Option PartnerGender) (pinned : Option ℕ) (now : ℕ) (w : World d c)
      → Enters k w
          (after_selection d c k wanted pinned now (with_redis d c (dequeue c p w.redis).0 w, none))
  unfolding after_selection
  given_up-Enters k p wanted pinned now w =
      let out : World d c = with_redis d c (dequeue c p w.redis).0 w in
      let left : Joins d c (λ j. false) w out = dequeue-Joins p w in
      then-Enters k w out _
        (record {
          joins = record { rooms = left.rooms; others = λ j other. left.others j refl };
          rest = dequeue-Untouched p w;
        })
        (ordinary-Enters k wanted pinned now out)

  after_selection-Enters :
      (k : ℕ) (wanted : Option PartnerGender) (pinned : Option ℕ) (now : ℕ) (w : World d c)
      (found : Option ℕ)
      → Enters k w (after_selection d c k wanted pinned now (claim d c found w))
  unfolding after_selection claim dequeue
  after_selection-Enters k wanted pinned now w none = ordinary-Enters k wanted pinned now w
  after_selection-Enters k wanted pinned now w (some p) =
      elim (Bool-cases (is_waiting c p w.redis)) [
        | inr gone ↦ rw (gone, claim) (given_up-Enters k p wanted pinned now w)
        | inl here ↦ elim (Bool-cases (is_some (get_partner c p (dequeue c p w.redis).0))) [
          | inl busy ↦ rw (here, busy, claim) (given_up-Enters k p wanted pinned now w)
          | inr alone ↦ rw (here, alone, claim) (claimed-Enters k p now w here)
        ]
      ]

  search_queue-Enters :
      (k : ℕ) (filters : Filters) (fits : List ℕ → Option ℕ) (pinned : Option ℕ) (now : ℕ)
      (w : World d c)
      → Enters k w (search_queue d c k filters fits pinned now w)
  unfolding search_queue
  search_queue-Enters k filters fits pinned now w =
      after_selection-Enters k filters.gender pinned now w (select_match d c k filters fits w.redis)

  after_filter_charge-Enters :
      (k : ℕ) (filters : Filters) (fits : List ℕ → Option ℕ) (pinned : Option ℕ) (now : ℕ)
      (w : World d c) (answer : State d × Option ℕ)
      → ((j : ℕ) → active d j answer.0 ≡ active d j w.db)
      → Enters k w (after_filter_charge d c k filters fits pinned now w answer)
  unfolding after_filter_charge set_chat_payer is_waiting waits_in
  after_filter_charge-Enters k filters fits pinned now w (paid, none) still =
      quiet-Enters k w _ still (λ j. refl) refl
  after_filter_charge-Enters k filters fits pinned now w (paid, some left) still =
      let marked : World d c = record w { db = paid; redis = set_chat_payer c k w.redis } in
      then-Enters k w marked (search_queue d c k filters fits pinned now marked)
        (quiet-Enters k w marked still (λ j. refl) refl)
        (search_queue-Enters k filters fits pinned now marked)

  charge_and_search-Enters :
      (k : ℕ) (filters : Filters) (fits : List ℕ → Option ℕ) (pinned : Option ℕ) (now : ℕ)
      (w : World d c)
      → Enters k w (charge_and_search d c k filters fits pinned now w)
  unfolding charge_and_search
  charge_and_search-Enters k filters fits pinned now w = elim (Option-cases filters.gender) [
    | inl free ↦ rw (free, charge_and_search) (search_queue-Enters k filters fits pinned now w)
    | inr (g, asked) ↦
        rw (asked, charge_and_search)
          (after_filter_charge-Enters k filters fits pinned now w
            (deduct_coins d k chat_coin_cost Reason.gender_search w.db)
            (λ j. active-deduct_coins d c j k chat_coin_cost Reason.gender_search w.db))
  ]

  pub run_search-Exclusive :
      (k : ℕ) (filters : Filters) (fits : List ℕ → Option ℕ) (pinned : Option ℕ) (now : ℕ)
      (w : World d c)
      → Exclusive d c w.db w.redis
      → let w' = run_search d c k filters fits pinned now w in Exclusive d c w'.db w'.redis
  unfolding run_search
  run_search-Exclusive k filters fits pinned now w0 v0 =
      let w : World d c = with_db d c (get_or_create_user d k none none none w0.db) w0 in
      let v : Exclusive d c w.db w.redis =
        λ j. ground (arith, v0 j, active-get_or_create_user d j k none none none w0.db) in
      elim (Bool-cases (has_profile d c k w)) [
        | inr bare ↦ rw (bare, run_search) v
        | inl full ↦ elim (Option-cases (check_room_conflict d c k w)) [
          | inr (notice, conflict) ↦ rw (full, conflict, run_search) v
          | inl clear ↦ elim (Bool-cases (is_some (get_partner c k w.redis))) [
            | inl busy ↦ rw (full, clear, busy, run_search) v
            | inr alone ↦
                let enters = charge_and_search-Enters k filters fits pinned now w in
                let free : held d c k w.db w.redis ≡ false =
                  ground (arith, clear, check_room_conflict-held d c k w) in
                rw (full, clear, alone, run_search)
                  (Joins-Exclusive d c (λ j. j == k) w _ enters.joins enters.rest
                    (λ j new. rw (eq_of_test j k new) free) v)
          ]
        ]
      ]

  pub purge_stale_queue_job-Exclusive :
      (now : ℕ) (w : World d c)
      → Exclusive d c w.db w.redis
      → let w' = purge_stale_queue_job d c now w in Exclusive d c w'.db w'.redis
  unfolding purge_stale_queue_job purge_stale_queue_entries is_waiting waits_in
  purge_stale_queue_job-Exclusive now w =
      let cutoff : ℕ = now - queue_timeout_seconds in
      Joins-Exclusive d c (λ j. false) w (purge_stale_queue_job d c now w)
        (record {
          rooms = λ j. refl;
          others = λ j other. ground (
            arith,
            c.waiting_queue.zscore-zremrangebyscore j cutoff w.redis.waiting_male,
            c.waiting_queue.zscore-zremrangebyscore j cutoff w.redis.waiting_female,
          );
        })
        refl (λ j new. ground (arith, new))
