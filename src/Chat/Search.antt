-- ===== src/Chat/Search.antt =====
-- The search by filters (`run_search` of handlers/search.py), which also begins 1:1 chats, and the
-- job of main.py that takes old entries out of the waiting queue. `fits` stands for the select of
-- `run_search`: given the candidates' ids, it yields the first of the rows that fit the filters. The
-- province, the city and the location that it reads are not modelled.
use bluechat.Base.{
  ℕ, Bool, true, false, not, ◌&&◌, ◌||◌, Option, none, some, List, [], ◌∷◌, ◌==◌, if◌then◌else◌,
  is_some,
}
use bluechat.Db.Models.{Database, State, ChatSession, Reason}
use bluechat.Db.Users.{get_or_create_user, increment_total_chats}
use bluechat.Db.Coins.{deduct_coins}
use bluechat.Redis.Keys.{PartnerGender, Redis, Store, chat_coin_cost}
use bluechat.Redis.Queue.{dequeue, purge_stale_queue_entries}
use bluechat.Redis.Partners.{get_partner, set_partner, set_session_id, set_chat_payer}
use bluechat.Chat.World.{World, Notice, send, with_redis, with_db}
use bluechat.Chat.Matching.{check_room_conflict, has_profile, try_match}

-- The gender, and whether an age, a province or a distance is asked for as well.
pub record Filters : Type 0 where
  pub gender : Option PartnerGender
  pub narrows : Bool

abbrev pub ids_but : ℕ → List (ℕ × ℕ) → List ℕ
ids_but k [] = []
ids_but k ((j, t) ∷ rest) = if j == k then ids_but k rest else j ∷ ids_but k rest

abbrev pub append : List ℕ → List ℕ → List ℕ
append [] ks = ks
append (j ∷ js) ks = j ∷ append js ks

abbrev pub is_empty : List ℕ → Bool
is_empty [] = true
is_empty (j ∷ js) = false

module _ (d : Database) (c : Redis) where
  unfoldable pub candidate_ids : ℕ → Store c → List ℕ
  candidate_ids k s =
      append (ids_but k (c.waiting_queue.zrange s.waiting_male))
        (ids_but k (c.waiting_queue.zrange s.waiting_female))

  -- The select is sent only if somebody waits and a filter is set.
  unfoldable pub select_match : ℕ → Filters → (List ℕ → Option ℕ) → Store c → Option ℕ
  unfolding candidate_ids
  select_match k filters fits s =
      let ids : List ℕ = candidate_ids k s in
      if not (is_empty ids) && (is_some filters.gender || filters.narrows) then fits ids else none

  -- Whoever was found is taken out of the queue. He is given up if he was not there any more or has
  -- a partner.
  unfoldable pub claim : Option ℕ → World d c → World d c × Option ℕ
  claim none w = (w, none)
  claim (some p) w =
      let (out, removed) = dequeue c p w.redis in
      let after : World d c = with_redis d c out w in
      if not removed
      then (after, none)
      else if is_some (get_partner c p out)
      then (after, none)
      else (after, some p)

  unfoldable pub connect : ℕ → ℕ → ℕ → World d c → World d c
  connect k p now w =
      let out : Store c = (dequeue c k w.redis).0 in
      let session : ℕ = d.sessions.next_id w.db.sessions in
      let row : ChatSession = record { user_a_id = k; user_b_id = p; ended_by = none } in
      let stored : State d = record (w.db) {
        sessions = d.sessions.put session row w.db.sessions;
      } in
      record w {
        redis = set_session_id c k p session (set_partner c k p now out);
        db = increment_total_chats d (k ∷ p ∷ []) stored;
        sent = (p, Notice.matched) ∷ (k, Notice.matched) ∷ w.sent;
      }

  -- `run_search` behind the claim; without a match it goes on as an ordinary search.
  unfoldable pub after_selection :
      ℕ → Option PartnerGender → Option ℕ → ℕ → World d c × Option ℕ → World d c
  unfolding connect
  after_selection k wanted pinned now (w, some p) = connect k p now w
  after_selection k wanted pinned now (w, none) =
      (try_match d c k wanted pinned now (send d c k Notice.searching w)).0

  unfoldable pub search_queue :
      ℕ → Filters → (List ℕ → Option ℕ) → Option ℕ → ℕ → World d c → World d c
  unfolding select_match claim after_selection
  search_queue k filters fits pinned now w =
      after_selection k filters.gender pinned now (claim (select_match k filters fits w.redis) w)

  -- `run_search` behind the payment that a filter by gender costs.
  unfoldable pub after_filter_charge :
      ℕ → Filters → (List ℕ → Option ℕ) → Option ℕ → ℕ → World d c → State d × Option ℕ → World d c
  unfolding search_queue
  after_filter_charge k filters fits pinned now w (paid, none) =
      send d c k Notice.coins_missing (with_db d c paid w)
  after_filter_charge k filters fits pinned now w (paid, some left) =
      search_queue k filters fits pinned now
        (record w { db = paid; redis = set_chat_payer c k w.redis })

  unfoldable pub charge_and_search :
      ℕ → Filters → (List ℕ → Option ℕ) → Option ℕ → ℕ → World d c → World d c
  unfolding search_queue after_filter_charge
  charge_and_search k filters fits pinned now w = elim filters.gender [
    | none ↦ search_queue k filters fits pinned now w
    | some g ↦
        after_filter_charge k filters fits pinned now w
          (deduct_coins d k chat_coin_cost Reason.gender_search w.db)
  ]

  unfoldable pub run_search :
      ℕ → Filters → (List ℕ → Option ℕ) → Option ℕ → ℕ → World d c → World d c
  unfolding charge_and_search
  run_search k filters fits pinned now w0 =
      let w : World d c = with_db d c (get_or_create_user d k none none none w0.db) w0 in
      if not (has_profile d c k w)
      then send d c k Notice.onboarding w
      else elim (check_room_conflict d c k w) [
        | some conflict ↦ send d c k conflict w
        | none ↦
            if is_some (get_partner c k w.redis)
            then send d c k Notice.already_in_chat w
            else charge_and_search k filters fits pinned now w
      ]

  unfoldable pub purge_stale_queue_job : ℕ → World d c → World d c
  purge_stale_queue_job now w = with_redis d c (purge_stale_queue_entries c now w.redis) w
