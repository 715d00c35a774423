-- ===== src/Redis/Queue.antt =====
-- The waiting queue of the 1:1 chat (redis_client.py): `enqueue` to `purge_stale_queue_entries`,
-- with the Lua script `_MATCH_OR_ENQUEUE_LUA`, which the server runs as one step.
pub mod Matching
pub mod Expiry
use bluechat.Base.{
  ℕ, ◌-◌, Bool, true, false, not, ◌&&◌, ◌||◌, Option, none, some, List, [], ◌∷◌, ◌==◌,
  if◌then◌else◌, is_some,
}
use bluechat.Db.Models.{Database, State, Gender}
use bluechat.Db.Users.{get_user}
use bluechat.Redis.Stores.{Keyspace, SortedSet}
use bluechat.Redis.Keys.{PartnerGender, same_gender, Redis, Store, queue_timeout_seconds}

-- `_user_gender_str`: `None` for no user, and for a gender that is not set.
abbrev partner_gender : Gender → Option PartnerGender
partner_gender Gender.male = some PartnerGender.male
partner_gender Gender.female = some PartnerGender.female
partner_gender Gender.unset = none

unfoldable pub user_gender_str : (d : Database) → ℕ → State d → Option PartnerGender
user_gender_str d k s = elim (get_user d k s) [ none ↦ none | some u ↦ partner_gender u.gender ]

abbrev pub candidate_genders : Option PartnerGender → List PartnerGender
candidate_genders none = PartnerGender.male ∷ PartnerGender.female ∷ []
candidate_genders (some g) = g ∷ []

-- `candidate_desired == false or candidate_desired == own_gender`
abbrev pub admits : Option PartnerGender → PartnerGender → Bool
admits none own = true
admits (some wanted) own = same_gender wanted own

-- The first member of a range that passes a test.
pub first_that : (ℕ → Bool) → List (ℕ × ℕ) → Option ℕ
first_that test [] = none
first_that test ((c, score) ∷ rest) = if test c then some c else first_that test rest

module _ (c : Redis) where
  abbrev pub waiting : PartnerGender → Store c → c.waiting_queue.Set
  waiting PartnerGender.male s = s.waiting_male
  waiting PartnerGender.female s = s.waiting_female

  abbrev pub set_waiting : PartnerGender → c.waiting_queue.Set → Store c → Store c
  set_waiting PartnerGender.male z s = record s { waiting_male = z }
  set_waiting PartnerGender.female z s = record s { waiting_female = z }

  abbrev pub desired : ℕ → Store c → Option PartnerGender
  desired k s = c.desired_gender.get k s.desired_gender

  abbrev pub set_desired : ℕ → Option PartnerGender → Store c → Store c
  set_desired k none s = record s { desired_gender = c.desired_gender.del k s.desired_gender }
  set_desired k (some g) s = record s { desired_gender = c.desired_gender.set k g s.desired_gender }

  unfoldable pub waits_in : PartnerGender → ℕ → Store c → Bool
  waits_in g k s = is_some (c.waiting_queue.zscore k (waiting g s))

  unfoldable pub is_waiting : ℕ → Store c → Bool
  unfolding waits_in
  is_waiting k s = waits_in PartnerGender.male k s || waits_in PartnerGender.female k s

  -- `ZADD` with the time, and the preference of this round.
  unfoldable pub join_queue : ℕ → PartnerGender → Option PartnerGender → ℕ → Store c → Store c
  join_queue k own wanted now s =
      set_desired k wanted (set_waiting own (c.waiting_queue.zadd k now (waiting own s)) s)

  pub enqueue : ℕ → Option PartnerGender → Option PartnerGender → ℕ → Store c → Store c × Bool
  unfolding join_queue
  enqueue k none wanted now s = (s, false)
  enqueue k (some own) wanted now s = (join_queue k own wanted now s, true)

  -- `ZREM` from both sets and `DEL` of the preference.
  unfoldable pub leave_queue : ℕ → Store c → Store c
  leave_queue k s = record s {
    waiting_male = c.waiting_queue.zrem k s.waiting_male;
    waiting_female = c.waiting_queue.zrem k s.waiting_female;
    desired_gender = c.desired_gender.del k s.desired_gender;
  }

  -- `ZREM` reports a removal exactly for a member.
  unfoldable pub dequeue : ℕ → Store c → Store c × Bool
  unfolding leave_queue is_waiting
  dequeue k s = (leave_queue k s, is_waiting k s)

  pub suits : ℕ → PartnerGender → Store c → ℕ → Bool
  suits self own s k = not (k == self) && admits (desired k s) own

  pub find_candidate : ℕ → PartnerGender → List PartnerGender → Store c → Option ℕ
  unfolding suits first_that
  find_candidate self own [] s = none
  find_candidate self own (g ∷ gs) s =
      let others = find_candidate self own gs s in
      elim (first_that (suits self own s) (c.waiting_queue.zrange (waiting g s))) [
        | some k ↦ some k
        | none ↦ others
      ]

  -- The script: claim the first suitable user, or wait.
  unfoldable pub match_or_enqueue :
      ℕ → PartnerGender → Option PartnerGender → ℕ → Store c → Store c × Option ℕ
  unfolding find_candidate join_queue leave_queue
  match_or_enqueue self own wanted now s =
      elim (find_candidate self own (candidate_genders wanted) s) [
        | some k ↦ (leave_queue k s, some k)
        | none ↦ (join_queue self own wanted now s, none)
      ]

  -- Whether the user could enter the queue, and the partner if one was there.
  unfoldable pub atomic_match_or_enqueue :
      ℕ → Option PartnerGender → Option PartnerGender → ℕ → Store c → Store c × Bool × Option ℕ
  unfolding match_or_enqueue
  atomic_match_or_enqueue k none wanted now s = (s, false, none)
  atomic_match_or_enqueue k (some own) wanted now s =
      let (after, found) = match_or_enqueue k own wanted now s in (after, true, found)

  unfoldable pub purge_stale_queue_entries : ℕ → Store c → Store c
  purge_stale_queue_entries now s = record s {
    waiting_male = c.waiting_queue.zremrangebyscore (now - queue_timeout_seconds) s.waiting_male;
    waiting_female =
        c.waiting_queue.zremrangebyscore (now - queue_timeout_seconds) s.waiting_female;
  }
