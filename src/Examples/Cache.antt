-- ===== src/Examples/Cache.antt =====
-- Keys and sorted sets held in memory, which meet the laws that the model asks of Redis.
use bluechat.Base.{
  ◌≤◌, leb→le, Distinct, drop_key, lookup-drop_key, Distinct-drop_key, eq_of_test, ==-refl, inl,
  inr, Bool-cases, ℕ, ◌≡◌, refl, Bool, true, Option, none, some, List, [], ◌∷◌, ◌==◌, leb,
  if◌then◌else◌, ◌||◌, lookup, arith,
}
use bluechat.Redis.Stores.{Keyspace, SortedSet, above, AtLeast, Ascending}
use bluechat.Redis.Keys.{PartnerGender, ChatRequest, Redis, Store}
use bluechat.Memory.{pairs}

abbrev pub keyspace : (V : Type 0) → Keyspace V
keyspace V = record {
  Keys = ℕ → Option V;
  get = λ k t. t k;
  set = λ j v t k. if k == j then some v else t k;
  del = λ j t k. if k == j then none else t k;
  get-set = λ k j v t. refl;
  get-del = λ k j t. refl;
}

abbrev pub insert : ℕ → ℕ → List (ℕ × ℕ) → List (ℕ × ℕ)
insert k t [] = (k, t) ∷ []
insert k t ((j, u) ∷ m) = if leb t u then (k, t) ∷ (j, u) ∷ m else (j, u) ∷ insert k t m

abbrev pub later : ℕ → List (ℕ × ℕ) → List (ℕ × ℕ)
later cutoff [] = []
later cutoff ((j, t) ∷ m) = if leb t cutoff then later cutoff m else (j, t) ∷ later cutoff m

-- In order, and nobody twice.
abbrev pub Tidy : List (ℕ × ℕ) → Type 0
Tidy m = Distinct m × Ascending m

pub lookup-insert :
    (k j t : ℕ) (m : List (ℕ × ℕ))
    → lookup j m ≡ none
    → lookup k (insert j t m) ≡ (if k == j then some t else lookup k m)
lookup-insert k j t [] h = refl
lookup-insert k j t ((i, u) ∷ m) h = elim (Bool-cases (j == i)) [
  | inl same ↦ ground (arith, h, same)
  | inr other ↦
      ground (arith, other, eq_of_test k j, lookup-insert k j t m (ground (arith, h, other)))
]

lookup-later :
    (k cutoff : ℕ) (m : List (ℕ × ℕ))
    → Distinct m
    → lookup k (later cutoff m) ≡ above cutoff (lookup k m)
lookup-later k cutoff [] h = refl
lookup-later k cutoff ((j, t) ∷ m) (fresh, h) =
    ground (arith, eq_of_test k j, fresh, lookup-later k cutoff m h)

Distinct-insert :
    (k t : ℕ) (m : List (ℕ × ℕ)) → lookup k m ≡ none → Distinct m → Distinct (insert k t m)
Distinct-insert k t [] e h = (refl, tt)
Distinct-insert k t ((j, u) ∷ m) e (fresh, h) = elim (Bool-cases (leb t u)) [
  | inl first ↦ rw first (e, (fresh, h))
  | inr after ↦
      let e' : lookup k m ≡ none = ground (arith, e) in
      rw after (ground (arith, lookup-insert j k t m e', e, fresh), Distinct-insert k t m e' h)
]

Distinct-later : (cutoff : ℕ) (m : List (ℕ × ℕ)) → Distinct m → Distinct (later cutoff m)
Distinct-later cutoff [] h = tt
Distinct-later cutoff ((j, t) ∷ m) (fresh, h) = elim (Bool-cases (leb t cutoff)) [
  | inl old ↦ rw old (Distinct-later cutoff m h)
  | inr young ↦
      rw young (ground (arith, lookup-later j cutoff m h, fresh), Distinct-later cutoff m h)
]

AtLeast-weaken : (t u : ℕ) (m : List (ℕ × ℕ)) → t ≤ u → AtLeast u m → AtLeast t m
AtLeast-weaken t u [] h a = tt
AtLeast-weaken t u ((j, v) ∷ m) h (le, a) = (omega (arith, h, le), AtLeast-weaken t u m h a)

AtLeast-insert : (b k t : ℕ) (m : List (ℕ × ℕ)) → b ≤ t → AtLeast b m → AtLeast b (insert k t m)
AtLeast-insert b k t [] h a = (h, tt)
AtLeast-insert b k t ((j, u) ∷ m) h (le, a) = elim (Bool-cases (leb t u)) [
  | inl first ↦ rw first (h, (le, a))
  | inr after ↦ rw after (le, AtLeast-insert b k t m h a)
]

AtLeast-drop_key : (b k : ℕ) (m : List (ℕ × ℕ)) → AtLeast b m → AtLeast b (drop_key k m)
AtLeast-drop_key b k [] a = tt
AtLeast-drop_key b k ((j, u) ∷ m) (le, a) = elim (Bool-cases (j == k)) [
  | inl same ↦ rw same (AtLeast-drop_key b k m a)
  | inr other ↦ rw other (le, AtLeast-drop_key b k m a)
]

AtLeast-later : (b cutoff : ℕ) (m : List (ℕ × ℕ)) → AtLeast b m → AtLeast b (later cutoff m)
AtLeast-later b cutoff [] a = tt
AtLeast-later b cutoff ((j, u) ∷ m) (le, a) = elim (Bool-cases (leb u cutoff)) [
  | inl old ↦ rw old (AtLeast-later b cutoff m a)
  | inr young ↦ rw young (le, AtLeast-later b cutoff m a)
]

Ascending-insert : (k t : ℕ) (m : List (ℕ × ℕ)) → Ascending m → Ascending (insert k t m)
Ascending-insert k t [] h = (tt, tt)
Ascending-insert k t ((j, u) ∷ m) (a, h) = elim (Bool-cases (leb t u)) [
  | inl first ↦
      let le : t ≤ u = leb→le t u first in rw first ((le, AtLeast-weaken t u m le a), (a, h))
  | inr after ↦
      rw after (AtLeast-insert u k t m (ground (arith, after)) a, Ascending-insert k t m h)
]

Ascending-drop_key : (k : ℕ) (m : List (ℕ × ℕ)) → Ascending m → Ascending (drop_key k m)
Ascending-drop_key k [] h = tt
Ascending-drop_key k ((j, u) ∷ m) (a, h) = elim (Bool-cases (j == k)) [
  | inl same ↦ rw same (Ascending-drop_key k m h)
  | inr other ↦ rw other (AtLeast-drop_key u k m a, Ascending-drop_key k m h)
]

Ascending-later : (cutoff : ℕ) (m : List (ℕ × ℕ)) → Ascending m → Ascending (later cutoff m)
Ascending-later cutoff [] h = tt
Ascending-later cutoff ((j, u) ∷ m) (a, h) = elim (Bool-cases (leb u cutoff)) [
  | inl old ↦ rw old (Ascending-later cutoff m h)
  | inr young ↦ rw young (AtLeast-later u cutoff m a, Ascending-later cutoff m h)
]

pub gone : (k : ℕ) (m : List (ℕ × ℕ)) → lookup k (drop_key k m) ≡ none
gone k m = ground (arith, lookup-drop_key k k m, ==-refl k)

pub Tidy-zadd : (k t : ℕ) (m : List (ℕ × ℕ)) → Tidy m → Tidy (insert k t (drop_key k m))
Tidy-zadd k t m (d, a) = (
  Distinct-insert k t (drop_key k m) (gone k m) (Distinct-drop_key k m d),
  Ascending-insert k t (drop_key k m) (Ascending-drop_key k m a),
)

pub Tidy-zrem : (k : ℕ) (m : List (ℕ × ℕ)) → Tidy m → Tidy (drop_key k m)
Tidy-zrem k m (d, a) = (Distinct-drop_key k m d, Ascending-drop_key k m a)

pub Tidy-later : (cutoff : ℕ) (m : List (ℕ × ℕ)) → Tidy m → Tidy (later cutoff m)
Tidy-later cutoff m (d, a) = (Distinct-later cutoff m d, Ascending-later cutoff m a)

pub zscore-zadd_lem :
    (k j t : ℕ) (m : List (ℕ × ℕ))
    → lookup k (insert j t (drop_key j m)) ≡ (if k == j then some t else lookup k m)
zscore-zadd_lem k j t m =
    ground (arith, lookup-insert k j t (drop_key j m) (gone j m), lookup-drop_key k j m)

pub zscore-later_lem :
    (k cutoff : ℕ) (z : (m : List (ℕ × ℕ)) × Tidy m)
    → lookup k (later cutoff z.0) ≡ above cutoff (lookup k z.0)
zscore-later_lem k cutoff (m, (d, a)) = lookup-later k cutoff m d

abbrev pub sorted_set : SortedSet
sorted_set = record {
  Set = (m : List (ℕ × ℕ)) × Tidy m;
  zscore = λ k z. lookup k z.0;
  zadd = λ k t z. (insert k t (drop_key k z.0), Tidy-zadd k t z.0 z.1);
  zrem = λ k z. (drop_key k z.0, Tidy-zrem k z.0 z.1);
  zrange = λ z. z.0;
  zremrangebyscore = λ cutoff z. (later cutoff z.0, Tidy-later cutoff z.0 z.1);
  zscore-zadd = λ k j t z. zscore-zadd_lem k j t z.0;
  zscore-zrem = λ k j z. lookup-drop_key k j z.0;
  Distinct-zrange = λ z. z.1.0;
  Ascending-zrange = λ z. z.1.1;
  zrange-zrem = λ j z. refl;
  lookup-zrange = λ k z. refl;
  zscore-zremrangebyscore = zscore-later_lem;
}

abbrev pub nobody : (m : List (ℕ × ℕ)) × Tidy m
nobody = ([], (tt, tt))

-- One user who came at a time.
abbrev pub only : ℕ → ℕ → (m : List (ℕ × ℕ)) × Tidy m
only k t = ((k, t) ∷ [], ((refl, tt), (tt, tt)))

abbrev pub cache : Redis
cache = record {
  waiting_queue = sorted_set;
  room_join_queue = sorted_set;
  desired_gender = keyspace PartnerGender;
  partner = keyspace ℕ;
  chat_start = keyspace ℕ;
  chat_payer = keyspace Bool;
  chat_msg_count = keyspace ℕ;
  secure_chat = keyspace Bool;
  session_id = keyspace ℕ;
  queue_pin = keyspace ℕ;
  active_room = keyspace ℕ;
  room_ui_suppressed = keyspace Bool;
  chat_request = keyspace ChatRequest;
  chat_request_pending = sorted_set;
  chat_request_by_requester = pairs;
}

-- Users 1 and 4 wait: 1 is male, 4 is female, and both want a woman; 2 and 3 chat, and
-- 1 has paid.
abbrev pub busy_store : Store cache
busy_store = record {
  waiting_male = only 1 50;
  waiting_female = only 4 60;
  joining_male = nobody;
  joining_female = nobody;
  joining_any = nobody;
  desired_gender = λ k. if (k == 1) || (k == 4) then some PartnerGender.female else none;
  partner = λ k. if k == 2 then some 3 else if k == 3 then some 2 else none;
  chat_start = λ k. none;
  chat_payer = λ k. if k == 1 then some true else none;
  chat_msg_count = λ lo hi. none;
  secure_chat = λ k. none;
  session_id = λ k. none;
  queue_pin = λ k. none;
  active_room = λ k. none;
  room_ui_suppressed = λ k. none;
  chat_request = λ k. none;
  chat_request_pending = nobody;
  chat_request_by_requester = [];
}

-- Nobody waits and nobody chats.
abbrev pub empty_store : Store cache
empty_store = record busy_store {
  waiting_male = nobody;
  waiting_female = nobody;
  desired_gender = λ k. none;
  partner = λ k. none;
  chat_payer = λ k. none;
}
