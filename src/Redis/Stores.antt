-- ===== src/Redis/Stores.antt =====
-- What redis_client.py relies on in Redis. The stores are parameters: each record gives the
-- commands that the module sends to one family of keys, with their documented effect as laws. A
-- key that is given a time to live may also be deleted by the server at any time, which is `del`.
use bluechat.Base.{
  ℕ, ◌≤◌, ◌≡◌, Option, none, some, List, [], ◌∷◌, ◌==◌, leb, if◌then◌else◌, lookup, Distinct,
  drop_key,
}

-- Keys that differ in one id and hold one value: GET, SET and DEL.
pub record Keyspace (V : Type 0) : Type 1 where
  pub Keys : Type 0
  pub get : ℕ → Keys → Option V
  pub set : ℕ → V → Keys → Keys
  pub del : ℕ → Keys → Keys
  pub get-set :
      (k j : ℕ) (v : V) (t : Keys) → get k (set j v t) ≡ (if k == j then some v else get k t)
  pub get-del : (k j : ℕ) (t : Keys) → get k (del j t) ≡ (if k == j then none else get k t)

-- What is left of a score when those up to the cutoff are removed.
abbrev pub above : ℕ → Option ℕ → Option ℕ
above cutoff none = none
above cutoff (some t) = if leb t cutoff then none else some t

-- No score of a range is below a bound; the scores go up.
abbrev pub AtLeast : ℕ → List (ℕ × ℕ) → Type 0
AtLeast t [] = Unit
AtLeast t ((k, u) ∷ m) = (t ≤ u) × AtLeast t m

abbrev pub Ascending : List (ℕ × ℕ) → Type 0
Ascending [] = Unit
Ascending ((k, t) ∷ m) = AtLeast t m × Ascending m

-- One sorted set of user ids, scored by a time stamp: ZSCORE, ZADD, ZREM, ZRANGE 0 -1 WITHSCORES
-- and ZREMRANGEBYSCORE -inf.
pub record SortedSet : Type 1 where
  pub Set : Type 0
  pub zscore : ℕ → Set → Option ℕ
  pub zadd : ℕ → ℕ → Set → Set
  pub zrem : ℕ → Set → Set
  pub zrange : Set → List (ℕ × ℕ)
  pub zremrangebyscore : ℕ → Set → Set
  pub zscore-zadd :
      (k j t : ℕ) (z : Set) → zscore k (zadd j t z) ≡ (if k == j then some t else zscore k z)
  pub zscore-zrem :
      (k j : ℕ) (z : Set) → zscore k (zrem j z) ≡ (if k == j then none else zscore k z)
  pub Distinct-zrange : (z : Set) → Distinct (zrange z)
  pub Ascending-zrange : (z : Set) → Ascending (zrange z)
  pub zrange-zrem : (j : ℕ) (z : Set) → zrange (zrem j z) ≡ drop_key j (zrange z)
  pub lookup-zrange : (k : ℕ) (z : Set) → lookup k (zrange z) ≡ zscore k z
  pub zscore-zremrangebyscore :
      (k cutoff : ℕ) (z : Set) → zscore k (zremrangebyscore cutoff z) ≡ above cutoff (zscore k z)
