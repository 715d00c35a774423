-- ===== src/Db/Tables.antt =====
-- What db/queries.py relies on in the database. The tables are parameters: each record gives the
-- statements that the queries issue, with the documented behaviour of those statements as laws.
-- A `SELECT ... FOR UPDATE` yields the row as committed when the lock is granted, so every
-- operation is a function of one state.
use bluechat.Base.{
  ℕ, ◌+◌, ◌≡◌, Bool, false, not, ◌&&◌, ◌||◌, Option, none, some, List, ◌∷◌, ◌==◌, if◌then◌else◌,
  length, elem, lookup, Distinct,
}

-- Rows by primary key. `next_id` is what AUTOINCREMENT gives the next row, `rows` what a SELECT of
-- the whole table yields.
pub record Table (V : Type 0) : Type 1 where
  pub Rows : Type 0
  pub get : ℕ → Rows → Option V
  pub put : ℕ → V → Rows → Rows
  pub next_id : Rows → ℕ
  pub rows : Rows → List (ℕ × V)
  pub get-put :
      (k j : ℕ) (v : V) (t : Rows) → get k (put j v t) ≡ (if k == j then some v else get k t)
  pub get-next_id : (t : Rows) → get (next_id t) t ≡ none
  pub lookup-rows : (k : ℕ) (t : Rows) → lookup k (rows t) ≡ get k t
  pub Distinct-rows : (t : Rows) → Distinct (rows t)

-- A table that is only appended to, read newest first.
pub record Journal (V : Type 0) : Type 1 where
  pub Rows : Type 0
  pub add : V → Rows → Rows
  pub rows : Rows → List V
  pub rows-add : (v : V) (t : Rows) → rows (add v t) ≡ v ∷ rows t

-- Pairs of numbers under a unique constraint: the room's id and the member's, or the owner of a
-- link and a blocked sender. `remove` and `clear` delete one pair and all pairs of the left id.
pub record Pairs : Type 1 where
  pub Rows : Type 0
  pub has : ℕ → ℕ → Rows → Bool
  pub count : ℕ → Rows → ℕ
  pub user_ids : ℕ → Rows → List ℕ
  pub insert : ℕ → ℕ → Rows → Rows
  pub remove : ℕ → ℕ → Rows → Rows
  pub clear : ℕ → Rows → Rows
  pub has-insert :
      (r u r' u' : ℕ) (m : Rows) → has r u (insert r' u' m) ≡ ((r == r') && (u == u') || has r u m)
  pub has-remove :
      (r u r' u' : ℕ) (m : Rows)
      → has r u (remove r' u' m) ≡ (not ((r == r') && (u == u')) && has r u m)
  pub has-clear : (r u r' : ℕ) (m : Rows) → has r u (clear r' m) ≡ (not (r == r') && has r u m)
  pub count-insert :
      (r r' u' : ℕ) (m : Rows)
      → has r' u' m ≡ false
      → count r (insert r' u' m) ≡ (if r == r' then count r m + 1 else count r m)
  pub count-remove :
      (r r' u' : ℕ) (m : Rows)
      → count r (remove r' u' m) + (if (r == r') && has r' u' m then 1 else 0) ≡ count r m
  pub count-clear :
      (r r' : ℕ) (m : Rows) → count r (clear r' m) ≡ (if r == r' then 0 else count r m)
  pub elem-user_ids : (r u : ℕ) (m : Rows) → elem u (user_ids r m) ≡ has r u m
  pub length-user_ids : (r : ℕ) (m : Rows) → length (user_ids r m) ≡ count r m
