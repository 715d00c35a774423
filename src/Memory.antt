-- ===== src/Memory.antt =====
-- Tables held in memory, which meet the laws that the model asks of the database.
use Prim.Native.Nat.{max}
use bluechat.Base.{
  drop_key, Distinct, lookup-drop_key, Distinct-drop_key, ==-refl, ℕ, suc, ◌+◌, ◌≤◌, ◌≡◌, refl,
  Bool, false, not, ◌&&◌, ◌||◌, none, List, [], ◌∷◌, ◌==◌, if◌then◌else◌, elem, length, lookup,
  arith,
}
use bluechat.Db.Tables.{Table, Journal, Pairs}
use bluechat.Db.Models.{Database, User, ChatRoom, ChatSession, CoinTransaction, Warning}

module _ {V : Type 0} where
  abbrev above_all : List (ℕ × V) → ℕ
  above_all [] = 0
  above_all ((j, v) ∷ m) = max (suc j) (above_all m)

  lookup_above : (k : ℕ) (m : List (ℕ × V)) → above_all m ≤ k → lookup k m ≡ none
  lookup_above k [] h = refl
  lookup_above k ((j, v) ∷ m) h = ground (arith, lookup_above k m (omega arith))

  pub lookup_next : (m : List (ℕ × V)) → lookup (above_all m) m ≡ none
  lookup_next m = lookup_above (above_all m) m (omega arith)

  -- The last row written under each key.
  abbrev pub all_rows : List (ℕ × V) → List (ℕ × V)
  all_rows [] = []
  all_rows ((k, v) ∷ m) = (k, v) ∷ drop_key k (all_rows m)

  pub lookup-all_rows : (k : ℕ) (m : List (ℕ × V)) → lookup k (all_rows m) ≡ lookup k m
  lookup-all_rows k [] = refl
  lookup-all_rows k ((j, v) ∷ m) =
      ground (arith, lookup-all_rows k m, lookup-drop_key k j (all_rows m))

  pub Distinct-all_rows : (m : List (ℕ × V)) → Distinct (all_rows m)
  Distinct-all_rows [] = tt
  Distinct-all_rows ((k, v) ∷ m) = (
    ground (arith, lookup-drop_key k k (all_rows m), ==-refl k),
    Distinct-drop_key k (all_rows m) (Distinct-all_rows m),
  )

abbrev pub table : (V : Type 0) → Table V
table V = record {
  Rows = List (ℕ × V);
  get = lookup;
  put = λ k v m. (k, v) ∷ m;
  next_id = above_all;
  rows = all_rows;
  get-put = λ k j v m. refl;
  get-next_id = lookup_next;
  lookup-rows = lookup-all_rows;
  Distinct-rows = Distinct-all_rows;
}

abbrev pub journal : (V : Type 0) → Journal V
journal V = record { Rows = List V; add = λ v vs. v ∷ vs; rows = λ vs. vs; rows-add = λ v vs. refl }

abbrev has : ℕ → ℕ → List (ℕ × ℕ) → Bool
has r u [] = false
has r u ((a, b) ∷ m) = ((r == a) && (u == b)) || has r u m

-- A pair that stands twice counts once.
abbrev user_ids : ℕ → List (ℕ × ℕ) → List ℕ
user_ids r [] = []
user_ids r ((a, b) ∷ m) = if (r == a) && not (has a b m) then b ∷ user_ids r m else user_ids r m

abbrev count : ℕ → List (ℕ × ℕ) → ℕ
count r m = length (user_ids r m)

abbrev remove : ℕ → ℕ → List (ℕ × ℕ) → List (ℕ × ℕ)
remove r u [] = []
remove r u ((a, b) ∷ m) = if (r == a) && (u == b) then remove r u m else (a, b) ∷ remove r u m

abbrev clear : ℕ → List (ℕ × ℕ) → List (ℕ × ℕ)
clear r [] = []
clear r ((a, b) ∷ m) = if r == a then clear r m else (a, b) ∷ clear r m

pub has-remove :
    (r u r' u' : ℕ) (m : List (ℕ × ℕ))
    → has r u (remove r' u' m) ≡ (not ((r == r') && (u == u')) && has r u m)
has-remove r u r' u' [] = ground arith
has-remove r u r' u' ((a, b) ∷ m) = ground (arith, has-remove r u r' u' m)

pub has-clear :
    (r u r' : ℕ) (m : List (ℕ × ℕ)) → has r u (clear r' m) ≡ (not (r == r') && has r u m)
has-clear r u r' [] = ground arith
has-clear r u r' ((a, b) ∷ m) = ground (arith, has-clear r u r' m)

pub count-insert :
    (r r' u' : ℕ) (m : List (ℕ × ℕ))
    → has r' u' m ≡ false
    → count r ((r', u') ∷ m) ≡ (if r == r' then count r m + 1 else count r m)
count-insert r r' u' m h = ground arith

pub count-remove :
    (r r' u' : ℕ) (m : List (ℕ × ℕ))
    → count r (remove r' u' m) + (if (r == r') && has r' u' m then 1 else 0) ≡ count r m
count-remove r r' u' [] = ground arith
count-remove r r' u' ((a, b) ∷ m) = ground (arith, count-remove r r' u' m, has-remove a b r' u' m)

pub count-clear :
    (r r' : ℕ) (m : List (ℕ × ℕ)) → count r (clear r' m) ≡ (if r == r' then 0 else count r m)
count-clear r r' [] = ground arith
count-clear r r' ((a, b) ∷ m) = ground (arith, count-clear r r' m, has-clear a b r' m)

pub elem-user_ids : (r u : ℕ) (m : List (ℕ × ℕ)) → elem u (user_ids r m) ≡ has r u m
elem-user_ids r u [] = refl
elem-user_ids r u ((a, b) ∷ m) = ground (arith, elem-user_ids r u m)

abbrev pub pairs : Pairs
pairs = record {
  Rows = List (ℕ × ℕ);
  has = has;
  count = count;
  user_ids = user_ids;
  insert = λ r u m. (r, u) ∷ m;
  remove = remove;
  clear = clear;
  has-insert = λ r u r' u' m. refl;
  has-remove = has-remove;
  has-clear = has-clear;
  count-insert = count-insert;
  count-remove = count-remove;
  count-clear = count-clear;
  elem-user_ids = elem-user_ids;
  length-user_ids = λ r m. refl;
}

abbrev pub memory : Database
memory = record {
  users = table User;
  rooms = table ChatRoom;
  sessions = table ChatSession;
  members = pairs;
  blocked = pairs;
  transactions = journal CoinTransaction;
  warnings = journal Warning;
}
