-- ===== src/Examples/Limits.antt =====
-- The token bucket and the spam guard on a few calls, with windows held in memory.
use Prim.Native.Nat.{◌*◌}
use bluechat.Base.{
  ℕ, ◌+◌, ◌≤◌, ◌≡◌, refl, Bool, false, not, ◌&&◌, ◌||◌, none, some, List, [], ◌∷◌, ◌==◌, leb,
  if◌then◌else◌, elem, length, arith, ==-refl, eq_of_test,
}
use bluechat.Limiter.{TokenBucket, turn, turns}
use bluechat.Limiter.Bounds.{turns_bound, turn_retry}
use bluechat.Spam.{Window, Guard, SpamResult, sliding_window, check_message, check_command}
use bluechat.Spam.Blocks.{MessageChecked, check_message-MessageChecked, check_message-just_blocked}
use bluechat.Spam.Bursts.{calls, sliding_window-calls}
use bluechat.Examples.Cache.{keyspace}

abbrev zrem : ℕ → List ℕ → List ℕ
zrem cutoff [] = []
zrem cutoff (t ∷ z) = if leb t cutoff then zrem cutoff z else t ∷ zrem cutoff z

elem-zrem : (t cutoff : ℕ) (z : List ℕ) → elem t (zrem cutoff z) ≡ (not (leb t cutoff) && elem t z)
elem-zrem t cutoff [] = ground arith
elem-zrem t cutoff (u ∷ z) = ground (arith, elem-zrem t cutoff z)

length-zrem :
    (cutoff : ℕ) (z : List ℕ)
    → ((t : ℕ) → (elem t z && leb t cutoff) ≡ false)
    → length (zrem cutoff z) ≡ length z
length-zrem cutoff [] h = refl
length-zrem cutoff (u ∷ z) h =
    let tail : (t : ℕ) → (elem t z && leb t cutoff) ≡ false = λ t. ground (arith, h t) in
    ground (arith, h u, ==-refl u, length-zrem cutoff z tail)

abbrev zadd : ℕ → List ℕ → List ℕ
zadd t z = if elem t z then z else t ∷ z

has_added : (t now : ℕ) (z : List ℕ) → elem t (zadd now z) ≡ ((t == now) || elem t z)
has_added t now z = ground (arith, eq_of_test t now)

count_added :
    (now : ℕ) (z : List ℕ) → length (zadd now z) ≡ (if elem now z then length z else length z + 1)
count_added now z = ground arith

abbrev window : Window
window = record {
  Set = List ℕ;
  empty = [];
  has = elem;
  zadd = zadd;
  zremrangebyscore = zrem;
  zcard = length;
  has-empty = λ t. refl;
  zcard-empty = refl;
  has-zadd = has_added;
  zcard-zadd = count_added;
  has-zremrangebyscore = elem-zrem;
  zcard-zremrangebyscore = length-zrem;
}

-- Twelve time stamps of messages are stored for every user.
abbrev busy_guard : Guard window (keyspace Bool)
busy_guard = record {
  block = λ k. none;
  flood = λ k. [];
  rate_msg = λ k. 112 ∷ 111 ∷ 110 ∷ 109 ∷ 108 ∷ 107 ∷ 106 ∷ 105 ∷ 104 ∷ 103 ∷ 102 ∷ 101 ∷ [];
  rate_cmd = λ k. [];
}

check_message-MessageChecked_example :
    MessageChecked window
      (keyspace Bool)
      5
      busy_guard
      (check_message window (keyspace Bool) 5 106 busy_guard)
check_message-MessageChecked_example =
    check_message-MessageChecked window (keyspace Bool) 5 106 busy_guard

too_many : (check_message window (keyspace Bool) 5 100 busy_guard).1 ≡ SpamResult.just_blocked
unfolding check_message
too_many = refl

check_message-just_blocked_example :
    let g' = (check_message window (keyspace Bool) 5 100 busy_guard).0 in
    (check_message window (keyspace Bool) 5 120 g' ≡ (g', SpamResult.already_blocked))
    × (check_command window (keyspace Bool) 5 120 g' ≡ (g', SpamResult.already_blocked))
check_message-just_blocked_example =
    check_message-just_blocked window (keyspace Bool) 5 100 120 busy_guard too_many

abbrev two_calls : List ℕ
two_calls = 7 ∷ 3 ∷ []

sliding_window-calls_example :
    (sliding_window window 2 10 9 (calls window 2 10 two_calls)).1 ≡ leb (length two_calls + 1) 2
sliding_window-calls_example = sliding_window-calls window 2 10 0 9 two_calls (
  omega arith,
  omega arith,
  refl,
  (omega arith, omega arith, refl, (omega arith, omega arith, refl, tt)),
)

-- Tokens of ten parts, of which three come in a tick.
abbrev bucket : TokenBucket
bucket = record { tokens = 20; last = 5 }

turns_bound_example :
    let (end, count) = turns 10 3 20 (5 ∷ 5 ∷ 6 ∷ 9 ∷ []) bucket in
    (end.tokens + count * 10 + 5 * 3 ≤ 20 + end.last * 3)
turns_bound_example =
    turns_bound 10 3 20 (5 ∷ 5 ∷ 6 ∷ 9 ∷ []) bucket
      (omega arith, (omega arith, (omega arith, (omega arith, tt))))

refused : (turn 10 3 20 6 (record { tokens = 2; last = 5 })).1 ≡ some 5
unfolding turn
refused = refl

turn_retry_example : (turn 10 3 20 8 (turn 10 3 20 6 (record { tokens = 2; last = 5 })).0).1 ≡ none
turn_retry_example =
    turn_retry 10 3 20 6 8 (record { tokens = 2; last = 5 }) 5 (omega arith) refused (omega arith)
