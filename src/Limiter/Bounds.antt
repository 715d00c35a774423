-- ===== src/Limiter/Bounds.antt =====
-- How many tokens the bucket can give, and how long one waits for it.
use Prim.Native.Nat.{◌*◌}
use native.Mathlib.Nat.{add-mul}
use bluechat.Base.{
  ℕ, ◌+◌, ◌-◌, ◌≤◌, ◌≡◌, refl, sym, ap, ◌∙◌, inl, inr, true, none, some, List, [], ◌∷◌, leb, min,
  arith, Bool-cases,
}
use bluechat.Limiter.{TokenBucket, refill, turn, granted, turns}

-- The times do not run backwards, from a first time on.
abbrev pub Ascending : ℕ → List ℕ → Type 0
Ascending t [] = Unit {0}
Ascending t (now ∷ later) = (t ≤ now) × Ascending now later

elapsed : (t now rate : ℕ) → t ≤ now → (now - t) * rate + t * rate ≡ now * rate
elapsed t now rate h = sym (add-mul (now - t) t rate) ∙ ap (λ n. n * rate) (omega (arith, h))

spent :
    (unit capacity tokens x y z : ℕ)
    → x + y ≡ z
    → leb unit (min capacity (tokens + x)) ≡ true
    → min capacity (tokens + x) - unit + 1 * unit + y ≤ tokens + z
spent unit capacity tokens x y z e rich = ground (arith, e, rich)

kept :
    (unit capacity tokens x y z : ℕ)
    → x + y ≡ z
    → min capacity (tokens + x) + 0 * unit + y ≤ tokens + z
kept unit capacity tokens x y z e = ground (arith, e)

module _ (unit rate capacity : ℕ) where
  last-turn : (now : ℕ) (b : TokenBucket) → (turn unit rate capacity now b).0.last ≡ now
  unfolding turn refill
  last-turn now b = elim (Bool-cases (leb unit (refill unit rate capacity now b).tokens)) [
    | inl rich ↦ rw (rich, turn) refl
    | inr poor ↦ rw (poor, turn) refl
  ]

  -- No turn makes parts out of nothing.
  turn_bound :
      (now : ℕ) (b : TokenBucket)
      → b.last ≤ now
      → let (after, answer) = turn unit rate capacity now b in
        after.tokens + granted unit rate capacity answer * unit + b.last * rate
        ≤ b.tokens + now * rate
  unfolding turn refill
  turn_bound now b h =
      let parts : (now - b.last) * rate + b.last * rate ≡ now * rate = elapsed b.last now rate h in
      elim (Bool-cases (leb unit (refill unit rate capacity now b).tokens)) [
        | inl rich ↦
            rw (rich, turn)
              (spent unit capacity b.tokens ((now - b.last) * rate) (b.last * rate) (now * rate)
                parts rich)
        | inr poor ↦
            rw (poor, turn)
              (kept unit capacity b.tokens ((now - b.last) * rate) (b.last * rate) (now * rate)
                parts)
      ]

  -- However the callers' turns follow each other in time, the tokens that they are given, with the
  -- parts left in the bucket, amount to no more than what was in the bucket and has come since.
  pub turns_bound :
      (times : List ℕ) (b : TokenBucket)
      → Ascending b.last times
      → let (end, count) = turns unit rate capacity times b in
        (end.tokens + count * unit + b.last * rate ≤ b.tokens + end.last * rate)
  unfolding turns
  turns_bound [] b h = omega arith
  turns_bound (now ∷ later) b (h, rest) =
      let (after, answer) = turn unit rate capacity now b in
      let first = turn_bound now b h in
      let others = turns_bound later after (rw (last-turn now b) rest) in
      rw (add-mul (granted unit rate capacity answer) (turns unit rate capacity later after).1 unit)
        (omega (arith, first, others, ap (λ t. t * rate) (last-turn now b)))

  turn_refused :
      (now : ℕ) (b : TokenBucket) (missing : ℕ)
      → (turn unit rate capacity now b).1 ≡ some missing
      → (turn unit rate capacity now b).0.tokens + missing ≡ unit
  unfolding turn
  turn_refused now b missing refused =
      elim (Bool-cases (leb unit (refill unit rate capacity now b).tokens)) [
        | inl rich ↦ absurd (ground (arith, rich, refused))
        | inr poor ↦ rw (poor, turn) (ground (arith, poor, refused))
      ]

  turn_serves :
      (later : ℕ) (b : TokenBucket)
      → unit ≤ capacity
      → unit ≤ b.tokens + (later - b.last) * rate
      → (turn unit rate capacity later b).1 ≡ none
  unfolding turn refill
  turn_serves later b fits come = ground (arith, fits, come)

  -- A turn that is refused tells how many parts are missing: as soon as these have come, and if
  -- nobody else has been served, the next turn gets a token.
  pub turn_retry :
      (now later : ℕ) (b : TokenBucket) (missing : ℕ)
      → unit ≤ capacity
      → (turn unit rate capacity now b).1 ≡ some missing
      → missing ≤ (later - now) * rate
      → (turn unit rate capacity later (turn unit rate capacity now b).0).1 ≡ none
  turn_retry now later b missing fits refused slept =
      let enough = turn_refused now b missing refused in
      turn_serves later (turn unit rate capacity now b).0 fits
        (rw (last-turn now b) (omega (arith, enough, slept)))
