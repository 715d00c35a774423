-- ===== src/Spam/Bursts.antt =====
-- How many calls fit into one window.
use bluechat.Base.{
  ℕ, ◌+◌, ◌-◌, ◌≤◌, ◌<◌, ◌≡◌, inl, inr, true, false, ◌&&◌, List, [], ◌∷◌, ◌==◌, leb, arith,
  Bool-cases, length, elem, eq_of_test,
}
use bluechat.Spam.{Window, sliding_window}

-- Times, the newest first, no two the same, all in the `window` ticks after `start`.
abbrev pub Burst : ℕ → ℕ → List ℕ → Type 0
Burst start window [] = Unit {0}
Burst start window (t ∷ ts) =
    (start < t) × (t ≤ start + window) × (elem t ts ≡ false) × Burst start window ts

module _ (c : Window) (limit window : ℕ) where
  -- The window of a user after calls at these times, from nothing.
  unfoldable pub calls : List ℕ → c.Set
  calls [] = c.empty
  calls (t ∷ ts) = (sliding_window c limit window t (calls ts)).0

  elem_start : (start t : ℕ) (ts : List ℕ) → Burst start window ts → elem t ts ≡ true → start < t
  elem_start start t [] b e = cc
  elem_start start t (u ∷ us) (lo, hi, fresh, rest) e = elim (Bool-cases (t == u)) [
    | inl same ↦ rw (eq_of_test t u same) lo
    | inr other ↦ elem_start start t us rest (ground (arith, e, other))
  ]

  calls_lem :
      (start : ℕ) (ts : List ℕ)
      → Burst start window ts
      → ((t : ℕ) → c.has t (calls ts) ≡ elem t ts) × (c.zcard (calls ts) ≡ length ts)
  unfolding calls sliding_window
  calls_lem start [] b = (c.has-empty, c.zcard-empty)
  calls_lem start (u ∷ us) (lo, hi, fresh, rest) =
      let (has, count) = calls_lem start us rest in
      let none_old : (v : ℕ) → (c.has v (calls us) && leb v (u - window)) ≡ false = λ v.
        elim (Bool-cases (elem v us)) [
          | inl e ↦ ground (arith, has v, elem_start start v us rest e, hi)
          | inr e ↦ ground (arith, has v, e)
        ] in
      let z : c.Set = c.zremrangebyscore (u - window) (calls us) in
      (
        λ v. ground (
          arith,
          c.has-zadd v u z,
          c.has-zremrangebyscore v (u - window) (calls us),
          none_old v,
          has v,
        ),
        ground (
          arith,
          c.zcard-zadd u z,
          c.has-zremrangebyscore u (u - window) (calls us),
          c.zcard-zremrangebyscore (u - window) (calls us) none_old,
          has u,
          fresh,
          count,
        ),
      )

  -- Of calls at different times within one window, from nothing, the one that comes after `ts`
  -- passes exactly if with it there are no more than the limit.
  pub sliding_window-calls :
      (start t : ℕ) (ts : List ℕ)
      → Burst start window (t ∷ ts)
      → (sliding_window c limit window t (calls ts)).1 ≡ leb (length ts + 1) limit
  unfolding calls sliding_window
  sliding_window-calls start t ts b = ground (arith, (calls_lem start (t ∷ ts) b).1)
