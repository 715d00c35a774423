-- ===== src/Redis/Partners/Pairing.antt =====
-- Who is paired with whom, and who waits.
use bluechat.Base.{
  ℕ, ◌≡◌, ◌≢◌, refl, inl, inr, Bool, false, ◌&&◌, ◌||◌, Option, none, some, ◌==◌, if◌then◌else◌,
  is_some, is_id, arith, Option-cases,
}
use bluechat.Redis.Keys.{Redis, Store}
use bluechat.Redis.Queue.{waits_in, is_waiting}
use bluechat.Redis.Partners.{get_partner, set_partner, clear_partner, drop_chat}

-- Stated of what can be read, so that it passes to any store that reads alike.
pub record PairsInv (partner : ℕ → Option ℕ) (waits : ℕ → Bool) : Type 0 where
  pub symmetric : (a b : ℕ) → is_id b (partner a) ≡ is_id a (partner b)
  pub apart : (a : ℕ) → is_id a (partner a) ≡ false
  pub free : (a : ℕ) → (waits a && is_some (partner a)) ≡ false

module _ (c : Redis) where
  abbrev pub Paired : Store c → Type 0
  Paired s = PairsInv (λ k. get_partner c k s) (λ k. is_waiting c k s)

  pub get_partner-set_partner :
      (j a b now : ℕ) (s : Store c)
      → get_partner c j (set_partner c a b now s)
        ≡ (if j == b then some a else if j == a then some b else get_partner c j s)
  unfolding set_partner
  get_partner-set_partner j a b now s = ground (
    arith,
    c.partner.get-set j b a (c.partner.set a b s.partner),
    c.partner.get-set j a b s.partner,
  )

  pub is_waiting-set_partner :
      (j a b now : ℕ) (s : Store c) → is_waiting c j (set_partner c a b now s) ≡ is_waiting c j s
  unfolding set_partner is_waiting waits_in
  is_waiting-set_partner j a b now s = refl

  -- Two users who wait for nothing and have no partner become a pair.
  pub set_partner-Paired :
      (a b now : ℕ) (s : Store c)
      → a ≢ b
      → get_partner c a s ≡ none
      → get_partner c b s ≡ none
      → is_waiting c a s ≡ false
      → is_waiting c b s ≡ false
      → Paired s
      → Paired (set_partner c a b now s)
  set_partner-Paired a b now s ne fa fb wa wb v = record {
    symmetric = λ x y. ground (
      arith,
      get_partner-set_partner x a b now s,
      get_partner-set_partner y a b now s,
      v.symmetric x y,
      v.symmetric x a,
      v.symmetric x b,
      v.symmetric a y,
      v.symmetric b y,
    );
    apart = λ x. ground (arith, get_partner-set_partner x a b now s, v.apart x);
    free = λ x.
        ground (
          arith,
          get_partner-set_partner x a b now s,
          is_waiting-set_partner x a b now s,
          v.free x,
        );
  }

  pub get_partner-clear_partner :
      (j k : ℕ) (s : Store c)
      → Paired s
      → get_partner c j (clear_partner c k s).0
        ≡ (if (j == k) || is_id j (get_partner c k s) then none else get_partner c j s)
  unfolding clear_partner drop_chat
  get_partner-clear_partner j k s v = elim (Option-cases (get_partner c k s)) [
    | inl e ↦ rw (e, clear_partner) (ground (arith, c.partner.get-del j k s.partner))
    | inr (p, e) ↦
        rw (e, clear_partner)
          (ground (
            arith,
            c.partner.get-del j p (c.partner.del k s.partner),
            c.partner.get-del j k s.partner,
          ))
  ]

  pub is_waiting-clear_partner :
      (j k : ℕ) (s : Store c) → is_waiting c j (clear_partner c k s).0 ≡ is_waiting c j s
  unfolding clear_partner drop_chat is_waiting waits_in
  is_waiting-clear_partner j k s = elim (Option-cases (get_partner c k s)) [
    | inl e ↦ rw (e, clear_partner) refl
    | inr (p, e) ↦ rw (e, clear_partner) refl
  ]

  -- Ending a chat frees both sides.
  pub clear_partner-Paired : (k : ℕ) (s : Store c) → Paired s → Paired (clear_partner c k s).0
  clear_partner-Paired k s v = record {
    symmetric = λ x y. ground (
      arith,
      get_partner-clear_partner x k s v,
      get_partner-clear_partner y k s v,
      v.symmetric x y,
      v.symmetric x k,
      v.symmetric k y,
    );
    apart = λ x. ground (arith, get_partner-clear_partner x k s v, v.apart x);
    free = λ x.
        ground (arith, get_partner-clear_partner x k s v, is_waiting-clear_partner x k s, v.free x);
  }
