-- ===== src/Chat/Refunds.antt =====
-- What a search costs that ends without a partner.
use bluechat.Base.{
  ℕ, ◌+◌, ◌-◌, ◌≤◌, ltb, ◌≡◌, refl, ◌∙◌, ap, inl, inr, Bool, true, false, not, ◌&&◌, Option, none,
  some, ◌==◌, if◌then◌else◌, is_some, arith, Option-cases, Bool-cases, List, [], ◌∷◌, elem,
}
use bluechat.Base.Int.{neg}
use bluechat.Db.Models.{Database, State, User, RoomGenderPref, Reason}
use bluechat.Db.Users.{get_user, save_user, count_chat, increment_total_chats}
use bluechat.Db.Coins.{book, deduct_coins, refund_coins}
use bluechat.Db.Coins.Balance.{balance}
use bluechat.Redis.Keys.{PartnerGender, Redis, Store, chat_coin_cost}
use bluechat.Redis.Queue.{
  user_gender_str, waits_in, is_waiting, leave_queue, dequeue, atomic_match_or_enqueue,
}
use bluechat.Redis.Queue.Matching.{is_waiting-leave_queue}
use bluechat.Redis.Partners.{
  get_partner, clear_partner, pop_queue_pin_message, is_chat_payer, set_chat_payer,
  clear_chat_payer,
}
use bluechat.Chat.World.{World, Notice, desired_of, drop_all, send, with_redis}
use bluechat.Chat.Matching.{
  unpin_queue_message, wait_for_partner, begin_chat, after_search, after_payment, try_match,
  pay_and_match, refund_search, queue_timeout_job, saved_pref,
}
use bluechat.Chat.Session.{end_chat, stop_chat, next_chat, search_again}

pub elem-drop_all : (k j : ℕ) (js : List ℕ) → elem j (drop_all k js) ≡ (not (j == k) && elem j js)
elem-drop_all k j [] = ground arith
elem-drop_all k j (i ∷ is) = ground (arith, elem-drop_all k j is)

module _ (d : Database) (c : Redis) where
  abbrev pub coins_of : ℕ → World d c → ℕ
  coins_of k w = balance (get_user d k w.db)

  -- The search of `k` is over: he has left the queue, his time-out is gone, he is no payer, and
  -- the price of a paid search is back.
  abbrev pub SearchCancelled : ℕ → World d c → World d c → Type 0
  SearchCancelled k w w' =
      (is_waiting c k w'.redis ≡ false)
      × (elem k w'.timeouts ≡ false)
      × (is_chat_payer c k w'.redis ≡ false)
      × (coins_of k w' ≡ coins_of k w + (if is_chat_payer c k w.redis then chat_coin_cost else 0))

  pub coins-refund_coins :
      (k amount : ℕ) (r : Reason) (s : State d)
      → is_some (get_user d k s) ≡ true
      → balance (get_user d k (refund_coins d k amount r s).0) ≡ balance (get_user d k s) + amount
  unfolding refund_coins book
  coins-refund_coins k amount r s h = elim (Option-cases (get_user d k s)) [
    | inl e ↦ absurd (ground (arith, h, e))
    | inr (u, e) ↦
        rw (e, refund_coins)
          (ground (arith, d.users.get-put k k (record u { coins = u.coins + amount }) s.users))
  ]

  is_waiting-pop :
      (k : ℕ) (s : Store c) → is_waiting c k (pop_queue_pin_message c k s) ≡ is_waiting c k s
  unfolding is_waiting waits_in pop_queue_pin_message
  is_waiting-pop k s = refl

  is_waiting-out :
      (k : ℕ) (s : Store c) → is_waiting c k (pop_queue_pin_message c k (leave_queue c k s)) ≡ false
  is_waiting-out k s =
      is_waiting-pop k (leave_queue c k s) ∙ ground (arith, is_waiting-leave_queue c k k s)

  cancel-SearchCancelled :
      (k : ℕ) (r : Reason) (w : World d c)
      → is_some (get_user d k w.db) ≡ true
      → SearchCancelled k w (
          refund_search d c k r
            (unpin_queue_message d c k (with_redis d c (dequeue c k w.redis).0 w)))
  unfolding unpin_queue_message refund_search dequeue leave_queue pop_queue_pin_message
      clear_chat_payer is_waiting waits_in
  cancel-SearchCancelled k r w known = elim (Bool-cases (is_chat_payer c k w.redis)) [
    | inl paid ↦
        rw (paid, refund_search)
          (
            is_waiting-out k w.redis,
            ground (arith, elem-drop_all k k w.timeouts),
            ground (arith, c.chat_payer.get-del k k w.redis.chat_payer),
            coins-refund_coins k chat_coin_cost r w.db known,
          )
    | inr free ↦
        rw (free, refund_search)
          (
            is_waiting-out k w.redis,
            ground (arith, elem-drop_all k k w.timeouts),
            free,
            ground arith,
          )
  ]

  -- A known user who cancels a search with `stop_chat` leaves the queue, his time-out is dropped,
  -- and exactly if he had paid for the search its price is back and he is no payer any more.
  pub stop_chat-SearchCancelled :
      (k : ℕ) (w : World d c)
      → is_some (get_user d k w.db) ≡ true
      → is_waiting c k w.redis ≡ true
      → SearchCancelled k w (stop_chat d c k w)
  unfolding stop_chat
  stop_chat-SearchCancelled k w known there =
      rw (there, stop_chat) (cancel-SearchCancelled k Reason.search_cancel_refund w known)

  -- The time-out of a known user who still waits does the same.
  pub queue_timeout_job-SearchCancelled :
      (k : ℕ) (w : World d c)
      → is_some (get_user d k w.db) ≡ true
      → is_waiting c k w.redis ≡ true
      → SearchCancelled k w (queue_timeout_job d c k w)
  unfolding queue_timeout_job
  queue_timeout_job-SearchCancelled k w known there =
      rw (there, queue_timeout_job) (cancel-SearchCancelled k Reason.search_timeout_refund w known)

  pub coins-increment_total_chats :
      (k : ℕ) (ks : List ℕ) (s : State d)
      → balance (get_user d k (increment_total_chats d ks s)) ≡ balance (get_user d k s)
  unfolding increment_total_chats count_chat
  coins-increment_total_chats k [] s = refl
  coins-increment_total_chats k (j ∷ js) s = elim (Option-cases (get_user d j s)) [
    | inl e ↦ rw (e, count_chat) (coins-increment_total_chats k js s)
    | inr (u, e) ↦
        rw (e, count_chat)
          (coins-increment_total_chats k js
              (save_user d j (record u { total_chats = u.total_chats + 1 }) s)
            ∙ ground
                (arith, d.users.get-put k j (record u { total_chats = u.total_chats + 1 }) s.users))
  ]

  coins-after_search :
      (k : ℕ) (pinned : Option ℕ) (now : ℕ) (w : World d c) (answer : Store c × Bool × Option ℕ)
      → coins_of k (after_search d c k pinned now w answer).0 ≡ coins_of k w
  unfolding after_search wait_for_partner begin_chat unpin_queue_message
  coins-after_search k pinned now w (r, false, found) = refl
  coins-after_search k pinned now w (r, true, none) = refl
  coins-after_search k pinned now w (r, true, some p) = coins-increment_total_chats k (k ∷ p ∷ []) _

  coins-after_payment :
      (k : ℕ) (g : PartnerGender) (pinned : Option ℕ) (now : ℕ) (w : World d c) (s : State d)
      (left : ℕ)
      → coins_of k (after_payment d c k g pinned now w (s, some left)) ≡ balance (get_user d k s)
  unfolding after_payment try_match
  coins-after_payment k g pinned now w s left =
      let marked : World d c = record w { db = s; redis = set_chat_payer c k w.redis } in
      let out : World d c = send d c k Notice.searching marked in
      coins-after_search k pinned now out
        (atomic_match_or_enqueue c k (user_gender_str d k s) (some g) now out.redis)

  coins-pay_and_match :
      (k : ℕ) (g : PartnerGender) (pinned : Option ℕ) (now : ℕ) (w : World d c) (u : User)
      → get_user d k w.db ≡ some u
      → chat_coin_cost ≤ u.coins
      → coins_of k (pay_and_match d c k (some g) pinned now w) + chat_coin_cost ≡ u.coins
  unfolding pay_and_match deduct_coins book
  coins-pay_and_match k g pinned now w u known rich =
      let paid : State d =
        book d k u (u.coins - chat_coin_cost) (neg chat_coin_cost) Reason.gender_search w.db in
      let enough : ltb u.coins chat_coin_cost ≡ false = ground (arith, rich) in
      rw (known, enough, deduct_coins)
        (ground (
          arith,
          rich,
          coins-after_payment k g pinned now w paid (u.coins - chat_coin_cost),
          d.users.get-put k k (record u { coins = u.coins - chat_coin_cost }) w.db.users,
        ))

  end_chat_alone :
      (told : Bool) (k : ℕ) (w : World d c)
      → get_partner c k w.redis ≡ none
      → end_chat d c told k w ≡ (with_redis d c (clear_partner c k w.redis).0 w, none)
  unfolding end_chat
  end_chat_alone told k w alone = rw (alone, end_chat) refl

  -- `next_chat` by a user who already waits in a search that he has paid for, and who has not
  -- saved "any": he pays for the new search, and the price of the one that it ends does not come
  -- back.
  pub next_chat_unrefunded :
      (k : ℕ) (pinned : Option ℕ) (now : ℕ) (w : World d c) (u : User) (choice : RoomGenderPref)
      (g : PartnerGender)
      → get_partner c k w.redis ≡ none
      → is_waiting c k w.redis ≡ true
      → is_chat_payer c k w.redis ≡ true
      → get_user d k w.db ≡ some u
      → u.next_gender_pref ≡ some choice
      → desired_of choice ≡ some g
      → chat_coin_cost ≤ u.coins
      → coins_of k (next_chat d c k pinned now w) + chat_coin_cost ≡ coins_of k w
  unfolding next_chat dequeue saved_pref search_again
  next_chat_unrefunded k pinned now w u choice g alone there paid known saved wants rich =
      let out : World d c = with_redis d c (leave_queue c k (clear_partner c k w.redis).0) w in
      rw (ap (λ t. t.0) (end_chat_alone false k w alone), next_chat)
        (rw (known, saved, wants, search_again)
          (coins-pay_and_match k g pinned now out u known rich))
