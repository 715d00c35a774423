-- ===== src/Chat/Exclusive/Lobbies.antt =====
-- What the steps of the chat rooms do to those who are held by a room, and to the 1:1 chat.
use bluechat.Base.{
  ℕ, ◌≡◌, refl, ◌∙◌, inl, inr, Bool, true, false, not, ◌&&◌, List, [], ◌∷◌, ◌==◌, is_some, arith,
  Option-cases, Bool-cases,
}
use bluechat.Db.Models.{Database}
use bluechat.Db.Rooms.Arrivals.{Arrivals}
use bluechat.Redis.Keys.{RoomBucket, Redis, Store}
use bluechat.Redis.Queue.{waits_in, is_waiting}
use bluechat.Redis.RoomQueue.{enqueue_room_join, dequeue_room_join, is_waiting_room_join}
use bluechat.Chat.RoomSearch.{Lobby, set_active_room}
use bluechat.Chat.Filling.{
  redis_conflict_check, get_active_room, clear_active_room, clear_all, suppress_room_ui,
  unsuppress_room_ui, suppress_all,
}
use bluechat.Chat.RoomJobs.{set_missing}
use bluechat.Chat.Exclusive.{engaged, held, Exclusive}

module _ (d : Database) (c : Redis) where
  abbrev pub seeks : ℕ → Store c → Bool
  seeks j s = is_some (is_waiting_room_join c j s)

  -- The 1:1 chat as it was, and nobody newly held who is engaged in it.
  pub record Calm (w w' : Lobby d c) : Type 0 where
    pub same : (j : ℕ) → engaged d c j w'.redis ≡ engaged d c j w.redis
    pub free :
        (j : ℕ)
        → (held d c j w'.db w'.redis && not (held d c j w.db w.redis) && engaged d c j w.redis)
          ≡ false

  pub then-Calm : (w w1 w2 : Lobby d c) → Calm w w1 → Calm w1 w2 → Calm w w2
  then-Calm w w1 w2 a b = record {
    same = λ j. b.same j ∙ a.same j;
    free = λ j. ground (arith, a.free j, b.free j, a.same j);
  }

  pub Calm-Exclusive :
      (w w' : Lobby d c) → Calm w w' → Exclusive d c w.db w.redis → Exclusive d c w'.db w'.redis
  Calm-Exclusive w w' calm v j = ground (arith, calm.same j, calm.free j, v j)

  -- Newcomers to the rooms, or to the queue for one, who are not engaged.
  pub arrive-Calm :
      (newcomer : ℕ → Bool) (w w' : Lobby d c)
      → ((j : ℕ) → engaged d c j w'.redis ≡ engaged d c j w.redis)
      → Arrivals d newcomer w.db w'.db
      → ((j : ℕ) → newcomer j ≡ false → (seeks j w'.redis && not (seeks j w.redis)) ≡ false)
      → ((j : ℕ) → newcomer j ≡ true → engaged d c j w.redis ≡ false)
      → Calm w w'
  arrive-Calm newcomer w w' same arrivals fewer idle = record {
    same = same;
    free = λ j. elim (Bool-cases (newcomer j)) [
      | inl new ↦ ground (arith, idle j new)
      | inr old ↦ ground (arith, arrivals j old, fewer j old)
    ];
  }

  pub engaged-dequeue_room_join :
      (j k : ℕ) (g : RoomBucket) (s : Store c)
      → engaged d c j (dequeue_room_join c k g s).0 ≡ engaged d c j s
  unfolding dequeue_room_join is_waiting waits_in
  engaged-dequeue_room_join j k RoomBucket.male s = refl
  engaged-dequeue_room_join j k RoomBucket.female s = refl
  engaged-dequeue_room_join j k RoomBucket.any s = refl

  pub seeks-dequeue_room_join :
      (j k : ℕ) (g : RoomBucket) (s : Store c)
      → (seeks j (dequeue_room_join c k g s).0 && not (seeks j s)) ≡ false
  unfolding dequeue_room_join is_waiting_room_join
  seeks-dequeue_room_join j k RoomBucket.male s =
      ground (arith, c.room_join_queue.zscore-zrem j k s.joining_male)
  seeks-dequeue_room_join j k RoomBucket.female s =
      ground (arith, c.room_join_queue.zscore-zrem j k s.joining_female)
  seeks-dequeue_room_join j k RoomBucket.any s =
      ground (arith, c.room_join_queue.zscore-zrem j k s.joining_any)

  pub engaged-enqueue_room_join :
      (j k : ℕ) (g : RoomBucket) (now : ℕ) (s : Store c)
      → engaged d c j (enqueue_room_join c k g now s) ≡ engaged d c j s
  unfolding enqueue_room_join is_waiting waits_in
  engaged-enqueue_room_join j k RoomBucket.male now s = refl
  engaged-enqueue_room_join j k RoomBucket.female now s = refl
  engaged-enqueue_room_join j k RoomBucket.any now s = refl

  pub seeks-enqueue_room_join :
      (j k : ℕ) (g : RoomBucket) (now : ℕ) (s : Store c)
      → j == k ≡ false
      → seeks j (enqueue_room_join c k g now s) ≡ seeks j s
  unfolding enqueue_room_join is_waiting_room_join
  seeks-enqueue_room_join j k RoomBucket.male now s other =
      ground (arith, other, c.room_join_queue.zscore-zadd j k now s.joining_male)
  seeks-enqueue_room_join j k RoomBucket.female now s other =
      ground (arith, other, c.room_join_queue.zscore-zadd j k now s.joining_female)
  seeks-enqueue_room_join j k RoomBucket.any now s other =
      ground (arith, other, c.room_join_queue.zscore-zadd j k now s.joining_any)

  -- Another store, in which the 1:1 chat and the queue for a room are the same.
  pub record Aside (s s' : Store c) : Type 0 where
    pub same : (j : ℕ) → engaged d c j s' ≡ engaged d c j s
    pub seeking : (j : ℕ) → seeks j s' ≡ seeks j s

  then-Aside : (s s1 s2 : Store c) → Aside s s1 → Aside s1 s2 → Aside s s2
  then-Aside s s1 s2 a b = record {
    same = λ j. b.same j ∙ a.same j;
    seeking = λ j. b.seeking j ∙ a.seeking j;
  }

  pub clear_all-Aside : (ks : List ℕ) (s : Store c) → Aside s (clear_all d c ks s)
  unfolding clear_all clear_active_room is_waiting waits_in is_waiting_room_join
  clear_all-Aside [] s = record { same = λ j. refl; seeking = λ j. refl }
  clear_all-Aside (k ∷ ks) s =
      let rest = clear_all-Aside ks (clear_active_room d c k s) in
      record { same = rest.same; seeking = rest.seeking }

  pub suppress_all-Aside :
      (away : Bool) (ks : List ℕ) (s : Store c) → Aside s (suppress_all d c away ks s)
  unfolding suppress_all suppress_room_ui unsuppress_room_ui is_waiting waits_in
      is_waiting_room_join
  suppress_all-Aside away [] s = record { same = λ j. refl; seeking = λ j. refl }
  suppress_all-Aside true (k ∷ ks) s =
      let rest = suppress_all-Aside true ks (suppress_room_ui d c k s) in
      record { same = rest.same; seeking = rest.seeking }
  suppress_all-Aside false (k ∷ ks) s =
      let rest = suppress_all-Aside false ks (unsuppress_room_ui d c k s) in
      record { same = rest.same; seeking = rest.seeking }

  pub set_missing-Aside : (rs : List (ℕ × ℕ)) (s : Store c) → Aside s (set_missing d c rs s)
  unfolding set_missing set_active_room is_waiting waits_in is_waiting_room_join
  set_missing-Aside [] s = record { same = λ j. refl; seeking = λ j. refl }
  set_missing-Aside ((k, r) ∷ rs) s = elim (Option-cases (get_active_room d c k s)) [
    | inl missing ↦
        let rest = set_missing-Aside rs (set_active_room d c k r s) in
        rw (missing, set_missing) (record { same = rest.same; seeking = rest.seeking })
    | inr (q, there) ↦ rw (there, set_missing) (set_missing-Aside rs s)
  ]

  -- Without arrivals, and with the rest of Redis aside.
  pub Aside-Calm :
      (w w' : Lobby d c) → Arrivals d (λ j. false) w.db w'.db → Aside w.redis w'.redis → Calm w w'
  Aside-Calm w w' arrivals aside =
      arrive-Calm (λ j. false) w w' aside.same arrivals (λ j other. ground (arith, aside.seeking j))
        (λ j new. ground (arith, new))

  pub redis_conflict_check-engaged :
      (k : ℕ) (s : Store c) → is_some (redis_conflict_check d c k s) ≡ engaged d c k s
  unfolding redis_conflict_check
  redis_conflict_check-engaged k s = ground arith
