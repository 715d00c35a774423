-- ===== src/Examples/Queue.antt =====
-- Searches in a small queue.
use bluechat.Base.{ℕ, ◌≡◌, refl, true, none, some, arith}
use bluechat.Db.Models.{RoomGenderPref}
use bluechat.Redis.RoomQueue.{compatible_buckets, peek_oldest_room_join_candidate}
use bluechat.Redis.RoomQueue.Oldest.{
  is_from, Stands, NobodyEarlier, peek_oldest_room_join_candidate-NobodyEarlier,
}
use bluechat.Redis.Keys.{PartnerGender, Store}
use bluechat.Redis.Queue.{match_or_enqueue}
use bluechat.Redis.Queue.Matching.{Matched, match_or_enqueue-Matched, match_or_enqueue_second}
use bluechat.Examples.Cache.{cache, only, busy_store, empty_store}

match_or_enqueue-Matched_example :
    Matched cache 9 PartnerGender.female
      (some PartnerGender.male)
      busy_store
      (match_or_enqueue cache 9 PartnerGender.female (some PartnerGender.male) 70 busy_store)
match_or_enqueue-Matched_example =
    match_or_enqueue-Matched cache 9 PartnerGender.female (some PartnerGender.male) 70 busy_store

nobody_yet :
    (match_or_enqueue cache 5 PartnerGender.male (some PartnerGender.female) 10 empty_store).1
    ≡ none
unfolding match_or_enqueue
nobody_yet = refl

match_or_enqueue_second_example :
    (k : ℕ) × ((match_or_enqueue cache 6 PartnerGender.female none 20
        (match_or_enqueue cache 5 PartnerGender.male
          (some PartnerGender.female)
          10
          empty_store).0).1
      ≡ some k)
match_or_enqueue_second_example =
    match_or_enqueue_second cache 5 6 PartnerGender.male PartnerGender.female
      (some PartnerGender.female) none 10 20 empty_store (omega arith) refl refl nobody_yet

-- 8 has waited for any room since 30, 9 for a room for men since 20.
abbrev room_seekers : Store cache
room_seekers = record empty_store { joining_any = only 8 30; joining_male = only 9 20 }

peek_oldest_room_join_candidate-NobodyEarlier_example :
    let found =
      peek_oldest_room_join_candidate cache (compatible_buckets RoomGenderPref.male) room_seekers in
    (is_from (compatible_buckets RoomGenderPref.male) found ≡ true)
    × Stands cache room_seekers found
    × NobodyEarlier cache (compatible_buckets RoomGenderPref.male) room_seekers found
peek_oldest_room_join_candidate-NobodyEarlier_example =
    peek_oldest_room_join_candidate-NobodyEarlier cache (compatible_buckets RoomGenderPref.male)
      room_seekers
