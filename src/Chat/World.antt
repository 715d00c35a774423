-- ===== src/Chat/World.antt =====
-- What a handler reads and writes: the database, Redis, the pending time-outs of the queue by
-- user, and the messages sent, newest first. Of a message the model keeps what it says and not
-- its text or keyboard; a failed delivery, which the handlers log and pass over, sends nothing
-- that is read again. Metrics are left out.
use bluechat.Base.{ℕ, Bool, Option, none, some, List, [], ◌∷◌, ◌==◌, if◌then◌else◌}
use bluechat.Db.Models.{Database, State, RoomGenderPref}
use bluechat.Redis.Keys.{PartnerGender, Redis, Store}

pub data Notice : Type 0 where
  gender_missing queued matched already_in_chat already_waiting onboarding : Notice
  room_conflict room_search_conflict coins_missing searching choose_gender : Notice
  left_queue nobody_found not_in_chat closed_by_ban : Notice
  -- the end of a chat, and whether coins came back
  ended ended_by_partner : Bool → Notice
  history_offer : Option ℕ → Notice
  -- requests for a chat
  own_profile request_limit partner_busy sender_blocked no_such_user silent : Notice
  request_sent request_received request_void sides_busy room_busy : Notice
  request_accepted request_rejected request_undone request_expired : Notice

pub record World (d : Database) (c : Redis) : Type 0 where
  pub db : State d
  pub redis : Store c
  pub timeouts : List ℕ
  pub sent : List (ℕ × Notice)

-- The preference of a search: "any" is no preference.
abbrev pub desired_of : RoomGenderPref → Option PartnerGender
desired_of RoomGenderPref.male = some PartnerGender.male
desired_of RoomGenderPref.female = some PartnerGender.female
desired_of RoomGenderPref.any = none

abbrev pub drop_all : ℕ → List ℕ → List ℕ
drop_all k [] = []
drop_all k (j ∷ js) = if k == j then drop_all k js else j ∷ drop_all k js

module _ (d : Database) (c : Redis) where
  abbrev pub send : ℕ → Notice → World d c → World d c
  send k notice w = record w { sent = (k, notice) ∷ w.sent }

  abbrev pub with_redis : Store c → World d c → World d c
  with_redis s w = record w { redis = s }

  abbrev pub with_db : State d → World d c → World d c
  with_db s w = record w { db = s }
