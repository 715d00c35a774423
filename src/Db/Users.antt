-- ===== src/Db/Users.antt =====
-- `get_or_create_user`, the counters and the moderation marks of a user (db/queries.py).
use text.Mathlib.Text.{◌==◌ as str_eq}
use bluechat.Base.{
  ℕ, ◌+◌, Bool, true, false, not, ◌&&◌, ◌||◌, Option, none, some, List, [], ◌∷◌, String, leb,
  if◌then◌else◌,
}
use bluechat.Db.Models.{Database, State, User, Gender, Warning}

-- `given and current != given`: a missing or empty text changes nothing.
abbrev pub differs : Option String → Option String → Bool
differs none current = false
differs (some given) none = not (str_eq given "")
differs (some given) (some current) = not (str_eq given "") && not (str_eq current given)

abbrev pub new_user : Option String → Option String → Option ℕ → User
new_user username first_name invited_by = record {
  username = username;
  first_name = first_name;
  display_name = none;
  gender = Gender.unset;
  age = none;
  coins = 10;
  invited_by = invited_by;
  is_banned = false;
  is_silent = false;
  warning_count = 0;
  next_gender_pref = none;
  total_chats = 0;
  active_room_id = none;
}

module _ (d : Database) where
  -- `user.<column> = ...` and the commit.
  abbrev pub save_user : ℕ → User → State d → State d
  save_user k u s = record s { users = d.users.put k u s.users }

  abbrev pub get_user : ℕ → State d → Option User
  get_user k s = d.users.get k s.users

  unfoldable pub refresh_user : ℕ → User → Option String → Option String → State d → State d
  refresh_user k u username first_name s =
      let named : User =
        if differs username u.username then record u { username = username } else u in
      let fresh : User =
        if differs first_name u.first_name
        then record named { first_name = first_name }
        else named in
      if differs username u.username || differs first_name u.first_name
      then save_user k fresh s
      else s

  unfoldable pub get_or_create_user :
      ℕ → Option String → Option String → Option ℕ → State d → State d
  unfolding refresh_user
  get_or_create_user k username first_name invited_by s = elim (get_user k s) [
    | some u ↦ refresh_user k u username first_name s
    | none ↦ save_user k (new_user username first_name invited_by) s
  ]

  unfoldable pub count_chat : ℕ → State d → State d
  count_chat k s = elim (get_user k s) [
    | none ↦ s
    | some u ↦ save_user k (record u { total_chats = u.total_chats + 1 }) s
  ]

  unfoldable pub increment_total_chats : List ℕ → State d → State d
  unfolding count_chat
  increment_total_chats [] s = s
  increment_total_chats (k ∷ ks) s = increment_total_chats ks (count_chat k s)

  -- The warning's number, and whether the user is banned by it.
  unfoldable pub add_warning : ℕ → Option ℕ → State d → State d × ℕ × Bool
  add_warning k report_id s = elim (get_user k s) [
    | none ↦ (s, 0, false)
    | some u ↦
        let number : ℕ = u.warning_count + 1 in
        let auto_banned : Bool = leb 5 number in
        let warning : Warning = record {
          user_id = k;
          report_id = report_id;
          warning_number = number;
        } in
        let banned : Bool = if auto_banned then true else u.is_banned in
        (
          record s {
            users = d.users.put k (record u { warning_count = number; is_banned = banned }) s.users;
            warnings = d.warnings.add warning s.warnings;
          },
          number,
          auto_banned,
        )
  ]

  unfoldable pub ban_user : ℕ → State d → State d
  ban_user k s = elim (get_user k s) [
    | none ↦ s
    | some u ↦ save_user k (record u { is_banned = true }) s
  ]

  unfoldable pub is_user_banned : ℕ → State d → Bool
  is_user_banned k s = elim (get_user k s) [ none ↦ false | some u ↦ u.is_banned ]

  unfoldable pub block_sender : ℕ → ℕ → State d → State d
  block_sender owner sender s =
      if d.blocked.has owner sender s.blocked
      then s
      else record s { blocked = d.blocked.insert owner sender s.blocked }

  unfoldable pub unblock_sender : ℕ → ℕ → State d → State d × Bool
  unblock_sender owner sender s =
      if d.blocked.has owner sender s.blocked
      then (record s { blocked = d.blocked.remove owner sender s.blocked }, true)
      else (s, false)

  unfoldable pub is_sender_blocked : ℕ → ℕ → State d → Bool
  is_sender_blocked owner sender s = d.blocked.has owner sender s.blocked
