-- ===== src/Ctr/Profiles.antt =====
-- database/3ds: the cached Mii of a PID (ensure_profiles.go, update_user_mii.go) and what is read of
-- it (get_mii.go, get_friend_miis.go, get_friend_persistent_infos.go, get_user_data.go).
pub mod Shared
pub mod Reading
use nn_friends.Prelude.{
  ℕ, String, Option, none, some, List, [], ◌∷◌, Bool, true, false, Exec, Result, ok, err, pure,
  fail, ◌>>=◌, ◌>>◌, recover, if◌then◌else◌, contains, nat_eq,
}
use nn_friends.Prelude.Dict.{Dict, get, has}
use nn_friends.Errors.{Error, pid_not_found, profile_deleted, no_rows, is_unresolved}
use nn_friends.Profilecache.{fresh, mark_failed}
use nn_friends.Coregraph.Services.{Profile}
use nn_friends.Database.Tables.{Tables, UserData3ds}
use nn_friends.Database.Backend.{Backend}
use nn_friends.Database.Server.{Server, statement, query_row, remote, gets}
use nn_friends.Wiiu.Profiles.{mark_now}
use nn_friends.Wiiu.Accepting.{stamped}
use nn_friends.Ctr.Settings.{upsert_user}

-- Mii
pub record Mii : Type 0 where
  pub name : String
  pub profanity : Bool
  pub character_set : ℕ
  pub mii_bytes : List ℕ

-- FriendMii
pub record FriendMii : Type 0 where
  pub pid : ℕ
  pub mii : Mii
  pub modified_at : ℕ

-- FriendPersistentInfo
pub record PersistentInfo : Type 0 where
  pub pid : ℕ
  pub region : ℕ
  pub country : ℕ
  pub area : ℕ
  pub language : ℕ
  pub platform : ℕ
  pub title_id : ℕ
  pub title_version : ℕ
  pub message : String
  pub message_updated_at : ℕ
  pub mii_modified_at : ℕ
  pub last_online : ℕ

abbrev pub mii_of_row : ℕ → UserData3ds → FriendMii
mii_of_row pid row = record {
  pid = pid;
  mii = record {
    name = row.mii_name;
    profanity = row.mii_profanity;
    character_set = row.mii_character_set;
    mii_bytes = row.mii_bytes;
  };
  modified_at = row.mii_changed;
}

-- The platform is always 3DS.
abbrev pub info_of_row : ℕ → UserData3ds → PersistentInfo
info_of_row pid row = record {
  pid = pid;
  region = row.region;
  country = row.country;
  area = row.area;
  language = row.language;
  platform = 2;
  title_id = row.favorite_title;
  title_version = row.favorite_title_version;
  message = row.comment;
  message_updated_at = row.comment_changed;
  mii_modified_at = row.mii_changed;
  last_online = row.last_online;
}

-- WHERE pid = ANY($1), and the loop over the rows.
abbrev pub rows_for : {A : Type 0} → (ℕ → UserData3ds → A) → List ℕ → Dict ℕ UserData3ds → List A
rows_for f pids [] = []
rows_for f pids ((pid, row) ∷ rows) =
    if contains pid pids then f pid row ∷ rows_for f pids rows else rows_for f pids rows

-- The INSERT of RefreshProfile.
abbrev pub write_mii_3ds : ℕ → Profile → Tables → Unit {0} × Tables
write_mii_3ds pid user =
    upsert_user pid (λ r. record r { mii_name = user.mii_name; mii_bytes = user.mii_bytes })

-- The INSERT of UpdateUserMii.
abbrev pub set_mii_3ds : ℕ → Mii → ℕ → Tables → Unit {0} × Tables
set_mii_3ds pid mii changed = upsert_user pid (λ r. record r {
  mii_name = mii.name;
  mii_profanity = mii.profanity;
  mii_character_set = mii.character_set;
  mii_bytes = mii.mii_bytes;
  mii_changed = changed;
})

module _ (B : Backend) where
  unfoldable pub refresh_profile : ℕ → Exec (Server B.State) Error (Unit {0})
  refresh_profile pid = do
    user ← remote (B.get_user_data pid)
    if user.deleted
        then fail profile_deleted
        else (do statement (write_mii_3ds pid user); mark_now B pid)

  -- A statement that the driver refuses counts as no row.
  abbrev found_or_not : Result Error Bool × Server B.State → Bool × Server B.State
  found_or_not (ok found, s) = (found, s)
  found_or_not (err e, s) = (false, s)

  unfoldable pub has_profile_row : ℕ → Server B.State → Bool × Server B.State
  has_profile_row pid s = found_or_not (statement (λ t. (has t.user_data_3ds pid, t)) s)

  -- After a refresh that failed: the old row is served, if there is one.
  abbrev pub passed_over :
      ℕ → Error → Bool × Server B.State → Result Error (Unit {0}) × Server B.State
  passed_over pid e (found, s) =
      if found
      then (ok tt, record s { expires = mark_failed (B.now s.backend) pid s.expires })
      else (err e, s)

  abbrev pub refreshed :
      ℕ → Result Error (Unit {0}) × Server B.State → Result Error (Unit {0}) × Server B.State
  refreshed pid (ok a, s) = (ok a, s)
  refreshed pid (err e, s) = passed_over pid e (has_profile_row pid s)

  unfoldable pub ensure_profile : ℕ → Exec (Server B.State) Error (Unit {0})
  unfolding refresh_profile has_profile_row
  ensure_profile pid s =
      if fresh s.expires (B.now s.backend) pid
      then (ok tt, s)
      else refreshed pid (refresh_profile pid s)

  unfoldable pub ensure_profiles : List ℕ → Exec (Server B.State) Error (Unit {0})
  unfolding ensure_profile
  ensure_profiles [] s = (ok tt, s)
  ensure_profiles (pid ∷ pids) s = (ensure_profile pid >>= λ _. ensure_profiles pids) s

  -- An error of EnsureProfiles is dropped.
  abbrev any_error : Error → Bool
  any_error e = true

  unfoldable pub get_friend_miis : List ℕ → Exec (Server B.State) Error (List FriendMii)
  get_friend_miis pids = do
    recover (ensure_profiles pids) any_error tt
    statement (λ t. (rows_for mii_of_row pids t.user_data_3ds, t))

  unfoldable pub get_friend_persistent_infos :
      List ℕ → Exec (Server B.State) Error (List PersistentInfo)
  get_friend_persistent_infos pids = do
    recover (ensure_profiles pids) any_error tt
    statement (λ t. (rows_for info_of_row pids t.user_data_3ds, t))

  unfoldable pub get_mii : ℕ → Exec (Server B.State) Error FriendMii
  get_mii pid = do
    ensure_profiles (pid ∷ [])
    row ← query_row (λ t. get t.user_data_3ds pid) pid_not_found
    pure (mii_of_row pid row)

  -- The scan reports a missing row as the driver's error.
  unfoldable pub get_user_data : ℕ → Exec (Server B.State) Error PersistentInfo
  get_user_data pid = do
    row ← query_row (λ t. get t.user_data_3ds pid) no_rows
    pure (info_of_row pid row)

  -- A PID without an account keeps its Mii here alone.
  abbrev pub shared :
      List ℕ → Result Error String × Server B.State → Result Error (Unit {0}) × Server B.State
  shared bytes (ok account, s) = remote (B.put_mii account bytes) s
  shared bytes (err e, s) = if is_unresolved e then (ok tt, s) else (err e, s)

  unfoldable pub share_mii : ℕ → List ℕ → Exec (Server B.State) Error (Unit {0})
  share_mii pid bytes s = shared bytes (remote (B.account_of_pid "3ds" pid) s)

  unfoldable pub update_user_mii : ℕ → Mii → Exec (Server B.State) Error (Unit {0})
  unfolding share_mii
  update_user_mii pid mii = do
    share_mii pid mii.mii_bytes
    changed ← gets (stamped B)
    statement (set_mii_3ds pid mii changed)
    mark_now B pid
