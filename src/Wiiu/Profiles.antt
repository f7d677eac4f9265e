-- ===== src/Wiiu/Profiles.antt =====
-- database/wiiu: the cached profile of a PID (ensure_profiles.go) and what is read of it
-- (get_user_mii.go, get_user_principal_basic_info.go, get_user_network_account_info.go,
-- get_user_comment.go, get_user_principal_preference.go).
pub mod Refresh
pub mod Rows
pub mod Reads
use nn_friends.Prelude.{
  ℕ, String, Option, none, some, List, [], ◌∷◌, Bool, true, false, Exec, ok, err, pure, fail, ◌>>=◌,
  ◌>>◌, if◌then◌else◌, nat_eq,
}
use nn_friends.Prelude.Dict.{Dict, get, put, has}
use nn_friends.Errors.{Error, pid_not_found, profile_deleted}
use nn_friends.Profilecache.{fresh, mark, mark_failed}
use nn_friends.Coregraph.Services.{Profile}
use nn_friends.Database.Tables.{Tables, PrincipalRow, MiiRow, default_user_data}
use nn_friends.Database.Backend.{Backend}
use nn_friends.Database.Server.{Server, statement, query_row, remote, gets}

-- PrincipalBasicInfo
pub record PrincipalInfo : Type 0 where
  pub pid : ℕ
  pub nnid : String
  pub unknown : ℕ
  pub mii : MiiRow

-- NNAInfo
pub record NnaInfo : Type 0 where
  pub unknown1 : ℕ
  pub unknown2 : ℕ
  pub principal : PrincipalInfo

-- Comment
pub record Comment : Type 0 where
  pub contents : String
  pub last_changed : ℕ

pub record Preference : Type 0 where
  pub show_online_presence : Bool
  pub show_current_title : Bool
  pub block_friend_requests : Bool

-- INSERT … ON CONFLICT (pid) DO UPDATE: the new row, from the old one if there is one.
abbrev pub upsert : {A : Type 0} → ℕ → (Option A → A) → Dict ℕ A → Dict ℕ A
upsert pid f d = put d pid (f (get d pid))

abbrev with_username : String → Option PrincipalRow → PrincipalRow
with_username name none = record { username = name; unknown = 2 }
with_username name (some r) = record r { username = name }

abbrev with_mii : String → List ℕ → ℕ → Option MiiRow → MiiRow
with_mii name bytes now none = record {
  name = name;
  unknown1 = 0;
  unknown2 = 0;
  mii_bytes = bytes;
  unknown_datetime = now;
}
with_mii name bytes now (some r) = record r { name = name; mii_bytes = bytes }

-- ON CONFLICT (pid) DO NOTHING
abbrev pub or_default : {A : Type 0} → A → Option A → A
or_default a none = a
or_default a (some r) = r

-- The four statements of RefreshProfile.
abbrev pub write_principal : ℕ → Profile → Tables → Unit {0} × Tables
write_principal pid user t =
    (tt, record t { principals = upsert pid (with_username user.username) t.principals })

abbrev pub write_mii : ℕ → Profile → ℕ → Tables → Unit {0} × Tables
write_mii pid user now t =
    (tt, record t { miis = upsert pid (with_mii user.mii_name user.mii_bytes now) t.miis })

abbrev pub write_account_info : ℕ → Tables → Unit {0} × Tables
write_account_info pid t = (
  tt,
  record t {
    account_info =
        upsert pid (or_default (record { unknown1 = 0; unknown2 = 0; birthday = 0 }))
          t.account_info;
  },
)

abbrev pub write_user_data : ℕ → Tables → Unit {0} × Tables
write_user_data pid t =
    (tt, record t { user_data = upsert pid (or_default default_user_data) t.user_data })

module _ (B : Backend) where
  -- The statements in order; the first that fails ends it.
  unfoldable pub write_profile : ℕ → Profile → ℕ → Exec (Server B.State) Error (Unit {0})
  write_profile pid user now = do
    statement (write_principal pid user)
    statement (write_mii pid user now)
    statement (write_account_info pid)
    statement (write_user_data pid)

  unfoldable pub mark_now : ℕ → Exec (Server B.State) Error (Unit {0})
  mark_now pid s = (ok tt, record s { expires = mark (B.now s.backend) pid s.expires })

  unfoldable pub refresh_profile : ℕ → Exec (Server B.State) Error (Unit {0})
  unfolding write_profile mark_now
  refresh_profile pid = do
    user ← remote (B.get_user_data pid)
    now ← gets (λ s. B.stamp (B.now s.backend))
    if user.deleted then fail profile_deleted else (do write_profile pid user now; mark_now pid)

  -- A statement that the driver refuses counts as no row.
  unfoldable pub has_profile_row : ℕ → Server B.State → Bool × Server B.State
  has_profile_row pid s =
      let (r, t) = statement (λ t. (has t.principals pid, t)) s in
      elim r [ ok found ↦ (found, t) | err e ↦ (false, t) ]

  -- One round of the loop of EnsureProfiles for a PID that is not fresh.
  unfoldable pub ensure_stale : ℕ → Exec (Server B.State) Error (Unit {0})
  ensure_stale pid s =
      let (r, t) = refresh_profile pid s in
      let (found, u) = has_profile_row pid t in
      elim r [
        | ok _ ↦ (ok tt, t)
        | err e ↦
            if found
            then (ok tt, record u { expires = mark_failed (B.now u.backend) pid u.expires })
            else (err e, u)
      ]

  unfoldable pub ensure_profiles : List ℕ → Exec (Server B.State) Error (Unit {0})
  unfolding ensure_stale has_profile_row
  ensure_profiles [] s = (ok tt, s)
  ensure_profiles (pid ∷ pids) s = elim (fresh s.expires (B.now s.backend) pid) [
    | true ↦ ensure_profiles pids s
    | false ↦
        let (r, t) = ensure_stale pid s in
        elim r [ ok _ ↦ ensure_profiles pids t | err e ↦ (err e, t) ]
  ]

  unfoldable pub get_user_mii : ℕ → Exec (Server B.State) Error MiiRow
  get_user_mii pid = query_row (λ t. get t.miis pid) pid_not_found

  unfoldable pub get_user_principal_basic_info : ℕ → Exec (Server B.State) Error PrincipalInfo
  unfolding get_user_mii
  get_user_principal_basic_info pid = do
    ensure_profiles (pid ∷ [])
    row ← query_row (λ t. get t.principals pid) pid_not_found
    mii ← get_user_mii pid
    pure (record { pid = pid; nnid = row.username; unknown = row.unknown; mii = mii })

  unfoldable pub get_user_network_account_info : ℕ → Exec (Server B.State) Error NnaInfo
  get_user_network_account_info pid = do
    row ← query_row (λ t. get t.account_info pid) pid_not_found
    principal ← get_user_principal_basic_info pid
    pure (record { unknown1 = row.unknown1; unknown2 = row.unknown2; principal = principal })

  unfoldable pub get_user_comment : ℕ → Exec (Server B.State) Error Comment
  get_user_comment pid = do
    row ← query_row (λ t. get t.user_data pid) pid_not_found
    pure (record { contents = row.comment; last_changed = row.comment_changed })

  unfoldable pub get_user_principal_preference : ℕ → Exec (Server B.State) Error Preference
  get_user_principal_preference pid = do
    row ← query_row (λ t. get t.user_data pid) pid_not_found
    pure (record {
      show_online_presence = row.show_online;
      show_current_title = row.show_current_game;
      block_friend_requests = row.block_friend_requests;
    })
