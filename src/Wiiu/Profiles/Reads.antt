-- ===== src/Wiiu/Profiles/Reads.antt =====
-- Refreshing and reading a profile (database/wiiu/ensure_profiles.go and the get_user_*.go beside
-- it) leaves the friend requests alone.
use nn_friends.Prelude.{
  ℕ, ◌≡◌, List, [], ◌∷◌, Bool, true, false, Exec, Result, ok, err, fail, ◌>>◌, Ends, Ends->>=,
  Ends-mono, OnBoth, if◌then◌else◌, nat_eq,
}
use nn_friends.Prelude.Dict.{get, has}
use nn_friends.Errors.{Error, profile_deleted, pid_not_found, driver}
use nn_friends.Profilecache.{fresh, mark_failed}
use nn_friends.Coregraph.Services.{Profile}
use nn_friends.Types.{ConnectedUsers}
use nn_friends.Database.Tables.{FriendRequest}
use nn_friends.Database.Backend.{Backend}
use nn_friends.Database.Server.{Server, statement, query_row, remote, later, refused}
use nn_friends.Database.Server.Endings.{Ends-statement, Ends-remote, Ends-query_row}
use nn_friends.Wiiu.Profiles.{
  write_principal, write_mii, write_account_info, write_user_data, write_profile, mark_now,
  refresh_profile, has_profile_row, ensure_stale, ensure_profiles, get_user_mii,
  get_user_principal_basic_info, get_user_network_account_info, get_user_comment,
}

-- The requests and the people connected, which reading a profile leaves alone.
abbrev pub Kept : Type 0
Kept = List FriendRequest × ConnectedUsers

-- `m` ends with what was kept, whether it fails or not.
abbrev pub HasKept : {G : Type 0} → Kept → Server G → Type 0
HasKept k t = (t.tables.requests ≡ k.0) × (t.connected ≡ k.1)

abbrev pub kept_of : {G : Type 0} → Server G → Kept
kept_of s = (s.tables.requests, s.connected)

abbrev pub EndsWith : {G A : Type 0} → Kept → Exec (Server G) Error A → Server G → Type 0
EndsWith kept m s = Ends (λ _ t. HasKept kept t) (HasKept kept) m s

module _ (B : Backend) (kept : Kept) where
  write_profile-EndsWith :
      (pid : ℕ) (user : Profile) (now : ℕ) (s : Server B.State)
      → HasKept kept s
      → EndsWith kept (write_profile B pid user now) s
  unfolding write_profile
  write_profile-EndsWith pid user now s h = Ends->>= (statement (write_principal pid user)) _ s (
      Ends-statement (write_principal pid user) s
        (Ends->>= (statement (write_mii pid user now)) _ _ (
          Ends-statement (write_mii pid user now) _
            (Ends->>= (statement (write_account_info pid)) _ _ (
              Ends-statement (write_account_info pid) _ (Ends-statement (write_user_data pid) _ h h)
                h))
            h))
        h)

  refresh_profile-EndsWith :
      (pid : ℕ) (s : Server B.State) → HasKept kept s → EndsWith kept (refresh_profile B pid) s
  unfolding refresh_profile mark_now
  refresh_profile-EndsWith pid s h = Ends->>= (remote (B.get_user_data pid)) _ s (
      Ends-remote (B.get_user_data pid) s (λ user. record { holds = (go user user.deleted).holds })
        h)
    where
      t : Server B.State
      t = record s { backend = (B.get_user_data pid s.backend).1 }

      now : ℕ
      now = B.stamp (B.now t.backend)

      go :
          (user : Profile) (b : Bool)
          → EndsWith kept
              (if b
                then fail profile_deleted
                else (do write_profile B pid user now; mark_now B pid))
              t
      go user true = record { holds = h }
      go user false =
          Ends->>= (write_profile B pid user now) (λ _. mark_now B pid) t
            (Ends-mono (write_profile B pid user now) t (λ _ u same. record { holds = same })
              (write_profile-EndsWith pid user now t h))

  has_profile_row_requests :
      (pid : ℕ) (s : Server B.State) → HasKept kept s → HasKept kept (has_profile_row B pid s).1
  unfolding has_profile_row statement
  has_profile_row_requests pid s h = go (refused s.faults)
    where
      u : Server B.State
      u = record s { faults = later s.faults }

      search : Bool → Result Error Bool × Server B.State
      search b = if b then (err (driver 0), u) else (ok (has s.tables.principals pid), u)

      answer : Bool → Bool × Server B.State
      answer b = elim (search b).0 [
        | ok found ↦ (found, (search b).1)
        | err e ↦ (false, (search b).1)
      ]

      go : (b : Bool) → HasKept kept (answer b).1
      go true = h
      go false = h

  ensure_stale-EndsWith :
      (pid : ℕ) (s : Server B.State) → HasKept kept s → EndsWith kept (ensure_stale B pid) s
  unfolding ensure_stale
  ensure_stale-EndsWith pid s h = record {
    holds = go (refresh_profile B pid s) (refresh_profile-EndsWith pid s h).holds;
  }
    where
      ended : Error → Bool × Server B.State → Result Error (Unit {0}) × Server B.State
      ended e (found, u) =
          if found
          then (ok tt, record u { expires = mark_failed (B.now u.backend) pid u.expires })
          else (err e, u)

      failed :
          (e : Error) (p : Bool × Server B.State)
          → HasKept kept p.1
          → OnBoth {E = Error} {A = Unit {0}}
              (λ _ t. HasKept {G = B.State} kept t)
              (HasKept kept)
              (ended e p)
      failed e (true, u) same = same
      failed e (false, u) same = same

      go :
          (p : Result Error (Unit {0}) × Server B.State)
          → OnBoth {E = Error} {A = Unit {0}} (λ _ t. HasKept {G = B.State} kept t) (HasKept kept) p
          → OnBoth {E = Error} {A = Unit {0}}
              (λ _ t. HasKept {G = B.State} kept t)
              (HasKept kept)
              (elim p.0 [ ok _ ↦ (ok tt, p.1) | err e ↦ ended e (has_profile_row B pid p.1) ])
      go (ok a, t) same = same
      go (err e, t) same = failed e (has_profile_row B pid t) (has_profile_row_requests pid t same)

  -- One PID, and the rest of the loop as `rest`.
  ensure_one-EndsWith :
      (pid : ℕ) (rest : Exec (Server B.State) Error (Unit {0}))
      → ((t : Server B.State) → HasKept kept t → EndsWith kept rest t)
      → (s : Server B.State) (b : Bool) → HasKept kept s
      → EndsWith {A = Unit {0}} kept
          (λ u. elim b [
            | true ↦ rest u
            | false ↦ elim (ensure_stale B pid u).0 [
              | ok _ ↦ rest (ensure_stale B pid u).1
              | err e ↦ (err e, (ensure_stale B pid u).1)
            ]
          ])
          s
  ensure_one-EndsWith pid rest h s true same = record { holds = (h s same).holds }
  ensure_one-EndsWith pid rest h s false same = record {
    holds = go (ensure_stale B pid s) (ensure_stale-EndsWith pid s same).holds;
  }
    where
      go :
          (p : Result Error (Unit {0}) × Server B.State)
          → OnBoth {E = Error} {A = Unit {0}} (λ _ t. HasKept {G = B.State} kept t) (HasKept kept) p
          → OnBoth {E = Error} {A = Unit {0}}
              (λ _ t. HasKept {G = B.State} kept t)
              (HasKept kept)
              (elim p.0 [ ok _ ↦ rest p.1 | err e ↦ (err e, p.1) ])
      go (ok a, t) k = (h t k).holds
      go (err e, t) k = k

  pub ensure_profiles-EndsWith :
      (pids : List ℕ) (s : Server B.State)
      → HasKept kept s
      → EndsWith kept (ensure_profiles B pids) s
  unfolding ensure_profiles
  ensure_profiles-EndsWith [] s same = record { holds = same }
  ensure_profiles-EndsWith (pid ∷ pids) s same = record {
    holds =
        (ensure_one-EndsWith pid (ensure_profiles B pids) (ensure_profiles-EndsWith pids) s
          (fresh s.expires (B.now s.backend) pid) same).holds;
  }

  pub get_user_principal_basic_info-EndsWith :
      (pid : ℕ) (s : Server B.State)
      → HasKept kept s
      → EndsWith kept (get_user_principal_basic_info B pid) s
  unfolding get_user_principal_basic_info get_user_mii
  get_user_principal_basic_info-EndsWith pid s h = Ends->>= (ensure_profiles B (pid ∷ [])) _ s (
      Ends-mono (ensure_profiles B (pid ∷ [])) s
        (λ _ t same. Ends->>= (query_row (λ u. get u.principals pid) pid_not_found) _ t (
          Ends-query_row (λ u. get u.principals pid) pid_not_found t
            (λ row. Ends->>= (query_row (λ u. get u.miis pid) pid_not_found) _ _ (
              Ends-query_row (λ u. get u.miis pid) pid_not_found _ (λ mii. record { holds = same })
                same))
            same))
        (ensure_profiles-EndsWith (pid ∷ []) s h))

  pub get_user_network_account_info-EndsWith :
      (pid : ℕ) (s : Server B.State)
      → HasKept kept s
      → EndsWith kept (get_user_network_account_info B pid) s
  unfolding get_user_network_account_info
  get_user_network_account_info-EndsWith pid s h =
      Ends->>= (query_row (λ t. get t.account_info pid) pid_not_found) _ s (
        Ends-query_row (λ t. get t.account_info pid) pid_not_found s
          (λ row. Ends->>= (get_user_principal_basic_info B pid) _ _ (
            Ends-mono (get_user_principal_basic_info B pid) _ (λ _ t same. record { holds = same })
              (get_user_principal_basic_info-EndsWith pid _ h)))
          h)

  pub get_user_comment-EndsWith :
      (pid : ℕ) (s : Server B.State) → HasKept kept s → EndsWith kept (get_user_comment B pid) s
  unfolding get_user_comment
  get_user_comment-EndsWith pid s h =
      Ends->>= (query_row (λ t. get t.user_data pid) pid_not_found) _ s
        (Ends-query_row (λ t. get t.user_data pid) pid_not_found s (λ row. record { holds = h }) h)
