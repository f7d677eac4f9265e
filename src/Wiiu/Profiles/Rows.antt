-- ===== src/Wiiu/Profiles/Rows.antt =====
-- The rows that EnsureProfiles of database/wiiu/ensure_profiles.go leaves behind.
use nn_friends.Prelude.{
  ℕ, ◌≡◌, refl, Option, none, some, List, [], ◌∷◌, Bool, true, false, Exec, Result, ok, err, Ends,
  OnBoth, All, if◌then◌else◌, nat_eq, ltb,
}
use nn_friends.Prelude.Dict.{Dict, get, has}
use nn_friends.Errors.{Error, driver}
use nn_friends.Profilecache.{fresh, mark_failed, set_expiry}
use nn_friends.Database.Tables.{PrincipalRow}
use nn_friends.Database.Backend.{Backend}
use nn_friends.Database.Server.{Server, statement, later, refused}
use nn_friends.Wiiu.Profiles.{refresh_profile, has_profile_row, ensure_stale, ensure_profiles}
use nn_friends.Wiiu.Profiles.Refresh.{IsCached, IsSound, Found, put-IsCached, refresh_profile-Ends}

module _ (B : Backend) (rows : Dict ℕ PrincipalRow) where
  -- The statement of hasProfileRow changes nothing, and finds a row only where there is one.
  abbrev IsSearched : ℕ → Bool × Server B.State → Type 0
  IsSearched pid p = IsSound rows p.1 × (p.0 ≡ true → has p.1.tables.principals pid ≡ true)

  has_profile_row_lem :
      (pid : ℕ) (s : Server B.State) → IsSound rows s → IsSearched pid (has_profile_row B pid s)
  unfolding has_profile_row statement
  has_profile_row_lem pid s h = go (refused s.faults)
    where
      u : Server B.State
      u = record s { faults = later s.faults }

      search : Bool → Result Error Bool × Server B.State
      search b = if b then (err (driver 0), u) else (ok (has s.tables.principals pid), u)

      go :
          (b : Bool)
          → IsSearched pid (elim (search b).0 [
            | ok found ↦ (found, (search b).1)
            | err e ↦ (false, (search b).1)
          ])
      go true = (h, λ e. cc)
      go false = (h, λ e. e)

  ensure_stale-Ends :
      (pid : ℕ) (s : Server B.State)
      → IsSound rows s
      → Ends (Found B rows pid) (IsSound rows) (ensure_stale B pid) s
  unfolding ensure_stale mark_failed set_expiry
  ensure_stale-Ends pid s h = record {
    holds = go (refresh_profile B pid s) (refresh_profile-Ends B rows pid s h).holds;
  }
    where
      ended : Error → Bool × Server B.State → Result Error (Unit {0}) × Server B.State
      ended e (found, u) =
          if found
          then (ok tt, record u { expires = mark_failed (B.now u.backend) pid u.expires })
          else (err e, u)

      failed :
          (e : Error) (p : Bool × Server B.State)
          → IsSearched pid p
          → OnBoth {E = Error} (Found B rows pid) (IsSound rows) (ended e p)
      failed e (true, u) ((cached, kept), found) =
          ((put-IsCached u.expires u.tables.principals pid _ cached (found refl), kept), found refl)
      failed e (false, u) (sound, found) = sound

      go :
          (p : Result Error (Unit {0}) × Server B.State)
          → OnBoth {E = Error} (Found B rows pid) (IsSound rows) p
          → OnBoth {E = Error}
              (Found B rows pid)
              (IsSound rows)
              (elim p.0 [ ok _ ↦ (ok tt, p.1) | err e ↦ ended e (has_profile_row B pid p.1) ])
      go (ok a, t) found = found
      go (err e, t) sound = failed e (has_profile_row B pid t) (has_profile_row_lem pid t sound)

fresh-has :
    {G : Type 0} (s : Server G) (now pid : ℕ)
    → IsCached s
    → fresh s.expires now pid ≡ true
    → has s.tables.principals pid ≡ true
unfolding fresh
fresh-has s now pid cached h = go (get s.expires pid) refl h
  where
    go :
        (o : Option ℕ)
        → get s.expires pid ≡ o
        → (elim o [ none ↦ false | some until ↦ ltb now until ]) ≡ true
        → has s.tables.principals pid ≡ true
    go none same e = cc
    go (some until) same e = cached pid until same

-- Every one of `pids` has a row in `t`.
abbrev pub HaveRows : {G : Type 0} → List ℕ → Server G → Type 0
HaveRows pids t = All (λ pid. has t.tables.principals pid ≡ true) pids

module _ (B : Backend) where
  abbrev Ensured : Server B.State → List ℕ → Result Error (Unit {0}) × Server B.State → Type 0
  Ensured s pids =
      OnBoth {E = Error} (λ _ t. IsSound s.tables.principals t × HaveRows pids t)
        (IsSound s.tables.principals)

  Ensured-then :
      (pid : ℕ) (pids : List ℕ) (s t : Server B.State)
      → Found B s.tables.principals pid tt t
      → (p : Result Error (Unit {0}) × Server B.State) → Ensured t pids p
      → Ensured s (pid ∷ pids) p
  Ensured-then pid pids s t ((_, kept), there) (ok a, u) ((cached, later_kept), all) =
      ((cached, λ q h. later_kept q (kept q h)), (later_kept pid there, all))
  Ensured-then pid pids s t ((_, kept), there) (err e, u) (cached, later_kept) =
      (cached, λ q h. later_kept q (kept q h))

  -- One PID, and the rest of the loop as `rest`.
  Ensured-step :
      (pid : ℕ) (pids : List ℕ) (rest : Exec (Server B.State) Error (Unit {0}))
      → ((t : Server B.State) → IsCached t → Ensured t pids (rest t))
      → (s : Server B.State) (b : Bool) → IsCached s
      → fresh s.expires (B.now s.backend) pid ≡ b
      → Ensured s (pid ∷ pids) (elim b [
        | true ↦ rest s
        | false ↦ elim (ensure_stale B pid s).0 [
          | ok _ ↦ rest (ensure_stale B pid s).1
          | err e ↦ (err e, (ensure_stale B pid s).1)
        ]
      ])
  Ensured-step pid pids rest h s true cached same =
      Ensured-then pid pids s s
        ((cached, λ q there. there), fresh-has s (B.now s.backend) pid cached same) (rest s)
        (h s cached)
  Ensured-step pid pids rest h s false cached same =
      go (ensure_stale B pid s)
        (ensure_stale-Ends B s.tables.principals pid s (cached, λ q there. there)).holds
    where
      go :
          (p : Result Error (Unit {0}) × Server B.State)
          → OnBoth {E = Error} (Found B s.tables.principals pid) (IsSound s.tables.principals) p
          → Ensured s (pid ∷ pids) (elim p.0 [ ok _ ↦ rest p.1 | err e ↦ (err e, p.1) ])
      go (ok a, t) found = Ensured-then pid pids s t found (rest t) (h t found.0.0)
      go (err e, t) sound = sound

  ensure_profiles-Ensured :
      (pids : List ℕ) (s : Server B.State) → IsCached s → Ensured s pids (ensure_profiles B pids s)
  unfolding ensure_profiles
  ensure_profiles-Ensured [] s cached = ((cached, λ q there. there), tt)
  ensure_profiles-Ensured (pid ∷ pids) s cached =
      Ensured-step pid pids (ensure_profiles B pids) (ensure_profiles-Ensured pids) s
        (fresh s.expires (B.now s.backend) pid) cached refl

  -- If every PID that the profile cache knows has its row in principal_basic_info, then
  -- EnsureProfiles ends in a state where that is so and where every row that was there still is,
  -- also if it fails; where it succeeds, each PID that it was given has a row.
  pub ensure_profiles-HaveRows :
      (pids : List ℕ) (s : Server B.State)
      → IsCached s
      → Ends
          (λ _ t. IsSound s.tables.principals t × HaveRows pids t)
          (IsSound s.tables.principals)
          (ensure_profiles B pids)
          s
  ensure_profiles-HaveRows pids s cached = record { holds = ensure_profiles-Ensured pids s cached }
