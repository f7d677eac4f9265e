-- ===== src/Wiiu/Profiles/Refresh.antt =====
-- The rows that RefreshProfile of database/wiiu/ensure_profiles.go leaves behind.
use nn_friends.Prelude.{
  ℕ, ◌≡◌, inl, inr, some, Bool, true, false, fail, ◌>>◌, Ends, Ends->>=, Ends-mono, if◌then◌else◌,
  nat_eq, nat_beq_iff, arith,
}
use nn_friends.Prelude.Dict.{Dict, get, put, has, get-put, get-put_cases}
use nn_friends.Errors.{profile_deleted}
use nn_friends.Profilecache.{Expiries, mark, set_expiry}
use nn_friends.Coregraph.Services.{Profile}
use nn_friends.Database.Tables.{PrincipalRow}
use nn_friends.Database.Backend.{Backend}
use nn_friends.Database.Server.{Server, statement, remote}
use nn_friends.Database.Server.Endings.{Ends-statement, Ends-remote}
use nn_friends.Wiiu.Profiles.{
  write_principal, write_mii, write_account_info, write_user_data, write_profile, mark_now,
  refresh_profile, with_username,
}

-- Every PID that the profile cache knows has its row.
abbrev pub IsCached : {G : Type 0} → Server G → Type 0
IsCached s =
    (pid : ℕ) (until : ℕ) → get s.expires pid ≡ some until → has s.tables.principals pid ≡ true

-- No row that is among those of `rows` is missing.
abbrev pub Keeps : {G : Type 0} → Dict ℕ PrincipalRow → Server G → Type 0
Keeps rows t = (pid : ℕ) → has rows pid ≡ true → has t.tables.principals pid ≡ true

abbrev pub IsSound : {G : Type 0} → Dict ℕ PrincipalRow → Server G → Type 0
IsSound rows t = IsCached t × Keeps rows t

has-put : {V : Type 0} (d : Dict ℕ V) (k j : ℕ) (v : V) → has d j ≡ true → has (put d k v) j ≡ true
has-put d k j v h = ground (arith, get-put d k j v)

has-put_self : {V : Type 0} (d : Dict ℕ V) (k : ℕ) (v : V) → has (put d k v) k ≡ true
has-put_self d k v = ground (arith, get-put d k k v, nat_beq_iff k k)

pub put-IsCached :
    (expires : Expiries) (rows : Dict ℕ PrincipalRow) (pid until : ℕ)
    → ((q e : ℕ) → get expires q ≡ some e → has rows q ≡ true)
    → has rows pid ≡ true
    → (q e : ℕ) → get (put expires pid until) q ≡ some e
    → has rows q ≡ true
put-IsCached expires rows pid until cached there q e h =
    elim (get-put_cases expires pid q until h) [
      | inl (same, _) ↦ cc (there, same)
      | inr old ↦ cached q e old
    ]

module _ (B : Backend) (rows : Dict ℕ PrincipalRow) where
  -- Sound, and `pid` has a row.
  abbrev pub Found : ℕ → Unit {0} → Server B.State → Type 0
  Found pid _ t = IsSound rows t × (has t.tables.principals pid ≡ true)

  -- The first statement writes the row; the others leave it alone, also where one is refused.
  write_profile-Ends :
      (pid : ℕ) (user : Profile) (now : ℕ) (s : Server B.State)
      → IsSound rows s
      → Ends (Found pid) (IsSound rows) (write_profile B pid user now) s
  unfolding write_profile
  write_profile-Ends pid user now s h =
      Ends->>= (statement (write_principal pid user))
        (λ _. do
          statement (write_mii pid user now)
          statement (write_account_info pid)
          statement (write_user_data pid))
        s
        (Ends-statement (write_principal pid user) s
          (Ends->>= (statement (write_mii pid user now))
            (λ _. do statement (write_account_info pid); statement (write_user_data pid)) _
            (Ends-statement (write_mii pid user now) _
              (Ends->>= (statement (write_account_info pid)) (λ _. statement (write_user_data pid))
                _
                (Ends-statement (write_account_info pid) _
                  (Ends-statement (write_user_data pid) _ after after.0) after.0))
              after.0))
          h)
    where
      old : Dict ℕ PrincipalRow
      old = s.tables.principals

      new : PrincipalRow
      new = with_username user.username (get old pid)

      after :
          (((q e : ℕ) → get s.expires q ≡ some e → has (put old pid new) q ≡ true)
            × ((q : ℕ) → has rows q ≡ true → has (put old pid new) q ≡ true))
          × (has (put old pid new) pid ≡ true)
      after = (
        (
          (λ q e known. has-put old pid q new (h.0 q e known)),
          (λ q known. has-put old pid q new (h.1 q known)),
        ),
        has-put_self old pid new,
      )

  mark_now-Ends :
      (pid : ℕ) (s : Server B.State)
      → Found pid tt s
      → Ends (Found pid) (IsSound rows) (mark_now B pid) s
  unfolding mark_now mark set_expiry
  mark_now-Ends pid s ((cached, kept), there) = record {
    holds = ((put-IsCached s.expires s.tables.principals pid _ cached there, kept), there);
  }

  pub refresh_profile-Ends :
      (pid : ℕ) (s : Server B.State)
      → IsSound rows s
      → Ends (Found pid) (IsSound rows) (refresh_profile B pid) s
  unfolding refresh_profile
  refresh_profile-Ends pid s h = Ends->>= (remote (B.get_user_data pid)) _ s (
      Ends-remote (B.get_user_data pid) s (λ user. record { holds = (go user user.deleted).holds })
        h)
    where
      t : Server B.State
      t = record s { backend = (B.get_user_data pid s.backend).1 }

      now : ℕ
      now = B.stamp (B.now t.backend)

      go :
          (user : Profile) (b : Bool)
          → Ends
              (Found pid)
              (IsSound rows)
              (if b
                then fail profile_deleted
                else (do write_profile B pid user now; mark_now B pid))
              t
      go user true = record { holds = h }
      go user false =
          Ends->>= (write_profile B pid user now) (λ _. mark_now B pid) t
            (Ends-mono (write_profile B pid user now) t (λ _ u found. mark_now-Ends pid u found)
              (write_profile-Ends pid user now t h))
