-- ===== src/Ctr/Profiles/Shared.antt =====
-- The profile cache that both consoles share: profilecache/profilecache.go as it is used by
-- database/wiiu/ensure_profiles.go and database/3ds/ensure_profiles.go.
use nn_friends.Prelude.{
  ℕ, ◌≡◌, refl, none, Bool, true, false, err, fail, ◌>>◌, After, After->>=, After-fail, After-mono,
  if◌then◌else◌, nat_eq,
}
use nn_friends.Prelude.Dict.{get}
use nn_friends.Errors.{pid_not_found, profile_deleted}
use nn_friends.Coregraph.Services.{Profile}
use nn_friends.Profilecache.{fresh}
use nn_friends.Database.Backend.{Backend}
use nn_friends.Database.Server.{Server, refused, statement, query_row, remote}
use nn_friends.Database.Server.Rules.{After-statement, After-remote}
use nn_friends.Wiiu.Profiles.{
  write_principal, write_mii, write_account_info, write_user_data, write_profile, mark_now,
}
use nn_friends.Wiiu.Profiles
use nn_friends.Ctr.Profiles.{get_mii}
use nn_friends.Ctr.Profiles.Reading.{fresh-mark, ensure_profiles-fresh}

module _ (B : Backend) where
  -- Without a row, a PID that the cache trusts is not looked up at the account server.
  get_mii_missing :
      (pid : ℕ) (s : Server B.State)
      → fresh s.expires (B.now s.backend) pid ≡ true
      → get s.tables.user_data_3ds pid ≡ none
      → refused s.faults ≡ false
      → (get_mii B pid s).0 ≡ err pid_not_found
  unfolding get_mii query_row statement
  get_mii_missing pid s trusted missing runs =
      rw (ensure_profiles-fresh B pid s trusted, runs, missing) refl

  -- What the four statements of the Wii U leave of the 3DS table.
  write_profile-rows :
      (pid : ℕ) (user : Profile) (now : ℕ) (s : Server B.State)
      → After
          (λ _ t. t.tables.user_data_3ds ≡ s.tables.user_data_3ds)
          (write_profile B pid user now)
          s
  unfolding write_profile
  write_profile-rows pid user now s = After->>= (statement (write_principal pid user)) _ s (
      After-statement (write_principal pid user) s (
        After->>= (statement (write_mii pid user now)) _ _ (
          After-statement (write_mii pid user now) _ (
            After->>= (statement (write_account_info pid)) _ _ (
              After-statement (write_account_info pid) _
                (After-statement (write_user_data pid) _ refl))))))

  -- Once the Wii U side has refreshed a PID that the 3DS table has no row of, GetMii of the 3DS answers
  -- ErrPIDNotFound (unless its statement is refused), whatever the account server knows of the PID:
  -- the cache that both sides share says that the profile is fresh, so it is not fetched.
  pub get_mii-refresh_profile :
      (pid : ℕ) (s : Server B.State)
      → get s.tables.user_data_3ds pid ≡ none
      → After
          (λ _ t. refused t.faults ≡ false → (get_mii B pid t).0 ≡ err pid_not_found)
          (Profiles.refresh_profile B pid)
          s
  unfolding Profiles.refresh_profile mark_now
  get_mii-refresh_profile pid s missing = After->>= (remote (B.get_user_data pid)) _ s (
      After-remote (B.get_user_data pid) s
        (λ user. record { holds = (go user user.deleted).holds }))
    where
      t : Server B.State
      t = record s { backend = (B.get_user_data pid s.backend).1 }

      now : ℕ
      now = B.stamp (B.now t.backend)

      Unknown : Unit {0} → Server B.State → Type 0
      Unknown _ u = refused u.faults ≡ false → (get_mii B pid u).0 ≡ err pid_not_found

      go :
          (user : Profile) (b : Bool)
          → After Unknown
              (if b
                then fail profile_deleted
                else (do write_profile B pid user now; mark_now B pid))
              t
      go user true = After-fail profile_deleted t
      go user false =
          After->>= (write_profile B pid user now) (λ _. mark_now B pid) t
            (After-mono (write_profile B pid user now) t
              (λ _ u same. record {
                holds = λ runs.
                    get_mii_missing pid _ (fresh-mark (B.now u.backend) pid u.expires)
                      (rw same missing) runs;
              })
              (write_profile-rows pid user now t))
