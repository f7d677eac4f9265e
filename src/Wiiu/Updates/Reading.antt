-- ===== src/Wiiu/Updates/Reading.antt =====
-- What the getters of database/wiiu read after the update_user_*.go have written.
use nn_friends.Prelude.{
  ℕ, String, ◌≡◌, refl, some, [], ◌∷◌, true, ok, ◌>>=◌, ◌>>◌, After, After->>=, After-pure,
  After-same, After-mono, nat_eq, subst, pure,
}
use nn_friends.Prelude.Dict.{Dict, get, put, get-put_self}
use nn_friends.Errors.{pid_not_found}
use nn_friends.Profilecache.{fresh}
use nn_friends.Database.Tables.{UserData, AccountInfo, PrincipalRow, MiiRow, default_user_data}
use nn_friends.Database.Backend.{Backend}
use nn_friends.Database.Server.{Server, statement, query_row, later}
use nn_friends.Database.Server.Rules.{After-statement, After-query_row}
use nn_friends.Wiiu.Profiles.{
  PrincipalInfo, NnaInfo, Comment, Preference, ensure_profiles, get_user_comment,
  get_user_principal_preference, get_user_network_account_info, get_user_principal_basic_info,
  get_user_mii, or_default,
}
use nn_friends.Wiiu.Accepting.{stamped}
use nn_friends.Wiiu.Updates.{
  set_user_data, set_mii, set_principal, set_account_info, update_user_comment,
  update_user_principal_preference, update_user_principal_basic_info, update_network_account_info,
  update_user_mii,
}

module _ (B : Backend) where
  -- Reading the row of `user_data` that was just written.
  read_user_data :
      {A : Type 0} {P : A → Type 0} (pid : ℕ) (u : UserData) (d : Dict ℕ UserData)
      (s : Server B.State) (f : UserData → A)
      → s.tables.user_data ≡ put d pid u
      → P (f u)
      → After
          (λ a _. P a)
          (do row ← query_row (λ t. get t.user_data pid) pid_not_found; pure (f row))
          s
  read_user_data {P} pid u d s f written h =
      After->>= (query_row (λ t. get t.user_data pid) pid_not_found) (λ row. pure (f row)) s
        (After-query_row (λ t. get t.user_data pid) pid_not_found s
          λ row found. After-pure (f row) _ (subst (λ r. P (f r)) (read row found) h))
    where
      read : (row : UserData) → get s.tables.user_data pid ≡ some row → u ≡ row
      read row found = cc (found, written, get-put_self d pid u)

  -- A comment that is written is what is read, with the time of the writing.
  get_user_comment-update_user_comment :
      (pid : ℕ) (message : String) (s : Server B.State)
      → After
          (λ c _. (c.contents ≡ message) × (c.last_changed ≡ stamped B s))
          (do update_user_comment B pid message; get_user_comment B pid)
          s
  unfolding update_user_comment get_user_comment
  get_user_comment-update_user_comment pid message s =
      After->>= (update_user_comment B pid message) (λ _. get_user_comment B pid) s
        (record {
          holds =
              (After->>=
                {P = λ _ t.
                  After (λ (c : Comment) _. (c.contents ≡ message) × (c.last_changed ≡ stamped B s))
                    (get_user_comment B pid) t}
                (statement (set_user_data pid new)) (λ _. pure (stamped B s)) s
                (After-statement (set_user_data pid new) s (
                  After-pure (stamped B s) _ (
                    read_user_data {A = Comment}
                      {P = λ c. (c.contents ≡ message) × (c.last_changed ≡ stamped B s)} pid
                      (new (or_default default_user_data (get old pid))) old _
                      (λ row. record { contents = row.comment; last_changed = row.comment_changed })
                      refl (refl, refl))))).holds;
        })
    where
      old : Dict ℕ UserData
      old = s.tables.user_data

      new : UserData → UserData
      new u = record u { comment = message; comment_changed = stamped B s }

  get_user_principal_preference-update :
      (pid : ℕ) (preference : Preference) (s : Server B.State)
      → After
          (λ p _. p ≡ preference)
          (do
            update_user_principal_preference B pid preference
            get_user_principal_preference B pid)
          s
  unfolding update_user_principal_preference get_user_principal_preference
  get_user_principal_preference-update pid preference s =
      After->>= (update_user_principal_preference B pid preference)
        (λ _. get_user_principal_preference B pid) s
        (After-statement (set_user_data pid new) s (
          read_user_data {A = Preference} {P = λ p. p ≡ preference} pid
            (new (or_default default_user_data (get old pid))) old _
            (λ row. record {
              show_online_presence = row.show_online;
              show_current_title = row.show_current_game;
              block_friend_requests = row.block_friend_requests;
            })
            refl refl))
    where
      old : Dict ℕ UserData
      old = s.tables.user_data

      new : UserData → UserData
      new u = record u {
        show_online = preference.show_online_presence;
        show_current_game = preference.show_current_title;
        block_friend_requests = preference.block_friend_requests;
      }

  ensure_fresh :
      {P : Unit {0} → Server B.State → Type 0} (pid : ℕ) (s : Server B.State)
      → fresh s.expires (B.now s.backend) pid ≡ true
      → P tt s
      → After P (ensure_profiles B (pid ∷ [])) s
  unfolding ensure_profiles
  ensure_fresh pid s trusted h =
      After-same (ensure_profiles B (pid ∷ [])) (pure tt) s s (done pid s trusted)
        (After-pure tt s h)
    where
      done :
          (pid : ℕ) (s : Server B.State)
          → fresh s.expires (B.now s.backend) pid ≡ true
          → ensure_profiles B (pid ∷ []) s ≡ (ok tt, s)
      done pid s trusted = rw (trusted, ensure_profiles) refl

  -- What is read of a user whose three rows have been written and whose profile is trusted.
  read_principal :
      (pid : ℕ) (info : PrincipalInfo) (ps : Dict ℕ PrincipalRow) (ms : Dict ℕ MiiRow)
      (s : Server B.State)
      → fresh s.expires (B.now s.backend) pid ≡ true
      → s.tables.principals ≡ put ps pid (record { username = info.nnid; unknown = info.unknown })
      → s.tables.miis ≡ put ms pid info.mii
      → After (λ i _. i ≡ record info { pid = pid }) (get_user_principal_basic_info B pid) s
  unfolding get_user_principal_basic_info get_user_mii
  read_principal pid info ps ms s trusted principals miis =
      After->>= (ensure_profiles B (pid ∷ [])) _ s (
        ensure_fresh pid s trusted (
          After->>= (query_row (λ t. get t.principals pid) pid_not_found) _ s (
            After-query_row (λ t. get t.principals pid) pid_not_found s
              λ row found. After->>= (query_row (λ t. get t.miis pid) pid_not_found) _ _ (
                After-query_row (λ t. get t.miis pid) pid_not_found _
                  λ mii seen. After-pure _ _ (same row mii found seen)))))
    where
      written : PrincipalRow
      written = record { username = info.nnid; unknown = info.unknown }

      same :
          (row : PrincipalRow) (mii : MiiRow)
          → get s.tables.principals pid ≡ some row
          → get s.tables.miis pid ≡ some mii
          → record { pid = pid; nnid = row.username; unknown = row.unknown; mii = mii }
            ≡ record info { pid = pid }
      same row mii found seen =
          let e : row ≡ written = cc (found, principals, get-put_self ps pid written) in
          let f : mii ≡ info.mii = cc (seen, miis, get-put_self ms pid info.mii) in
          λ i. record { pid = pid; nnid = (e i).username; unknown = (e i).unknown; mii = f i }

  -- Where the profile cache trusts the user's profile, what UpdateNetworkAccountInfo has written is
  -- what GetUserNetworkAccountInfo reads, whole, under the user's own PID.
  pub get_user_network_account_info-update :
      (pid : ℕ) (nna : NnaInfo) (birthday : ℕ) (s : Server B.State)
      → fresh s.expires (B.now s.backend) pid ≡ true
      → After
          (λ i _. i ≡ record nna { principal = record nna.principal { pid = pid } })
          (do update_network_account_info B pid nna birthday; get_user_network_account_info B pid)
          s
  unfolding update_network_account_info update_user_principal_basic_info update_user_mii
      get_user_network_account_info
  get_user_network_account_info-update pid nna birthday s trusted =
      After->>= (update_network_account_info B pid nna birthday)
        (λ _. get_user_network_account_info B pid) s
        (record {
          holds =
              (After->>=
                {P = λ _ t.
                  After (λ i _. i ≡ record nna { principal = record nna.principal { pid = pid } })
                    (get_user_network_account_info B pid) t}
                (statement (set_account_info pid info)) _ s
                (After-statement (set_account_info pid info) s (
                  After->>= (statement (set_principal pid row)) _ _ (
                    After-statement (set_principal pid row) _ (
                      After-statement (set_mii pid nna.principal.mii) _ (
                        After->>= (query_row (λ t. get t.account_info pid) pid_not_found) _ _ (
                          After-query_row (λ t. get t.account_info pid) pid_not_found _
                            read))))))).holds;
        })
    where
      info : AccountInfo
      info = record { unknown1 = nna.unknown1; unknown2 = nna.unknown2; birthday = birthday }

      row : PrincipalRow
      row = record { username = nna.principal.nnid; unknown = nna.principal.unknown }

      written : Server B.State
      written = record s {
        tables =
            (set_mii pid nna.principal.mii
              (set_principal pid row (set_account_info pid info s.tables).1).1).1;
        faults = later (later (later (later s.faults)));
      }

      read :
          (found : AccountInfo)
          → get (put s.tables.account_info pid info) pid ≡ some found
          → After
              (λ i _. i ≡ record nna { principal = record nna.principal { pid = pid } })
              (do
                principal ← get_user_principal_basic_info B pid
                pure (record {
                  unknown1 = found.unknown1;
                  unknown2 = found.unknown2;
                  principal = principal;
                }))
              written
      read found there =
          let e : found ≡ info = cc (there, get-put_self s.tables.account_info pid info) in
          After->>= (get_user_principal_basic_info B pid) _ written (
            After-mono (get_user_principal_basic_info B pid) written
              (λ p t same. After-pure _ t (λ i. record {
                unknown1 = (e i).unknown1;
                unknown2 = (e i).unknown2;
                principal = same i;
              }))
              (read_principal pid nna.principal s.tables.principals s.tables.miis written trusted
                refl refl))
