-- ===== src/Ctr/Profiles/Reading.antt =====
-- What GetMii of the 3DS reads after UpdateUserMii: update_user_mii.go and get_mii.go.
use nn_friends.Prelude.{
  ℕ, ◌+◌, ◌≡◌, refl, ap, some, true, ok, pure, ◌>>=◌, ◌>>◌, After, After->>=, After-any, After-pure,
  After-same, [], ◌∷◌, nat_eq, arith,
}
use nn_friends.Prelude.Dict.{get, get-put_self}
use nn_friends.Errors.{pid_not_found}
use nn_friends.Profilecache.{Expiries, ttl, fresh, mark, set_expiry}
use nn_friends.Database.Tables.{UserData3ds}
use nn_friends.Database.Backend.{Backend}
use nn_friends.Database.Server.{Server, later, statement, query_row, gets}
use nn_friends.Database.Server.Rules.{After-statement, After-query_row}
use nn_friends.Wiiu.Profiles.{mark_now}
use nn_friends.Wiiu.Accepting.{stamped}
use nn_friends.Ctr.Settings.{row_or_default}
use nn_friends.Ctr.Profiles.{
  Mii, FriendMii, mii_of_row, set_mii_3ds, share_mii, ensure_profile, ensure_profiles, get_mii,
  update_user_mii,
}

-- What is marked is fresh at once.
pub fresh-mark : (now pid : ℕ) (expires : Expiries) → fresh (mark now pid expires) now pid ≡ true
unfolding fresh mark set_expiry
fresh-mark now pid expires = ground (arith, get-put_self expires pid (now + ttl))

module _ (B : Backend) where
  pub ensure_profiles-fresh :
      (pid : ℕ) (s : Server B.State)
      → fresh s.expires (B.now s.backend) pid ≡ true
      → ensure_profiles B (pid ∷ []) s ≡ (ok tt, s)
  unfolding ensure_profiles ensure_profile
  ensure_profiles-fresh pid s trusted = rw trusted refl

  get_mii-fresh :
      (P : FriendMii → Server B.State → Type 0) (pid : ℕ) (s : Server B.State)
      → fresh s.expires (B.now s.backend) pid ≡ true
      → ((row : UserData3ds)
          → get s.tables.user_data_3ds pid ≡ some row
          → P (mii_of_row pid row) (record s { faults = later s.faults }))
      → After P (get_mii B pid) s
  unfolding get_mii
  get_mii-fresh P pid s trusted read = After->>= (ensure_profiles B (pid ∷ [])) _ s (
      After-same (ensure_profiles B (pid ∷ [])) (pure tt) s s (ensure_profiles-fresh pid s trusted)
        (After-pure tt s (
          After->>= (query_row (λ t. get t.user_data_3ds pid) pid_not_found) _ s (
            After-query_row (λ t. get t.user_data_3ds pid) pid_not_found s
              (λ row there. After-pure (mii_of_row pid row) _ (read row there))))))

  abbrev written : ℕ → Mii → UserData3ds → UserData3ds
  written changed mii r = record r {
    mii_name = mii.name;
    mii_profanity = mii.profanity;
    mii_character_set = mii.character_set;
    mii_bytes = mii.mii_bytes;
    mii_changed = changed;
  }

  -- What UpdateUserMii has stored, after the core took it or where no account is known, is what GetMii
  -- answers, whole, under the user's own PID and with the time of the update.
  pub get_mii-update_user_mii :
      (pid : ℕ) (mii : Mii) (s : Server B.State)
      → After
          (λ m t. m ≡ record { pid = pid; mii = mii; modified_at = stamped B t })
          (do update_user_mii B pid mii; get_mii B pid)
          s
  unfolding update_user_mii mark_now
  get_mii-update_user_mii pid mii s =
      After->>= (update_user_mii B pid mii) (λ _. get_mii B pid) s
        (record {
          holds =
              (After->>= {P = Read} (share_mii B pid mii.mii_bytes)
                (λ _. do
                  changed ← gets (stamped B)
                  statement (set_mii_3ds pid mii changed)
                  mark_now B pid)
                s
                (After-any (share_mii B pid mii.mii_bytes) s (λ _ t. record {
                  holds =
                      (After->>= {P = Read} (statement (set_mii_3ds pid mii (stamped B t)))
                        (λ _. mark_now B pid) t
                        (After-statement (set_mii_3ds pid mii (stamped B t)) t
                          (record { holds = read t }))).holds;
                }))).holds;
        })
    where
      Shown : FriendMii → Server B.State → Type 0
      Shown m u = m ≡ record { pid = pid; mii = mii; modified_at = stamped B u }

      Read : Unit {0} → Server B.State → Type 0
      Read _ t = After Shown (get_mii B pid) t

      new : Server B.State → UserData3ds
      new t = written (stamped B t) mii (row_or_default (get t.tables.user_data_3ds pid))

      read :
          (t : Server B.State)
          → After Shown (get_mii B pid) (record t {
            tables = (set_mii_3ds pid mii (stamped B t) t.tables).1;
            faults = later t.faults;
            expires = mark (B.now t.backend) pid t.expires;
          })
      read t = get_mii-fresh Shown pid _ (fresh-mark (B.now t.backend) pid t.expires) (λ row there.
          let e : row ≡ new t = cc (there, get-put_self t.tables.user_data_3ds pid (new t)) in
          ap (mii_of_row pid) e)
