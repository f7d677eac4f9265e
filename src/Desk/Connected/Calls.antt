-- ===== src/Desk/Connected/Calls.antt =====
-- The database packages leave the people connected alone: database/wiiu and database/3ds.
use nn_friends.Prelude.{
  ℕ, ◌≡◌, refl, ◌∙◌, String, List, [], ◌∷◌, Bool, true, false, Result, ok, err, fail, ◌>>◌,
  if◌then◌else◌, nat_eq,
}
use nn_friends.Prelude.Dict.{get}
use nn_friends.Errors.{Error, pid_not_found, profile_deleted}
use nn_friends.Coregraph.Services.{Profile}
use nn_friends.Database.Backend.{Backend}
use nn_friends.Database.Server.{Server, statement, query_row, remote, gets}
use nn_friends.Wiiu.Profiles.{
  NnaInfo, write_principal, write_mii, write_account_info, write_user_data, write_profile, mark_now,
  ensure_profiles, get_user_comment, get_user_principal_preference,
}
use nn_friends.Wiiu.Profiles
use nn_friends.Wiiu.Profiles.Reads.{ensure_profiles-EndsWith}
use nn_friends.Wiiu.Listing.{
  select_in, select_out, insert_missing, insert_each, filled, materialize_requests, reported,
  list_in, list_out, get_user_friend_requests_in, get_user_friend_requests_out,
}
use nn_friends.Wiiu.BlockList.{select_blocks, get_user_block_list}
use nn_friends.Wiiu.Friends.{get_user_friend_list, friend_infos_for_pids}
use nn_friends.Wiiu.Updates.{
  set_account_info, set_principal, set_mii, update_user_mii, update_user_principal_basic_info,
  update_network_account_info,
}
use nn_friends.Ctr.Profiles.{write_mii_3ds}
use nn_friends.Ctr.Profiles as CtrProfiles
use nn_friends.Presence.Foreign.{
  Rendering, foreign, live_answer, foreign_for, foreign_of, foreign_friends,
}
use nn_friends.Coregraph.Services.{LivePresence}
use nn_friends.Prelude.Dict.{Dict}
use nn_friends.Desk.Keeping.{
  get_user_friend_list-EndsWith, friend_infos_for_pids-EndsWith, EndsWith-connected,
}
use nn_friends.Desk.Connected.{
  KeepsConnected, Keeps-statement, Keeps-remote, Keeps-pure, Keeps-fail, Keeps-gets, Keeps-if,
  Keeps->>=, Keeps-query_row,
}

module _ (B : Backend) where
  pub Keeps-ensure_profiles : (pids : List ℕ) → KeepsConnected (ensure_profiles B pids)
  Keeps-ensure_profiles pids = record {
    kept = λ s.
        EndsWith-connected (ensure_profiles B pids) s
          (ensure_profiles-EndsWith B _ pids s (refl, refl));
  }

  pub Keeps-friend_list : (pid : ℕ) → KeepsConnected (get_user_friend_list B pid)
  Keeps-friend_list pid = record {
    kept = λ s.
        EndsWith-connected (get_user_friend_list B pid) s
          (get_user_friend_list-EndsWith B _ pid s (refl, refl));
  }

  pub Keeps-friend_infos :
      (viewer : ℕ) (pids : List ℕ) → KeepsConnected (friend_infos_for_pids B viewer pids)
  Keeps-friend_infos viewer pids = record {
    kept = λ s.
        EndsWith-connected (friend_infos_for_pids B viewer pids) s
          (friend_infos_for_pids-EndsWith B _ viewer pids s (refl, refl));
  }

  insert_missing_connected :
      (sender recipient sent expires : ℕ) (s : Server B.State)
      → (insert_missing B sender recipient sent expires s).connected ≡ s.connected
  unfolding insert_missing
  insert_missing_connected sender recipient sent expires s = (Keeps-statement _).kept s

  insert_each_connected :
      (others : List ℕ) (pid : ℕ) (outgoing : Bool) (sent expires : ℕ) (s : Server B.State)
      → (insert_each B others pid outgoing sent expires s).connected ≡ s.connected
  unfolding insert_each
  insert_each_connected [] pid outgoing sent expires s = refl
  insert_each_connected (other ∷ others) pid true sent expires s =
      insert_each_connected others pid true sent expires (insert_missing B pid other sent expires s)
      ∙ insert_missing_connected pid other sent expires s
  insert_each_connected (other ∷ others) pid false sent expires s =
      insert_each_connected others pid false sent expires
        (insert_missing B other pid sent expires s)
      ∙ insert_missing_connected other pid sent expires s

  filled_connected :
      (others : List ℕ) (pid : ℕ) (outgoing : Bool) (p : Result Error (Unit {0}) × Server B.State)
      → (filled B others pid outgoing p).connected ≡ p.1.connected
  unfolding filled
  filled_connected others pid outgoing (err e, s) = refl
  filled_connected others pid outgoing (ok a, s) = insert_each_connected others pid outgoing _ _ s

  reported_connected :
      (pid : ℕ) (outgoing : Bool) (p : Result Error (List ℕ) × Server B.State)
      → (reported B pid outgoing p).1.connected ≡ p.1.connected
  unfolding materialize_requests
  reported_connected pid outgoing (err e, s) = refl
  reported_connected pid outgoing (ok [], s) = refl
  reported_connected pid outgoing (ok (p ∷ ps), s) =
      filled_connected (p ∷ ps) pid outgoing (ensure_profiles B (p ∷ ps) s)
      ∙ (Keeps-ensure_profiles (p ∷ ps)).kept s

  Keeps-list_in : (pid : ℕ) (live : List ℕ) → KeepsConnected (list_in B pid live)
  unfolding list_in
  Keeps-list_in pid live =
      Keeps->>= (statement (λ t. (select_in pid t, t))) _
        (Keeps-statement (λ t. (select_in pid t, t))) (λ rows. record { kept = λ s. refl })

  Keeps-list_out : (pid : ℕ) (live : List ℕ) → KeepsConnected (list_out B pid live)
  unfolding list_out
  Keeps-list_out pid live =
      Keeps->>= (statement (λ t. (select_out pid t, t))) _
        (Keeps-statement (λ t. (select_out pid t, t))) (λ rows. record { kept = λ s. refl })

  pub Keeps-requests_in : (pid : ℕ) → KeepsConnected (get_user_friend_requests_in B pid)
  unfolding get_user_friend_requests_in
  Keeps-requests_in pid = record {
    kept = λ s.
        (Keeps-list_in pid
            (reported B pid false (remote (B.incoming_requester_pids "wiiu" pid) s)).0).kept
          _
        ∙ reported_connected pid false (remote (B.incoming_requester_pids "wiiu" pid) s)
        ∙ (Keeps-remote (B.incoming_requester_pids "wiiu" pid)).kept s;
  }

  pub Keeps-requests_out : (pid : ℕ) → KeepsConnected (get_user_friend_requests_out B pid)
  unfolding get_user_friend_requests_out
  Keeps-requests_out pid = record {
    kept = λ s.
        (Keeps-list_out pid
            (reported B pid true (remote (B.outgoing_addressee_pids "wiiu" pid) s)).0).kept
          _
        ∙ reported_connected pid true (remote (B.outgoing_addressee_pids "wiiu" pid) s)
        ∙ (Keeps-remote (B.outgoing_addressee_pids "wiiu" pid)).kept s;
  }

  pub Keeps-comment : (pid : ℕ) → KeepsConnected (get_user_comment B pid)
  unfolding get_user_comment
  Keeps-comment pid =
      Keeps->>= (query_row (λ t. get t.user_data pid) pid_not_found) _
        (Keeps-query_row (λ t. get t.user_data pid) pid_not_found) (λ row. Keeps-pure _)

  pub Keeps-preference : (pid : ℕ) → KeepsConnected (get_user_principal_preference B pid)
  unfolding get_user_principal_preference
  Keeps-preference pid =
      Keeps->>= (query_row (λ t. get t.user_data pid) pid_not_found) _
        (Keeps-query_row (λ t. get t.user_data pid) pid_not_found) (λ row. Keeps-pure _)

  pub Keeps-block_list : (pid : ℕ) → KeepsConnected {G = B.State} (get_user_block_list pid)
  unfolding get_user_block_list
  Keeps-block_list pid = Keeps-statement (λ t. (select_blocks pid t, t))

  pub Keeps-account_info :
      (pid : ℕ) (nna : NnaInfo) (birthday : ℕ)
      → KeepsConnected (update_network_account_info B pid nna birthday)
  unfolding update_network_account_info update_user_principal_basic_info update_user_mii
  Keeps-account_info pid nna birthday =
      Keeps->>= (statement (set_account_info pid _)) _ (Keeps-statement (set_account_info pid _))
        (λ a.
          Keeps->>= (statement (set_principal pid _)) _ (Keeps-statement (set_principal pid _))
            (λ b. Keeps-statement (set_mii pid nna.principal.mii)))

  -- The refresh of a profile, on either console.
  Keeps-mark_now : (pid : ℕ) → KeepsConnected (mark_now B pid)
  unfolding mark_now
  Keeps-mark_now pid = record { kept = λ s. refl }

  Keeps-write_profile :
      (pid : ℕ) (user : Profile) (now : ℕ) → KeepsConnected (write_profile B pid user now)
  unfolding write_profile
  Keeps-write_profile pid user now =
      Keeps->>= (statement (write_principal pid user)) _
        (Keeps-statement (write_principal pid user))
        (λ a.
          Keeps->>= (statement (write_mii pid user now)) _
            (Keeps-statement (write_mii pid user now))
            (λ b.
              Keeps->>= (statement (write_account_info pid)) _
                (Keeps-statement (write_account_info pid))
                (λ c. Keeps-statement (write_user_data pid))))

  pub Keeps-refresh_profile : (pid : ℕ) → KeepsConnected (Profiles.refresh_profile B pid)
  unfolding Profiles.refresh_profile
  Keeps-refresh_profile pid =
      Keeps->>= (remote (B.get_user_data pid)) _ (Keeps-remote (B.get_user_data pid)) (λ user.
        Keeps->>= (gets (λ s. B.stamp (B.now s.backend))) _
          (Keeps-gets (λ s. B.stamp (B.now s.backend)))
          (λ now.
            Keeps-if user.deleted (fail profile_deleted)
              (do write_profile B pid user now; mark_now B pid) (Keeps-fail profile_deleted)
              (Keeps->>= (write_profile B pid user now) _ (Keeps-write_profile pid user now)
                (λ a. Keeps-mark_now pid))))

  pub Keeps-refresh_3ds : (pid : ℕ) → KeepsConnected (CtrProfiles.refresh_profile B pid)
  unfolding CtrProfiles.refresh_profile
  Keeps-refresh_3ds pid =
      Keeps->>= (remote (B.get_user_data pid)) _ (Keeps-remote (B.get_user_data pid)) (λ user.
        Keeps-if user.deleted (fail profile_deleted)
          (do statement (write_mii_3ds pid user); mark_now B pid) (Keeps-fail profile_deleted)
          (Keeps->>= (statement (write_mii_3ds pid user)) _
            (Keeps-statement (write_mii_3ds pid user)) (λ a. Keeps-mark_now pid)))

  pub foreign_friends_connected :
      (R : Rendering) (ns : String) (viewer : ℕ) (s : Server B.State)
      → (foreign_friends B R ns viewer s).1.connected ≡ s.connected
  unfolding foreign_friends foreign_for foreign remote
  foreign_friends_connected R ns viewer s = go (B.configured s.backend)
    where
      by_presence :
          (p : Result Error (List LivePresence) × Server B.State)
          → (live_answer B R ns p).1.connected ≡ p.1.connected
      by_presence (ok ps, t) = refl
      by_presence (err e, t) = refl

      by_accounts :
          (accounts : List String) (t : Server B.State)
          → (foreign B R ns accounts t).1.connected ≡ t.connected
      by_accounts [] t = refl
      by_accounts (a ∷ as') t = by_presence (_, record t { backend = _ })

      by_friends :
          (p : Result Error (Dict ℕ String) × Server B.State)
          → (foreign_of B R ns p).1.connected ≡ p.1.connected
      by_friends (ok by_pid, t) = by_accounts _ t
      by_friends (err e, t) = refl

      go :
          (b : Bool)
          → (if b
              then foreign_of B R ns (remote (B.friend_accounts_by_pid ns viewer) s)
              else ([], s)).1.connected
            ≡ s.connected
      go true = by_friends (remote (B.friend_accounts_by_pid ns viewer) s)
      go false = refl
