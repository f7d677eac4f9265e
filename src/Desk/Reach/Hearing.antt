-- ===== src/Desk/Reach/Hearing.antt =====
-- What an event of the core leaves of globals.ConnectedUsers: coreevents/poller.go and profile.go.
use nn_friends.Prelude.{
  ℕ, ◌≡◌, refl, sym, subst, ◌∙◌, String, Option, none, some, List, [], ◌∷◌, Bool, true, false, ◌||◌,
  Result, ok, err, nat_eq,
}
use nn_friends.Prelude.Dict.{get, has}
use nn_friends.Errors.{Error}
use nn_friends.Types.{ConnectedUser, Platform, wup, ctr, namespace_of}
use nn_friends.Accounts.{online_pid_of_account}
use nn_friends.Profilecache.{invalidate}
use nn_friends.Database.Rows.{delete}
use nn_friends.Database.Backend.{Backend}
use nn_friends.Database.Server.{Server, remote}
use nn_friends.Wiiu.Profiles
use nn_friends.Wiiu.Requests.{on_requests}
use nn_friends.Wiiu.Listing.{Listed, get_user_friend_requests_in}
use nn_friends.Wiiu.Accepting.{FriendInfo}
use nn_friends.Wiiu.Friends.{friend_infos_for_pids}
use nn_friends.Ctr.Profiles as CtrProfiles
use nn_friends.Desk.{Desk, News}
use nn_friends.Events.{
  Kind, ending, deleted, profile_updated, requested, accepted, removed, message, unheard, kind_of,
  request_from, between_both, refresh_if, refresh_known, updated_pids, profile_changed,
  forget_requests, send, send_request, send_accepted, marked_accepted, accept_rows, tell_user,
  tell_resolved, tell_connected, tell_online, tell, handle_kind, handle,
}
use nn_friends.Desk.Connected.{KeepsConnected, Keeps-statement, Keeps-remote, Keeps->>=}
use nn_friends.Desk.Connected.Calls.{
  Keeps-requests_in, Keeps-friend_infos, Keeps-refresh_profile, Keeps-refresh_3ds,
}
use nn_friends.Desk.Reach.{IsSound}
use nn_friends.Desk.Reach.Presenting.{IsWell}
use nn_friends.Desk.Reach.Dropping.{drop_account-IsWell, run_erase-IsWell}

module _ (B : Backend) where
  -- A profile that changed is read again.
  refresh_if_connected :
      (pid : ℕ) (p : Result Error Bool × Server B.State)
      → (refresh_if B pid p).connected ≡ p.1.connected
  refresh_if_connected pid (err e, s) = refl
  refresh_if_connected pid (ok false, s) = refl
  refresh_if_connected pid (ok true, s) =
      (Keeps->>= (Profiles.refresh_profile B pid) (λ _. CtrProfiles.refresh_profile B pid)
          (Keeps-refresh_profile B pid) (λ _. Keeps-refresh_3ds B pid)).kept
        s

  refresh_known_connected :
      (pids : List ℕ) (s : Server B.State) → (refresh_known B pids s).connected ≡ s.connected
  unfolding refresh_known
  refresh_known_connected [] s = refl
  refresh_known_connected (pid ∷ pids) s =
      let t = record s { expires = invalidate pid s.expires } in
      refresh_known_connected pids _
      ∙ refresh_if_connected pid _
      ∙ (Keeps-statement {G = B.State}
            (λ t. (has t.principals pid || has t.user_data_3ds pid, t))).kept
          t

  updated_pids_connected :
      (p : Result Error (List ℕ) × Server B.State) → (updated_pids B p).connected ≡ p.1.connected
  updated_pids_connected (err e, s) = refl
  updated_pids_connected (ok pids, s) = refresh_known_connected pids _

  profile_changed-IsSound :
      (account : String) (s : Server B.State)
      → IsSound s.connected
      → IsSound (profile_changed B account s).connected
  unfolding profile_changed
  profile_changed-IsSound account s sound =
      subst IsSound
        (sym (
          updated_pids_connected (remote (B.pids_of_account account) s)
          ∙ (Keeps-remote (B.pids_of_account account)).kept s))
        sound

  Keeps-forget_requests :
      (account subject : String) → KeepsConnected (forget_requests B account subject)
  unfolding forget_requests
  Keeps-forget_requests account subject =
      Keeps->>= (remote (B.pid_of_account "wiiu" account)) _
        (Keeps-remote (B.pid_of_account "wiiu" account))
        (λ a.
          Keeps->>= (remote (B.pid_of_account "wiiu" subject)) _
            (Keeps-remote (B.pid_of_account "wiiu" subject))
            (λ b. Keeps-statement (λ t. (tt, on_requests (delete (between_both a b)) t))))

  -- Telling somebody of it reads the database.
  send_request_connected :
      (user : ConnectedUser) (other : ℕ) (p : Result Error (List Listed) × Server B.State)
      (d : Desk B.State)
      → (send_request B user other p d).server.connected ≡ p.1.connected
  send_request_connected user other (err e, s) d = refl
  send_request_connected user other (ok ls, s) d = go (request_from other ls)
    where
      told : Option Listed → Desk B.State
      told o = elim o [
        | none ↦ record d { server = s }
        | some l ↦ send B user (News.friend_request l) (record d { server = s })
      ]

      go : (o : Option Listed) → (told o).server.connected ≡ s.connected
      go none = refl
      go (some l) = refl

  send_accepted_connected :
      (user : ConnectedUser) (p : Result Error (List FriendInfo) × Server B.State)
      (d : Desk B.State)
      → (send_accepted B user p d).server.connected ≡ p.1.connected
  send_accepted_connected user (err e, s) d = refl
  send_accepted_connected user (ok [], s) d = refl
  send_accepted_connected user (ok (i ∷ infos), s) d = refl

  tell_user_connected :
      (platform : Platform) (kind : Kind) (user : ConnectedUser) (pid other : ℕ) (d : Desk B.State)
      → (tell_user B platform kind user pid other d).server.connected ≡ d.server.connected
  unfolding tell_user
  tell_user_connected wup requested user pid other d =
      send_request_connected user other (get_user_friend_requests_in B pid d.server) d
      ∙ (Keeps-requests_in B pid).kept d.server
  tell_user_connected wup accepted user pid other d =
      send_accepted_connected user
        (friend_infos_for_pids B pid (other ∷ []) (marked_accepted B pid other d.server)) d
      ∙ (Keeps-friend_infos B pid (other ∷ [])).kept (marked_accepted B pid other d.server)
      ∙ (Keeps-statement {G = B.State} {A = Unit {0}}
            (λ t. (tt, on_requests (accept_rows pid other) t))).kept
          d.server
  tell_user_connected wup removed user pid other d = refl
  tell_user_connected wup message user pid other d = refl
  tell_user_connected ctr accepted user pid other d = refl
  tell_user_connected ctr requested user pid other d = refl
  tell_user_connected ctr removed user pid other d = refl
  tell_user_connected ctr message user pid other d = refl
  tell_user_connected wup ending user pid other d = refl
  tell_user_connected wup deleted user pid other d = refl
  tell_user_connected wup profile_updated user pid other d = refl
  tell_user_connected wup unheard user pid other d = refl
  tell_user_connected ctr ending user pid other d = refl
  tell_user_connected ctr deleted user pid other d = refl
  tell_user_connected ctr profile_updated user pid other d = refl
  tell_user_connected ctr unheard user pid other d = refl

  tell_resolved_connected :
      (kind : Kind) (user : ConnectedUser) (pid : ℕ) (p : Result Error ℕ × Server B.State)
      (d : Desk B.State)
      → (tell_resolved B kind user pid p d).server.connected ≡ p.1.connected
  tell_resolved_connected kind user pid (err e, s) d = refl
  tell_resolved_connected kind user pid (ok other, s) d =
      tell_user_connected user.platform kind user pid other (record d { server = s })

  tell_connected_connected :
      (kind : Kind) (subject : String) (pid : ℕ) (o : Option ConnectedUser) (d : Desk B.State)
      → (tell_connected B kind subject pid o d).server.connected ≡ d.server.connected
  unfolding remote
  tell_connected_connected kind subject pid none d = refl
  tell_connected_connected kind subject pid (some user) d = go user.connection
    where
      answer : Result Error ℕ × Server B.State
      answer = remote (B.pid_of_account (namespace_of user.platform) subject) d.server

      told : Option ℕ → Desk B.State
      told c = elim c [ none ↦ d | some n ↦ tell_resolved B kind user pid answer d ]

      go : (c : Option ℕ) → (told c).server.connected ≡ d.server.connected
      go none = refl
      go (some n) = tell_resolved_connected kind user pid answer d

  tell-IsWell :
      (kind : Kind) (account subject : String) (d : Desk B.State)
      → IsWell B d
      → IsWell B (tell B kind account subject d)
  unfolding tell
  tell-IsWell kind account subject d sound = go (online_pid_of_account account d.accounts)
    where
      go : (o : Option ℕ) → IsWell B (tell_online B kind subject o d)
      go none = sound
      go (some pid) =
          subst IsSound
            (sym (tell_connected_connected kind subject pid (get d.server.connected pid) d)) sound

  handle_kind-IsWell :
      (kind : Kind) (account subject : String) (d : Desk B.State)
      → IsWell B d
      → IsWell B (handle_kind B kind account subject d)
  handle_kind-IsWell ending account subject d sound = drop_account-IsWell B account d sound
  handle_kind-IsWell deleted account subject d sound =
      run_erase-IsWell B account _ (drop_account-IsWell B account d sound)
  handle_kind-IsWell profile_updated account subject d sound =
      profile_changed-IsSound account d.server sound
  handle_kind-IsWell requested account subject d sound =
      tell-IsWell requested account subject d sound
  handle_kind-IsWell accepted account subject d sound = tell-IsWell accepted account subject d sound
  handle_kind-IsWell removed account subject d sound =
      tell-IsWell removed account subject
        (record d { server = (forget_requests B account subject d.server).1 })
        (subst IsSound (sym ((Keeps-forget_requests account subject).kept d.server)) sound)
  handle_kind-IsWell message account subject d sound = tell-IsWell message account subject d sound
  handle_kind-IsWell unheard account subject d sound = sound

  pub heard-IsWell :
      (typ account subject : String) (d : Desk B.State)
      → IsWell B d
      → IsWell B (handle B typ account subject d)
  unfolding handle
  heard-IsWell typ account subject d sound =
      handle_kind-IsWell (kind_of typ) account subject d sound
