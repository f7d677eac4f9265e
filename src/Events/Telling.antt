-- ===== src/Events/Telling.antt =====
-- What a friendship event tells and forgets: handle of coreevents/poller.go.
use nn_friends.Prelude.{
  ℕ, ◌≡◌, refl, sym, ap, ◌∙◌, String, ◌⊎◌, inl, inr, Option, none, some, List, [], ◌∷◌, ◌++◌,
  Result, ok, err, Ends, Ends->>=, OnBoth, After, After->>=, keep, nat_eq,
}
use nn_friends.Prelude.Dict.{get}
use nn_friends.Errors.{Error}
use nn_friends.Types.{ConnectedUser, Platform, wup, ctr, namespace_of}
use nn_friends.Accounts.{online_pid_of_account}
use nn_friends.Database.Backend.{Backend}
use nn_friends.Database.Rows.{delete}
use nn_friends.Database.Rows.Laws.{keep-delete}
use nn_friends.Database.Server.{Server, remote}
use nn_friends.Database.Server.Rules.{After-statement, After-remote_ok}
use nn_friends.Database.Server.Endings.{Ends-statement, Ends-remote}
use nn_friends.Wiiu.Requests.{on_requests}
use nn_friends.Wiiu.Listing.{Listed, get_user_friend_requests_in}
use nn_friends.Wiiu.Accepting.{FriendInfo}
use nn_friends.Wiiu.Friends.{friend_infos_for_pids}
use nn_friends.Desk.{Desk, News, notice_for}
use nn_friends.Events.{
  Kind, requested, accepted, removed, message, ending, deleted, profile_updated, unheard, kind_of,
  request_from, between_both, forget_requests, send_request, send_accepted, marked_accepted,
  tell_user, tell_resolved, tell_connected, tell_online, tell, handle, handle_kind,
}

-- The events about friends, and messages.
abbrev pub IsSocial : Kind → Type 0
IsSocial requested = Unit {0}
IsSocial accepted = Unit {0}
IsSocial removed = Unit {0}
IsSocial message = Unit {0}
IsSocial _ = ⊥

module _ (B : Backend) where
  -- Nothing, or one notice, to `user`.
  abbrev pub IsAtMostOne : ConnectedUser → Desk B.State → Desk B.State → Type 0
  IsAtMostOne user d e =
      (e.sent ≡ d.sent) ⊎ ((news : News) × (e.sent ≡ d.sent ++ notice_for (some user) news))

  send_request-IsAtMostOne :
      (user : ConnectedUser) (other : ℕ) (p : Result Error (List Listed) × Server B.State)
      (d : Desk B.State)
      → IsAtMostOne user d (send_request B user other p d)
  send_request-IsAtMostOne user other (err e, s) d = inl refl
  send_request-IsAtMostOne user other (ok ls, s) d = go (request_from other ls)
    where
      go :
          (o : Option Listed)
          → IsAtMostOne user d (elim o [
            | none ↦ record d { server = s }
            | some l ↦ record d {
              server = s;
              sent = d.sent ++ notice_for (some user) (News.friend_request l);
            }
          ])
      go none = inl refl
      go (some l) = inr (_, refl)

  send_accepted-IsAtMostOne :
      (user : ConnectedUser) (p : Result Error (List FriendInfo) × Server B.State)
      (d : Desk B.State)
      → IsAtMostOne user d (send_accepted B user p d)
  send_accepted-IsAtMostOne user (err e, s) d = inl refl
  send_accepted-IsAtMostOne user (ok [], s) d = inl refl
  send_accepted-IsAtMostOne user (ok (i ∷ infos), s) d = inr (_, refl)

  tell_user-IsAtMostOne :
      (platform : Platform) (kind : Kind) (user : ConnectedUser) (pid other : ℕ) (d : Desk B.State)
      → IsAtMostOne user d (tell_user B platform kind user pid other d)
  unfolding tell_user
  tell_user-IsAtMostOne wup requested user pid other d =
      send_request-IsAtMostOne user other (get_user_friend_requests_in B pid d.server) d
  tell_user-IsAtMostOne wup accepted user pid other d =
      send_accepted-IsAtMostOne user
        (friend_infos_for_pids B pid (other ∷ []) (marked_accepted B pid other d.server)) d
  tell_user-IsAtMostOne wup removed user pid other d = inr (_, refl)
  tell_user-IsAtMostOne wup message user pid other d = inl refl
  tell_user-IsAtMostOne ctr accepted user pid other d = inr (_, refl)
  tell_user-IsAtMostOne ctr requested user pid other d = inl refl
  tell_user-IsAtMostOne ctr removed user pid other d = inl refl
  tell_user-IsAtMostOne ctr message user pid other d = inl refl
  tell_user-IsAtMostOne wup ending user pid other d = inl refl
  tell_user-IsAtMostOne wup deleted user pid other d = inl refl
  tell_user-IsAtMostOne wup profile_updated user pid other d = inl refl
  tell_user-IsAtMostOne wup unheard user pid other d = inl refl
  tell_user-IsAtMostOne ctr ending user pid other d = inl refl
  tell_user-IsAtMostOne ctr deleted user pid other d = inl refl
  tell_user-IsAtMostOne ctr profile_updated user pid other d = inl refl
  tell_user-IsAtMostOne ctr unheard user pid other d = inl refl

  -- Nobody is told; or one notice goes to the user connected with the PID that is online with the
  -- account.
  pub IsToldOnce : String → Desk B.State → Desk B.State → Type 0
  IsToldOnce account d e =
      (e.sent ≡ d.sent)
      ⊎ ((pid : ℕ) × (user : ConnectedUser) × (news : News) × (online_pid_of_account account
              d.accounts
            ≡ some pid)
          × (get d.server.connected pid ≡ some user)
          × (e.sent ≡ d.sent ++ notice_for (some user) news))

  tell-IsToldOnce :
      (kind : Kind) (account subject : String) (d : Desk B.State)
      → IsToldOnce account d (tell B kind account subject d)
  unfolding tell IsToldOnce
  tell-IsToldOnce kind account subject d = by_pid (online_pid_of_account account d.accounts) refl
    where
      by_answer :
          (pid : ℕ) (user : ConnectedUser) (p : Result Error ℕ × Server B.State)
          → online_pid_of_account account d.accounts ≡ some pid
          → get d.server.connected pid ≡ some user
          → IsToldOnce account d (tell_resolved B kind user pid p d)
      by_answer pid user (err e, s) online there = inl refl
      by_answer pid user (ok other, s) online there =
          elim (tell_user-IsAtMostOne user.platform kind user pid other (record d { server = s })) [
            | inl same ↦ inl same
            | inr (news, one) ↦ inr (pid, user, news, online, there, one)
          ]

      by_connection :
          (pid : ℕ) (user : ConnectedUser) (c : Option ℕ)
          → online_pid_of_account account d.accounts ≡ some pid
          → get d.server.connected pid ≡ some user
          → IsToldOnce account d (elim c [
            | none ↦ d
            | some n ↦
                tell_resolved B kind user pid
                  (remote (B.pid_of_account (namespace_of user.platform) subject) d.server)
                  d
          ])
      by_connection pid user none online there = inl refl
      by_connection pid user (some n) online there =
          by_answer pid user
            (remote (B.pid_of_account (namespace_of user.platform) subject) d.server) online there

      by_user :
          (pid : ℕ) (o : Option ConnectedUser)
          → online_pid_of_account account d.accounts ≡ some pid
          → get d.server.connected pid ≡ o
          → IsToldOnce account d (tell_connected B kind subject pid o d)
      by_user pid none online there = inl refl
      by_user pid (some user) online there = by_connection pid user user.connection online there

      by_pid :
          (o : Option ℕ)
          → online_pid_of_account account d.accounts ≡ o
          → IsToldOnce account d (tell_online B kind subject o d)
      by_pid none online = inl refl
      by_pid (some pid) online = by_user pid (get d.server.connected pid) online refl

  -- Forgetting requests is about the tables alone.
  forget_requests_connected :
      (account subject : String) (s : Server B.State)
      → (forget_requests B account subject s).1.connected ≡ s.connected
  unfolding forget_requests
  forget_requests_connected account subject s = taken _ ends.holds
    where
      Same : Server B.State → Type 0
      Same t = t.connected ≡ s.connected

      ends : Ends {A = Unit {0}} (λ _ t. Same t) Same (forget_requests B account subject) s
      ends = Ends->>= (remote (B.pid_of_account "wiiu" account)) _ s (
          Ends-remote (B.pid_of_account "wiiu" account) s
            (λ a. Ends->>= (remote (B.pid_of_account "wiiu" subject)) _ _ (
              Ends-remote (B.pid_of_account "wiiu" subject) _
                (λ b.
                  Ends-statement (λ t. (tt, on_requests (delete (between_both a b)) t)) _ refl refl)
                refl))
            refl)

      taken :
          (p : Result Error (Unit {0}) × Server B.State) → OnBoth (λ _ t. Same t) Same p → Same p.1
      taken (ok a, t) h = h
      taken (err e, t) h = h

  -- Before an ended friendship is told, its requests are forgotten; nothing is sent by that.
  forget-IsToldOnce :
      (account : String) (d e : Desk B.State) (s : Server B.State)
      → s.connected ≡ d.server.connected
      → IsToldOnce account (record d { server = s }) e
      → IsToldOnce account d e
  unfolding IsToldOnce
  forget-IsToldOnce account d e s same (inl quiet) = inl quiet
  forget-IsToldOnce account d e s same (inr (pid, user, news, online, there, one)) =
      inr (pid, user, news, online, ap (λ c. get c pid) (sym same) ∙ there, one)

  -- A friendship event or a message is told to at most one console: the one that is connected with the
  -- PID that is online with the event's account, and once; if that account is not online, or nobody is
  -- connected with the PID, nobody is told anything.
  pub handle-IsToldOnce :
      (typ account subject : String) (d : Desk B.State)
      → IsSocial (kind_of typ)
      → IsToldOnce account d (handle B typ account subject d)
  unfolding handle
  handle-IsToldOnce typ account subject d social = go (kind_of typ) social
    where
      go : (k : Kind) → IsSocial k → IsToldOnce account d (handle_kind B k account subject d)
      go requested h = tell-IsToldOnce requested account subject d
      go accepted h = tell-IsToldOnce accepted account subject d
      go message h = tell-IsToldOnce message account subject d
      go removed h =
          forget-IsToldOnce account d _ (forget_requests B account subject d.server).1
            (forget_requests_connected account subject d.server)
            (tell-IsToldOnce removed account subject
              (record d { server = (forget_requests B account subject d.server).1 }))
      go ending h = absurd h
      go deleted h = absurd h
      go profile_updated h = absurd h
      go unheard h = absurd h

  -- If both accounts resolve and the statement runs, no request between the two is left, so none can
  -- resurrect the friendship that has ended.
  pub forget_requests-gone :
      (account subject : String) (s : Server B.State)
      → After
          (λ _ t.
            (a : ℕ) × (b : ℕ) × ((B.pid_of_account "wiiu" account s.backend).0 ≡ ok a)
            × (keep (between_both a b) t.tables.requests ≡ []))
          (forget_requests B account subject)
          s
  unfolding forget_requests
  forget_requests-gone account subject s =
      After->>= (remote (B.pid_of_account "wiiu" account)) _ s (
        After-remote_ok (B.pid_of_account "wiiu" account) s (λ a first_answer.
          After->>= (remote (B.pid_of_account "wiiu" subject)) _ _ (
            After-remote_ok (B.pid_of_account "wiiu" subject) _ (λ b second_answer.
              After-statement (λ t. (tt, on_requests (delete (between_both a b)) t)) _
                (a, b, first_answer, keep-delete (between_both a b) s.tables.requests)))))
