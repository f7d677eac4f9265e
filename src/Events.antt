-- ===== src/Events.antt =====
-- What one core event does: handle and dropAccount of coreevents/poller.go, profileUpdated of
-- coreevents/profile.go. The goroutine of profileUpdated, which waits first, runs at once here.
pub mod Dropping
pub mod Telling
use nn_friends.Prelude.{
  ℕ, String, Option, none, some, List, [], ◌∷◌, ◌++◌, Bool, true, false, ◌||◌, ◌&&◌, ◌==◌,
  string_eq, Exec, Result, ok, err, pure, fail, ◌>>=◌, ◌>>◌, if◌then◌else◌, nat_beq, nat_eq,
}
use nn_friends.Prelude.Dict.{get, has}
use nn_friends.Errors.{Error}
use nn_friends.Types.{ConnectedUser, Platform, wup, ctr, namespace_of}
use nn_friends.Profilecache.{Expiries, invalidate}
use nn_friends.Accounts.{online_pid_of_account, online_pids_of_account}
use nn_friends.Erase.{erase_pids}
use nn_friends.Database.Tables.{Tables, FriendRequest}
use nn_friends.Database.Rows.{alter, delete}
use nn_friends.Database.Backend.{Backend}
use nn_friends.Database.Server.{Server, statement, remote}
use nn_friends.Wiiu.Profiles
use nn_friends.Wiiu.Requests.{between, on_requests}
use nn_friends.Wiiu.Listing.{Listed, get_user_friend_requests_in}
use nn_friends.Wiiu.Accepting.{FriendInfo}
use nn_friends.Wiiu.Friends.{friend_infos_for_pids}
use nn_friends.Ctr.Profiles as CtrProfiles
use nn_friends.Desk.{
  Desk, News, friend_request, request_accepted, friendship_removed, friendship_completed,
  notice_for,
}
use nn_friends.Desk.Connections.{connection_ended}

-- The event types, as far as `handle` tells them apart; `ending` is a ban or a started deletion.
pub data Kind : Type 0 where
  ending deleted profile_updated requested accepted removed message unheard : Kind

unfoldable pub kind_of : String → Kind
kind_of typ =
    if (typ == "account_banned") || (typ == "account_delete_started")
    then ending
    else if typ == "account_deleted"
    then deleted
    else if typ == "profile_updated"
    then profile_updated
    else if typ == "friend_requested"
    then requested
    else if typ == "friend_accepted"
    then accepted
    else if typ == "friend_removed"
    then removed
    else if typ == "message"
    then message
    else unheard

abbrev pub request_from : ℕ → List Listed → Option Listed
request_from pid [] = none
request_from pid (l ∷ ls) = if nat_beq l.principal.pid pid then some l else request_from pid ls

-- Rows of either of the two directions.
abbrev pub between_both : ℕ → ℕ → FriendRequest → Bool
between_both a b r = between a b r || between b a r

abbrev pub accept_rows : ℕ → ℕ → List FriendRequest → List FriendRequest
accept_rows sender recipient = alter (between sender recipient) (λ r. record r { accepted = true })

module _ (B : Backend) where
  -- CleanupConnection runs the connection-ended handler, for the PID of the connection, which is the
  -- one that the user is connected with.
  abbrev pub dropped : Option ConnectedUser → ℕ → Desk B.State → Desk B.State
  dropped none pid d = d
  dropped (some user) pid d = elim user.connection [ none ↦ d | some c ↦ connection_ended B pid d ]

  unfoldable pub drop_pids : List ℕ → Desk B.State → Desk B.State
  drop_pids [] d = d
  drop_pids (pid ∷ pids) d = drop_pids pids (dropped (get d.server.connected pid) pid d)

  unfoldable pub drop_account : String → Desk B.State → Desk B.State
  unfolding drop_pids
  drop_account account d = drop_pids (online_pids_of_account account d.accounts) d

  -- erase.Run, with dropSessions as Drop; its error is logged.
  abbrev pub erased_pids : Result Error (List ℕ) × Server B.State → Desk B.State → Desk B.State
  erased_pids (err e, s) d = record d { server = s }
  erased_pids (ok pids, s) d =
      let e = drop_pids pids (record d { server = s }) in
      record e { server = (erase_pids none pids e.server).1 }

  unfoldable pub run_erase : String → Desk B.State → Desk B.State
  unfolding drop_pids
  run_erase account d = erased_pids (remote (B.pids_of_account account) d.server) d

  abbrev invalidate_all : List ℕ → Expiries → Expiries
  invalidate_all [] expires = expires
  invalidate_all (pid ∷ pids) expires = invalidate_all pids (invalidate pid expires)

  -- A PID without a row on either console is left to its next read; an error is logged.
  abbrev pub refresh_if : ℕ → Result Error Bool × Server B.State → Server B.State
  refresh_if pid (err e, s) = s
  refresh_if pid (ok known, s) =
      if known
      then ((Profiles.refresh_profile B pid >>= λ _. CtrProfiles.refresh_profile B pid) s).1
      else s

  unfoldable pub refresh_known : List ℕ → Server B.State → Server B.State
  refresh_known [] s = s
  refresh_known (pid ∷ pids) s = refresh_known pids (
      refresh_if pid (
        statement (λ t. (has t.principals pid || has t.user_data_3ds pid, t))
          (record s { expires = invalidate pid s.expires })))

  abbrev pub updated_pids : Result Error (List ℕ) × Server B.State → Server B.State
  updated_pids (err e, s) = s
  updated_pids (ok pids, s) =
      refresh_known pids (record s { expires = invalidate_all pids s.expires })

  unfoldable pub profile_changed : String → Server B.State → Server B.State
  unfolding refresh_known
  profile_changed account s = updated_pids (remote (B.pids_of_account account) s)

  -- Local request metadata must not resurrect a friendship that the core ended.
  unfoldable pub forget_requests : String → String → Exec (Server B.State) Error (Unit {0})
  forget_requests account subject = do
    a ← remote (B.pid_of_account "wiiu" account)
    b ← remote (B.pid_of_account "wiiu" subject)
    statement (λ t. (tt, on_requests (delete (between_both a b)) t))

  abbrev pub send : ConnectedUser → News → Desk B.State → Desk B.State
  send user news d = record d { sent = d.sent ++ notice_for (some user) news }

  abbrev pub send_request :
      ConnectedUser → ℕ → Result Error (List Listed) × Server B.State → Desk B.State → Desk B.State
  send_request user other (err e, s) d = record d { server = s }
  send_request user other (ok ls, s) d = elim (request_from other ls) [
    | none ↦ record d { server = s }
    | some l ↦ send user (friend_request l) (record d { server = s })
  ]

  abbrev pub send_accepted :
      ConnectedUser → Result Error (List FriendInfo) × Server B.State → Desk B.State → Desk B.State
  send_accepted user (err e, s) d = record d { server = s }
  send_accepted user (ok [], s) d = record d { server = s }
  send_accepted user (ok (i ∷ infos), s) d =
      send user (request_accepted i) (record d { server = s })

  -- The row of the request is marked; an error is dropped.
  abbrev pub marked_accepted : ℕ → ℕ → Server B.State → Server B.State
  marked_accepted pid other s =
      (statement {A = Unit {0}} (λ t. (tt, on_requests (accept_rows pid other) t)) s).1

  unfoldable pub tell_user : Platform → Kind → ConnectedUser → ℕ → ℕ → Desk B.State → Desk B.State
  tell_user wup requested user pid other d =
      send_request user other (get_user_friend_requests_in B pid d.server) d
  tell_user wup accepted user pid other d =
      send_accepted user
        (friend_infos_for_pids B pid (other ∷ []) (marked_accepted pid other d.server)) d
  tell_user wup removed user pid other d = send user (friendship_removed other) d
  tell_user ctr accepted user pid other d = send user (friendship_completed other) d
  tell_user _ _ user pid other d = d

  abbrev pub tell_resolved :
      Kind → ConnectedUser → ℕ → Result Error ℕ × Server B.State → Desk B.State → Desk B.State
  tell_resolved kind user pid (err e, s) d = record d { server = s }
  tell_resolved kind user pid (ok other, s) d =
      tell_user user.platform kind user pid other (record d { server = s })

  abbrev pub tell_connected : Kind → String → ℕ → Option ConnectedUser → Desk B.State → Desk B.State
  tell_connected kind subject pid none d = d
  tell_connected kind subject pid (some user) d = elim user.connection [
    | none ↦ d
    | some c ↦
        tell_resolved kind user pid
          (remote (B.pid_of_account (namespace_of user.platform) subject) d.server) d
  ]

  -- Where the account is not online, the next list refresh materializes it.
  abbrev pub tell_online : Kind → String → Option ℕ → Desk B.State → Desk B.State
  tell_online kind subject none d = d
  tell_online kind subject (some pid) d =
      tell_connected kind subject pid (get d.server.connected pid) d

  unfoldable pub tell : Kind → String → String → Desk B.State → Desk B.State
  unfolding tell_user
  tell kind account subject d =
      tell_online kind subject (online_pid_of_account account d.accounts) d

  abbrev pub handle_kind : Kind → String → String → Desk B.State → Desk B.State
  handle_kind ending account subject d = drop_account account d
  handle_kind deleted account subject d = run_erase account (drop_account account d)
  handle_kind profile_updated account subject d = record d {
    server = profile_changed account d.server;
  }
  handle_kind unheard account subject d = d
  handle_kind removed account subject d =
      tell removed account subject
        (record d { server = (forget_requests account subject d.server).1 })
  handle_kind kind account subject d = tell kind account subject d

  unfoldable pub handle : String → String → String → Desk B.State → Desk B.State
  unfolding kind_of drop_account run_erase profile_changed forget_requests tell
  handle typ account subject d = handle_kind (kind_of typ) account subject d
