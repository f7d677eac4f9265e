-- ===== src/Desk/Wiiu.antt =====
-- nex/friends-wiiu: the calls about friend requests, friends and blocks. `caller` is the PID of the
-- connection, `malformed` says that nex-go could not decode the arguments.
pub mod Asking
pub mod Silence
use nn_friends.Prelude.{
  ℕ, ◌+◌, ◌*◌, String, Option, none, some, List, [], ◌∷◌, Bool, true, false, Exec, Result, ok, err,
  pure, fail, ◌>>=◌, ◌>>◌, if◌then◌else◌, nat_eq, nat_beq,
}
use nn_friends.Prelude.Dict.{get}
use nn_friends.Errors.{Error, is_pid_missing, is_request_missing, is_friendship_missing}
use nn_friends.Types.{ConnectedUser}
use nn_friends.Database.Backend.{Backend}
use nn_friends.Database.Server.{Server}
use nn_friends.Wiiu.Profiles.{
  PrincipalInfo, Comment, Preference, get_user_principal_basic_info, get_user_network_account_info,
  get_user_comment,
}
use nn_friends.Wiiu.Requests.{
  is_friend_request_blocked, save_friend_request, delete_friend_request, set_friend_request_denied,
  set_friend_request_received, get_pids_by_friend_request_id,
}
use nn_friends.Wiiu.Listing.{Listed}
use nn_friends.Wiiu.Blocks.{set_user_blocked, unset_user_blocked}
use nn_friends.Wiiu.Blocks
use nn_friends.Wiiu.BlockList.{Blacklisted}
use nn_friends.Wiiu.Accepting.{
  FriendInfo, presence_of, stamped, accept_friend_request_and_return_friend_info,
}
use nn_friends.Wiiu.Updates.{update_user_comment, update_user_principal_preference}
use nn_friends.Desk.{
  Desk, Handler, NexError, invalid_argument, unknown, invalid_principal_id, invalid_message_id,
  not_in_my_friend_list, not_in_my_blacklist, core_unknown, News, friend_request, request_accepted,
  friendship_removed, db, decoded, look, notify, notice_for,
}

-- What an error of the database package becomes.
abbrev pub or_unknown : Error → NexError
or_unknown e = unknown

abbrev pub principal_error : Error → NexError
principal_error e = if is_pid_missing e then invalid_principal_id else unknown

abbrev pub request_error : Error → NexError
request_error e = if is_request_missing e then invalid_message_id else unknown

abbrev pub friendship_error : Error → NexError
friendship_error e = if is_friendship_missing e then not_in_my_friend_list else unknown

abbrev pub blacklist_error : Error → NexError
blacklist_error e = if is_pid_missing e then not_in_my_blacklist else unknown

-- `time.Hour * 24 * 29`, in seconds.
abbrev pub request_lifetime : ℕ
request_lifetime = 29 * 24 * 3600

-- A FriendRequest as it is built for the reply and for the notification.
abbrev pub sent_request : PrincipalInfo → ℕ → String → ℕ → ℕ → Listed
sent_request principal id message sent expires = record {
  principal = principal;
  id = id;
  received = false;
  message = message;
  expires_on = expires;
  sent_on = sent;
}

module _ (B : Backend) where
  abbrev now : Desk B.State → ℕ
  now d = B.now d.server.backend

  unfoldable pub add_friend_request : ℕ → Bool → ℕ → String → Handler B.State Listed
  add_friend_request caller malformed pid message = decoded malformed invalid_argument (do
    sender ← db or_unknown (get_user_principal_basic_info B caller)
    recipient ← db principal_error (get_user_principal_basic_info B pid)
    time ← look now
    id ← db or_unknown (
        save_friend_request B caller pid (B.stamp time) (B.stamp (time + request_lifetime)) message)
    notify pid (
        friend_request
          (sent_request sender id message (B.stamp time) (B.stamp (time + request_lifetime))))
    pure (sent_request recipient id message (B.stamp time) (B.stamp (time + request_lifetime))))

  -- An error of GetUserComment is logged, and an empty comment shown.
  abbrev comment_or_none :
      Result Error Comment × Server B.State → Result Error Comment × Server B.State
  comment_or_none (ok c, s) = (ok c, s)
  comment_or_none (err e, s) = (ok (record { contents = ""; last_changed = 0 }), s)

  -- What the friend is told of the caller who has accepted.
  unfoldable pub tell_accepted :
      ℕ → FriendInfo → Option ConnectedUser → Option ConnectedUser → Handler B.State (Unit {0})
  tell_accepted caller info (some friend) (some user) = do
    nna ← db or_unknown (get_user_network_account_info B caller)
    status ← db or_unknown (λ s. comment_or_none (get_user_comment B caller s))
    notify info.nna.principal.pid
        (request_accepted (record info { nna = nna; presence = user.presence_v2; status = status }))
  tell_accepted caller info _ _ = pure tt

  unfoldable pub accept_friend_request : ℕ → Bool → ℕ → Handler B.State FriendInfo
  unfolding tell_accepted
  accept_friend_request caller malformed id = decoded malformed invalid_argument (do
    info ← db request_error (accept_friend_request_and_return_friend_info B id)
    friend ← look (λ d. get d.server.connected info.nna.principal.pid)
    user ← look (λ d. get d.server.connected caller)
    tell_accepted caller info friend user
    pure info)

  -- The error of SetFriendRequestDenied is not told apart.
  unfoldable pub deny_friend_request : ℕ → Bool → ℕ → Handler B.State Blacklisted
  deny_friend_request caller malformed id = decoded malformed invalid_argument (do
    db or_unknown (set_friend_request_denied B id)
    pids ← db request_error (get_pids_by_friend_request_id B id)
    db or_unknown (set_user_blocked B caller pids.0 0 0)
    info ← db or_unknown (get_user_principal_basic_info B pids.0)
    time ← look now
    pure (record { principal = info; title_id = 0; title_version = 0; since = B.stamp time }))

  unfoldable pub cancel_friend_request : ℕ → Bool → ℕ → Handler B.State (Unit {0})
  cancel_friend_request caller malformed id = decoded malformed invalid_argument (do
    pid ← db request_error (delete_friend_request B id)
    notify pid (friendship_removed caller))

  -- DeleteFriendRequest
  unfoldable pub decline_friend_request : ℕ → Bool → ℕ → Handler B.State (Unit {0})
  decline_friend_request caller malformed id =
      decoded malformed invalid_argument (db request_error (set_friend_request_denied B id))

  receive_all : List ℕ → Exec (Server B.State) Error (Unit {0})
  receive_all [] s = (ok tt, s)
  receive_all (id ∷ ids) s = (set_friend_request_received B id >>= λ _. receive_all ids) s

  unfoldable pub mark_friend_requests_as_received : ℕ → Bool → List ℕ → Handler B.State (Unit {0})
  unfolding receive_all
  mark_friend_requests_as_received caller malformed ids =
      decoded malformed invalid_argument (db or_unknown (receive_all ids))

  -- The friend is told the PID that was removed, their own.
  unfoldable pub remove_friend : ℕ → Bool → ℕ → Handler B.State (Unit {0})
  remove_friend caller malformed pid = decoded malformed invalid_argument (do
    db friendship_error (Blocks.remove_friendship B caller pid)
    notify pid (friendship_removed pid))

  -- The reply is the principal that the console sent.
  unfoldable pub add_black_list : ℕ → Bool → Blacklisted → Handler B.State Blacklisted
  add_black_list caller malformed principal = decoded malformed invalid_argument (do
    db principal_error (get_user_principal_basic_info B principal.principal.pid)
    db or_unknown (
        set_user_blocked B caller principal.principal.pid principal.title_id
          principal.title_version)
    pure principal)

  unfoldable pub remove_black_list : ℕ → Bool → ℕ → Handler B.State (Unit {0})
  remove_black_list caller malformed pid =
      decoded malformed invalid_argument (db blacklist_error (unset_user_blocked B caller pid))
