-- ===== src/Wiiu/Accepting.antt =====
-- database/wiiu/accept_friend_request_and_return_friend_info.go: a user accepts a friend request.
pub mod Laws
use nn_friends.Prelude.{ℕ, Option, none, some, Exec, pure, ◌>>=◌, ◌>>◌, nat_eq}
use nn_friends.Prelude.Dict.{get}
use nn_friends.Errors.{Error, friend_request_not_found, pid_not_found}
use nn_friends.Types.{ConnectedUser, PresenceV2, new_presence_v2}
use nn_friends.Database.Tables.{FriendRequest}
use nn_friends.Database.Backend.{Backend}
use nn_friends.Database.Server.{Server, query_row, remote, gets}
use nn_friends.Database.Rows.{first}
use nn_friends.Wiiu.Profiles.{NnaInfo, Comment, get_user_network_account_info, get_user_comment}
use nn_friends.Wiiu.Requests.{has_id, set_friend_request_accepted}

-- FriendInfo of the Wii U protocol; its last field is always 0.
pub record FriendInfo : Type 0 where
  pub nna : NnaInfo
  pub presence : PresenceV2
  pub status : Comment
  pub became_friend : ℕ
  pub last_online : ℕ

abbrev pub presence_of : Option ConnectedUser → PresenceV2
presence_of none = new_presence_v2
presence_of (some user) = user.presence_v2

module _ (B : Backend) where
  abbrev pub stamped : Server B.State → ℕ
  stamped s = B.stamp (B.now s.backend)

  -- Now for a user who is online, and the stored time for another one.
  unfoldable pub last_online_of : Option ConnectedUser → ℕ → Exec (Server B.State) Error ℕ
  last_online_of (some user) pid = gets stamped
  last_online_of none pid = do
    row ← query_row (λ t. get t.user_data pid) pid_not_found
    pure row.last_online

  -- What is told of the friend: the part after the request is accepted.
  unfoldable pub friend_info : ℕ → ℕ → Exec (Server B.State) Error FriendInfo
  unfolding last_online_of
  friend_info pid accepted_time = do
    user ← gets (λ s. get s.connected pid)
    nna ← get_user_network_account_info B pid
    last_online ← last_online_of user pid
    status ← get_user_comment B pid
    pure (record {
      nna = nna;
      presence = presence_of user;
      status = status;
      became_friend = accepted_time;
      last_online = last_online;
    })

  -- The core accepts before the row is changed.
  unfoldable pub accept_row : ℕ → FriendRequest → Exec (Server B.State) Error FriendInfo
  unfolding friend_info
  accept_row id row = do
    accepted_time ← gets stamped
    remote (B.accept_request "wiiu" row.recipient_pid row.sender_pid)
    set_friend_request_accepted B id
    friend_info row.sender_pid accepted_time

  unfoldable pub accept_friend_request_and_return_friend_info :
      ℕ → Exec (Server B.State) Error FriendInfo
  unfolding accept_row
  accept_friend_request_and_return_friend_info id = do
    row ← query_row (λ t. first (has_id id) t.requests) friend_request_not_found
    accept_row id row
