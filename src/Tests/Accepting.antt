-- ===== src/Tests/Accepting.antt =====
-- The theorems on accepting a friend request, at concrete inputs.
use nn_friends.Prelude.{ℕ, [], ◌∷◌, After, err}
use nn_friends.Errors.{other, rpc}
use nn_friends.Database.Tables.{default_user_data}
use nn_friends.Database.Backend.{Backend}
use nn_friends.Database.Server.{Server, remote, statement, query_row}
use nn_friends.Coregraph.Client.{Client}
use nn_friends.Profilecache.{fresh, mark, set_expiry}
use nn_friends.Coregraph.Client.{call, account_of_pid}
use nn_friends.Coregraph.Social.{accept_request}
use nn_friends.Wiiu.Requests.{set_friend_request_accepted, update_by_id}
use nn_friends.Wiiu.Profiles.{
  get_user_network_account_info, get_user_principal_basic_info, get_user_mii, get_user_comment,
  ensure_profiles, ensure_stale, refresh_profile, write_profile, mark_now,
}
use nn_friends.Wiiu.Requests.Success.{IsOk}
use nn_friends.Wiiu.Accepting.{
  accept_friend_request_and_return_friend_info, accept_row, friend_info, last_online_of,
}
use nn_friends.Wiiu.Accepting.Laws.{IsAccepted, accept_friend_request-IsAccepted}
use nn_friends.Tests.Demo.{backend, server, tables}

-- bob, who has asked, has a profile here.
abbrev pub known : Server (Client ℕ)
known = record server {
  tables = record tables {
    account_info = (2, record { unknown1 = 0; unknown2 = 0; birthday = 0 }) ∷ [];
    user_data = (2, default_user_data) ∷ [];
  };
}

-- The core refuses.
abbrev refusing : Backend
refusing = record backend { accept_request = λ ns addressee requester s. (err (rpc other), s) }

accept_friend_request-IsAccepted_example :
    After
      (IsAccepted backend 5 known)
      (accept_friend_request_and_return_friend_info backend 5)
      known
accept_friend_request-IsAccepted_example = accept_friend_request-IsAccepted backend 5 known

-- It succeeds there.
accept_friend_request_run : IsOk (accept_friend_request_and_return_friend_info backend 5 known).0
unfolding accept_friend_request_and_return_friend_info accept_row friend_info last_online_of remote
    statement query_row set_friend_request_accepted update_by_id get_user_network_account_info
    get_user_principal_basic_info get_user_mii get_user_comment ensure_profiles ensure_stale
    refresh_profile write_profile mark_now mark set_expiry fresh call accept_request account_of_pid
accept_friend_request_run = tt
