-- ===== src/Tests/Rows.antt =====
-- The theorems on the tables of the Wii U service and on erasing an account, at concrete inputs.
use nn_friends.Prelude.{
  Ends, String, Result, ℕ, ◌≡◌, refl, none, [], ◌∷◌, true, false, ok, err, OnOk, After, Ends, All,
  arith, recover, nat_beq, if◌then◌else◌, nat_eq,
}
use nn_friends.Errors.{Code, invalid_argument, driver}
use nn_friends.Coregraph.Client.{Client, account_of_pid, call}
use nn_friends.Coregraph.Social.{request, request_pending, incomplete, is_blocked}
use nn_friends.Database.Server.{Server, remote}
use nn_friends.Wiiu.Requests.{is_friend_request_blocked, save_friend_request}
use nn_friends.Wiiu.Requests.Saving.{IsSaved, save_friend_request-IsSaved}
use nn_friends.Wiiu.Listing.{get_user_friend_requests_in}
use nn_friends.Wiiu.Listing.Pending.{IsPendingIn, get_user_friend_requests_in-IsPendingIn}
use nn_friends.Wiiu.Blocks.{remove_friendship}
use nn_friends.Wiiu.Blocks.Removing.{IsRemoved, IsAtMostHalf, remove_friendship-IsRemoved}
use nn_friends.Erase.{erase}
use nn_friends.Erase.Rows.{IsErased, rows_of}
use nn_friends.Erase.Transaction.{erase-IsErased, erase_rollback}
use nn_friends.Erase.Success.{erase_succeeds}
use nn_friends.Wiiu.Requests.Success.{IsOk, save_friend_request-IsOk}
use nn_friends.Coregraph.Services.{Profile}
use nn_friends.Orphans.{purge_orphans}
use nn_friends.Orphans.Rows.{KeepsRows}
use nn_friends.Orphans.Keeping.{purge_orphans-KeepsRows}
use nn_friends.Wiiu.Profiles.{ensure_profiles}
use nn_friends.Wiiu.Profiles.Refresh.{IsSound}
use nn_friends.Wiiu.Profiles.Rows.{HaveRows, ensure_profiles-HaveRows}
use nn_friends.Tests.Demo.{client, backend, server, tables}

save_friend_request-IsSaved_example :
    After
      (λ id t. IsSaved false 2 1 1000 2000 tables.requests id t.tables.requests)
      (save_friend_request backend 2 1 1000 2000 "hi")
      server
unfolding is_friend_request_blocked is_blocked account_of_pid call recover remote
save_friend_request-IsSaved_example =
    save_friend_request-IsSaved backend 2 1 1000 2000 "hi" false server
      (is_friend_request_blocked backend 1 2 server).1 refl

get_user_friend_requests_in-IsPendingIn_example :
    After
      (λ ls u. All (IsPendingIn 1 u.backend.world backend.standard u.tables) ls)
      (get_user_friend_requests_in backend 1)
      server
get_user_friend_requests_in-IsPendingIn_example =
    get_user_friend_requests_in-IsPendingIn backend 1 server

-- The server before `Init`, which reaches no core.
abbrev offline : Server (Client ℕ)
offline = record server { backend = record client { configured = false } }

-- Also a row the other way.
abbrev both_ways : Server (Client ℕ)
both_ways = record server {
  tables = record tables {
    friendships =
        record { user1_pid = 2; user2_pid = 1; date = 0; active = true } ∷ tables.friendships;
  };
}

remove_friendship-IsRemoved_example :
    Ends
      (λ _ t. IsRemoved 1 2 both_ways t)
      (IsAtMostHalf 1 2 both_ways)
      (remove_friendship backend 1 2)
      both_ways
remove_friendship-IsRemoved_example = remove_friendship-IsRemoved backend 1 2 both_ways

erase-IsErased_example :
    OnOk
      (λ n.
        IsErased (2 ∷ []) tables (erase (λ account g. (ok (2 ∷ []), g)) none "bob" server).1.tables
        × (n ≡ rows_of (2 ∷ []) tables))
      (erase (λ account g. (ok (2 ∷ []), g)) none "bob" server).0
erase-IsErased_example =
    erase-IsErased (λ account g. (ok (2 ∷ []), g)) none "bob" server (2 ∷ []) client refl

-- The third statement of the transaction is refused.
abbrev failing : Server (Client ℕ)
failing = record server { faults = false ∷ false ∷ false ∷ true ∷ [] }

erase_rollback_example :
    (erase (λ account g. (ok (2 ∷ []), g)) none "bob" failing).1.tables ≡ tables
unfolding erase remote
erase_rollback_example =
    erase_rollback (λ account g. (ok (2 ∷ []), g)) none "bob" failing (driver 0) refl

erase_succeeds_example :
    (erase (λ account g. (ok (2 ∷ []), g)) none "bob" server).0 ≡ ok (rows_of (2 ∷ []) tables)
erase_succeeds_example =
    erase_succeeds (λ account g. (ok (2 ∷ []), g)) none "bob" server 2 [] client refl refl

save_friend_request-IsOk_example : IsOk (save_friend_request backend 2 1 1000 2000 "hi" server).0
unfolding is_friend_request_blocked is_blocked account_of_pid call recover remote request
    request_pending
save_friend_request-IsOk_example =
    save_friend_request-IsOk backend false 2 1 1000 2000 "hi" server
      (is_friend_request_blocked backend 1 2 server).1
      (remote (backend.request "wiiu" 2 1) (is_friend_request_blocked backend 1 2 server).1).1
      incomplete refl refl refl

-- nn-account does not know the PID 2.
abbrev user_data_of : ℕ → Client ℕ → Result (Code × String) Profile × Client ℕ
user_data_of pid g = (
  if nat_beq pid 2
      then err (invalid_argument, "No PNID found")
      else ok (record { deleted = false; username = "alice"; mii_name = "m"; mii_bytes = [] }),
  g,
)

purge_orphans-KeepsRows_example : KeepsRows 1 tables (purge_orphans user_data_of server).tables
purge_orphans-KeepsRows_example = purge_orphans-KeepsRows user_data_of 1 server (λ g h. cc h)

ensure_profiles-HaveRows_example :
    Ends
      (λ _ t. IsSound tables.principals t × HaveRows (2 ∷ 3 ∷ []) t)
      (IsSound tables.principals)
      (ensure_profiles backend (2 ∷ 3 ∷ []))
      (record server { expires = (2, 1200) ∷ [] })
ensure_profiles-HaveRows_example =
    ensure_profiles-HaveRows backend (2 ∷ 3 ∷ []) (record server { expires = (2, 1200) ∷ [] })
      (λ pid until known. ground arith)
