-- ===== src/Tests/Core.antt =====
-- The theorems on coregraph, profilecache and connected accounts at concrete inputs.
use nn_friends.Prelude.{
  ◌≡◌, refl, none, some, [], ◌∷◌, true, ok, OnOk, nat_eq, string_eq, contains, arith,
}
use nn_friends.Coregraph.Client.{account_of_pid}
use nn_friends.Coregraph.Client.Caching.{account_of_pid-FromTable, FromTable, IsCoherent}
use nn_friends.Coregraph.Client.Reverse
use nn_friends.Coregraph.Social.{incomplete, request}
use nn_friends.Coregraph.Social.Requests.{request-outcome}
use nn_friends.Coregraph.Links.{pids_of_account}
use nn_friends.Coregraph.Links.Distinct.{IsPidSet, pids_of_account-IsPidSet}
use nn_friends.Coregraph.Links.Complete.{Covers, pids_of_account-Covers}
use nn_friends.Profilecache.{fresh}
use nn_friends.Profilecache.History.{refreshed, updated, failed, replay, fresh-replay}
use nn_friends.Accounts.{
  Accounts, mark_account_offline, online_pid_of_account, online_pids_of_account,
}
use nn_friends.Accounts.Online.{IsLinked, mark_account_offline-other}
use nn_friends.Tests.Demo.{services, client, account_at, pid_at}

client-IsCoherent : IsCoherent services account_at client
client-IsCoherent = record { on = refl; cached = λ ns pid e h. cc }

account_of_pid-FromTable_example :
    FromTable (some "bob") (account_of_pid services "3ds" 2 client).0
    × IsCoherent services account_at (account_of_pid services "3ds" 2 client).1
account_of_pid-FromTable_example =
    account_of_pid-FromTable services account_at (λ ns pid w. refl) "3ds" 2 client client-IsCoherent

IsCoherent-rev : Reverse.IsCoherent services pid_at client
IsCoherent-rev = record { on = refl; cached = λ ns account e h. cc }

request-outcome_example : (request services "wiiu" 1 2 client).0 ≡ ok incomplete
unfolding account_of_pid
request-outcome_example =
    request-outcome services "wiiu" 1 2 "alice" "bob" client
      (account_of_pid services "wiiu" 1 client).1
      (account_of_pid services "wiiu" 2 (account_of_pid services "wiiu" 1 client).1).1 refl refl

pids_of_account-IsPidSet_example : OnOk IsPidSet (pids_of_account services "alice" client).0
pids_of_account-IsPidSet_example = pids_of_account-IsPidSet services "alice" client

pids_of_account-Covers_example :
    OnOk (Covers pid_at ("wiiu" ∷ "3ds" ∷ []) "alice") (pids_of_account services "alice" client).0
pids_of_account-Covers_example =
    pids_of_account-Covers services pid_at (λ ns account w. refl) "alice" client IsCoherent-rev

fresh-replay_example : fresh (replay (updated 2 ∷ refreshed 100 1 ∷ failed 90 2 ∷ [])) 300 1 ≡ true
fresh-replay_example = fresh-replay (updated 2 ∷ refreshed 100 1 ∷ failed 90 2 ∷ []) 300 1

abbrev two_online : Accounts
two_online = record { accounts = ("alice", 2) ∷ []; pids = (2, "alice") ∷ (1, "alice") ∷ [] }

two_online-IsLinked : IsLinked two_online
two_online-IsLinked = record {
  linked = λ account pid found.
      ground (arith, found, string_eq.beq_iff "alice" account, nat_eq.beq_iff 2 pid);
}

mark_account_offline-other_example :
    (online_pid_of_account "alice" (mark_account_offline 2 two_online) ≡ none)
    × (contains 1 (online_pids_of_account "alice" (mark_account_offline 2 two_online)) ≡ true)
unfolding online_pid_of_account
mark_account_offline-other_example =
    mark_account_offline-other "alice" 1 2 two_online (λ h. omega (arith, h)) refl refl refl
