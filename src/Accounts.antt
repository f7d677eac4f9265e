-- ===== src/Accounts.antt =====
-- globals/connected_accounts.go: which core account is online, and with which PIDs. The goroutine
-- of MarkAccountOnline is one step here, which runs whole between other steps of this module.
pub mod Online
use nn_friends.Prelude.{
  ℕ, String, Option, none, some, List, [], ◌∷◌, Bool, not, Result, ok, err, if◌then◌else◌, ◌==◌,
  nat_eq, string_eq, nat_beq,
}
use nn_friends.Prelude.Dict.{Dict, get, put, remove}
use nn_friends.Errors.{Error}
use nn_friends.Coregraph.Services.{Services}
use nn_friends.Coregraph.Client.{Client, account_of_pid}

pub record Accounts : Type 0 where
  pub accounts : Dict String ℕ
  pub pids : Dict ℕ String

-- The locked part of MarkAccountOnline, on the answer of AccountOfPID.
unfoldable pub learn_online : Result Error String → ℕ → Accounts → Accounts
learn_online (err e) pid a = a
learn_online (ok account) pid a =
    if account == ""
    then a
    else record { accounts = put a.accounts account pid; pids = put a.pids pid account }

unfoldable pub mark_account_online :
    (svc : Services) → String → ℕ → Client svc.World × Accounts → Client svc.World × Accounts
mark_account_online svc namespace pid (c, a) =
    if not c.configured
    then (c, a)
    else let (r, d) = account_of_pid svc namespace pid c in (d, learn_online r pid a)

-- `if connectedAccounts[accountID] == pid { delete }`
abbrev forget : Option ℕ → String → ℕ → Dict String ℕ → Dict String ℕ
forget none account pid d = d
forget (some p) account pid d = if nat_beq p pid then remove d account else d

abbrev taken_offline : Option String → ℕ → Accounts → Accounts
taken_offline none pid a = a
taken_offline (some account) pid a = record {
  accounts = forget (get a.accounts account) account pid a.accounts;
  pids = remove a.pids pid;
}

unfoldable pub mark_account_offline : ℕ → Accounts → Accounts
mark_account_offline pid a = taken_offline (get a.pids pid) pid a

abbrev with_account : String → Dict ℕ String → List ℕ
with_account account [] = []
with_account account ((pid, id) ∷ d) =
    if id == account then pid ∷ with_account account d else with_account account d

unfoldable pub online_pids_of_account : String → Accounts → List ℕ
online_pids_of_account account a = with_account account a.pids

unfoldable pub online_pid_of_account : String → Accounts → Option ℕ
online_pid_of_account account a = get a.accounts account
