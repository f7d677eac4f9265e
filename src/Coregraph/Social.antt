-- ===== src/Coregraph/Social.antt =====
-- coregraph/coregraph.go: the operations on the friend graph. Each resolves its PIDs to accounts
-- and calls the account core.
pub mod Requests
pub mod Lists
use nn_friends.Prelude.{
  ℕ, String, Option, none, some, List, [], ◌∷◌, Bool, true, false, Exec, Result, ok, err, pure,
  fail, ◌>>=◌, ◌>>◌, if◌then◌else◌,
}
use nn_friends.Prelude.Dict.{Dict, put}
use nn_friends.Prelude.{nat_eq}
use nn_friends.Errors.{Error, Code, failed_precondition, rpc}
use nn_friends.Coregraph.Services.{
  Services, FriendState, accepted, pending, Relationship, blocked_by_self, blocked_by_other,
}
use nn_friends.Coregraph.Client.{Client, call, account_of_pid, pid_of_account}

-- `RequestState`; StateInvalid comes with an error in every return of the source.
pub data RequestState : Type 0 where
  incomplete complete : RequestState

-- `status.Code(err) == codes.FailedPrecondition`
abbrev pub is_failed_precondition : Error → Bool
is_failed_precondition (rpc failed_precondition) = true
is_failed_precondition _ = false

abbrev pub is_block : Relationship → Bool
is_block blocked_by_self = true
is_block blocked_by_other = true
is_block _ = false

module _ (svc : Services) where
  unfoldable pub friend_accounts : String → ℕ → Exec (Client svc.World) Error (List String)
  friend_accounts ns pid = do
    account ← account_of_pid svc ns pid
    call svc (svc.list_friends account)

  push_pid : ℕ → Result Error (List ℕ) × Client svc.World → Result Error (List ℕ) × Client svc.World
  push_pid p (ok ps, s) = (ok (p ∷ ps), s)
  push_pid p (err e, s) = (err e, s)

  -- The PIDs of a list of accounts; an account that does not resolve is skipped.
  unfoldable pub pids_of : String → List String → Exec (Client svc.World) Error (List ℕ)
  unfolding push_pid
  pids_of ns [] s = (ok [], s)
  pids_of ns (a ∷ as') s =
      let (r, t) = pid_of_account svc ns a s in
      let rest = pids_of ns as' t in elim r [ ok p ↦ push_pid p rest | err e ↦ rest ]

  unfoldable pub friend_pids : String → ℕ → Exec (Client svc.World) Error (List ℕ)
  friend_pids ns pid = do accounts ← friend_accounts ns pid; pids_of ns accounts

  -- The loop of FriendAccountsByPID: a later account overwrites an earlier one of the same PID.
  unfoldable pub accounts_by_pid :
      String → List String → Dict ℕ String → Exec (Client svc.World) Error (Dict ℕ String)
  accounts_by_pid ns [] out s = (ok out, s)
  accounts_by_pid ns (a ∷ as') out s =
      let (r, t) = pid_of_account svc ns a s in
      accounts_by_pid ns as' (elim r [ ok p ↦ put out p a | err e ↦ out ]) t

  unfoldable pub friend_accounts_by_pid : String → ℕ → Exec (Client svc.World) Error (Dict ℕ String)
  friend_accounts_by_pid ns pid = do
    accounts ← friend_accounts ns pid
    accounts_by_pid ns accounts []

  unfoldable pub accept_request : String → ℕ → ℕ → Exec (Client svc.World) Error (Unit {0})
  accept_request ns addressee_pid requester_pid = do
    addressee ← account_of_pid svc ns addressee_pid
    requester ← account_of_pid svc ns requester_pid
    call svc (svc.accept_friend addressee requester)

  -- A refused duplicate completes the friendship if the other side's request can be accepted.
  request_refused : String → ℕ → ℕ → Error → Exec (Client svc.World) Error RequestState
  request_refused ns from_pid to_pid e s =
      let (r, t) = accept_request ns from_pid to_pid s in
      if is_failed_precondition e
      then elim r [ ok _ ↦ (ok complete, t) | err _ ↦ (err e, t) ]
      else (err e, s)

  -- The answer of the GetRelationship call that follows a pending request changes nothing.
  unfoldable pub request_pending : String → String → Exec (Client svc.World) Error RequestState
  request_pending from to s =
      let (r, t) = call svc (svc.get_relationship to from) s in (ok incomplete, t)

  request_answered :
      String
      → ℕ
      → ℕ
      → String
      → String
      → Result Error FriendState × Client svc.World
      → Result Error RequestState × Client svc.World
  request_answered ns from_pid to_pid from to (err e, s) = request_refused ns from_pid to_pid e s
  request_answered ns from_pid to_pid from to (ok accepted, s) = (ok complete, s)
  request_answered ns from_pid to_pid from to (ok pending, s) = request_pending from to s

  request_between : String → ℕ → ℕ → String → String → Exec (Client svc.World) Error RequestState
  request_between ns from_pid to_pid from to s =
      request_answered ns from_pid to_pid from to
        (call svc (svc.request_friend from to (ns, from_pid, to_pid)) s)

  unfoldable pub request : String → ℕ → ℕ → Exec (Client svc.World) Error RequestState
  unfolding request_between request_answered request_refused request_pending
  request ns from_pid to_pid = do
    from ← account_of_pid svc ns from_pid
    to ← account_of_pid svc ns to_pid
    request_between ns from_pid to_pid from to

  unfoldable pub remove : String → ℕ → ℕ → Exec (Client svc.World) Error (Unit {0})
  remove ns pid_a pid_b = do
    a ← account_of_pid svc ns pid_a
    b ← account_of_pid svc ns pid_b
    call svc (svc.remove_friend a b)

  unfoldable pub block : String → ℕ → ℕ → Exec (Client svc.World) Error (Unit {0})
  block ns blocker_pid blocked_pid = do
    blocker ← account_of_pid svc ns blocker_pid
    blocked ← account_of_pid svc ns blocked_pid
    call svc (svc.block blocker blocked)

  unfoldable pub unblock : String → ℕ → ℕ → Exec (Client svc.World) Error (Unit {0})
  unblock ns blocker_pid blocked_pid = do
    blocker ← account_of_pid svc ns blocker_pid
    blocked ← account_of_pid svc ns blocked_pid
    call svc (svc.unblock blocker blocked)

  unfoldable pub incoming_requester_pids : String → ℕ → Exec (Client svc.World) Error (List ℕ)
  incoming_requester_pids ns pid = do
    account ← account_of_pid svc ns pid
    requesters ← call svc (svc.list_incoming account)
    pids_of ns requesters

  unfoldable pub outgoing_addressee_pids : String → ℕ → Exec (Client svc.World) Error (List ℕ)
  outgoing_addressee_pids ns pid = do
    account ← account_of_pid svc ns pid
    addressees ← call svc (svc.list_outgoing account)
    pids_of ns addressees

  unfoldable pub is_blocked : String → ℕ → ℕ → Exec (Client svc.World) Error Bool
  is_blocked ns pid_a pid_b = do
    a ← account_of_pid svc ns pid_a
    b ← account_of_pid svc ns pid_b
    rel ← call svc (svc.get_relationship a b)
    pure (is_block rel)
