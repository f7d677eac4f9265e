-- ===== src/Erase.antt =====
-- erase/erase.go, and dropSessions of erase/start.go: the rows of one account are removed in one
-- transaction.
pub mod Rows
pub mod Transaction
pub mod Success
use nn_friends.Prelude.{
  ℕ, ◌+◌, String, Option, none, some, List, [], ◌∷◌, ◌++◌, map, Bool, true, false, ◌||◌, Exec,
  Result, ok, err, pure, if◌then◌else◌, contains, nat_eq, length,
}
use nn_friends.Prelude.Dict.{Dict, get, keys}
use nn_friends.Errors.{Error, driver}
use nn_friends.Types.{ConnectedUser, ConnectedUsers}
use nn_friends.Database.Tables.{Tables, Friendship, Block, FriendRequest, Friendship3ds}
use nn_friends.Database.Rows.{delete, count}
use nn_friends.Database.Server.{Server, remote, refused, later}

-- WHERE pid = ANY($1)
abbrev pub remove_all : {V : Type 0} → List ℕ → Dict ℕ V → Dict ℕ V
remove_all pids = delete (λ row. contains row.0 pids)

-- A friendship, a block or a request belongs to both people in it.
abbrev pub friendship_of : List ℕ → Friendship → Bool
friendship_of pids r = contains r.user1_pid pids || contains r.user2_pid pids

abbrev pub block_of : List ℕ → Block → Bool
block_of pids r = contains r.blocker_pid pids || contains r.blocked_pid pids

abbrev pub request_of : List ℕ → FriendRequest → Bool
request_of pids r = contains r.sender_pid pids || contains r.recipient_pid pids

abbrev pub friendship_3ds_of : List ℕ → Friendship3ds → Bool
friendship_3ds_of pids r = contains r.user1_pid pids || contains r.user2_pid pids

-- A statement, with the rows that it affects.
abbrev pub Statement : Type 0
Statement = List ℕ → Tables → ℕ × Tables

abbrev pub row_of : {V : Type 0} → List ℕ → ℕ × V → Bool
row_of pids row = contains row.0 pids

abbrev pub statements : List Statement
statements =
    (λ pids t.
      (count (row_of pids) t.user_data, record t { user_data = remove_all pids t.user_data }))
    ∷ (λ pids t. (
      count (row_of pids) t.account_info,
      record t { account_info = remove_all pids t.account_info },
    ))
    ∷ (λ pids t.
        (count (row_of pids) t.principals, record t { principals = remove_all pids t.principals }))
    ∷ (λ pids t. (count (row_of pids) t.miis, record t { miis = remove_all pids t.miis }))
    ∷ (λ pids t. (
      count (friendship_of pids) t.friendships,
      record t { friendships = delete (friendship_of pids) t.friendships },
    ))
    ∷ (λ pids t.
        (count (block_of pids) t.blocks, record t { blocks = delete (block_of pids) t.blocks }))
    ∷ (λ pids t. (
      count (request_of pids) t.requests,
      record t { requests = delete (request_of pids) t.requests },
    ))
    ∷ (λ pids t. (
      count (row_of pids) t.user_data_3ds,
      record t { user_data_3ds = remove_all pids t.user_data_3ds },
    ))
    ∷ (λ pids t. (
      count (friendship_3ds_of pids) t.friendships_3ds,
      record t { friendships_3ds = delete (friendship_3ds_of pids) t.friendships_3ds },
    ))
    ∷ []

-- The transaction: what it has written so far, and the faults still to come.
abbrev Tx : Type 0
Tx = Tables × List Bool

-- The loop over the statements.
unfoldable pub exec_all : List Statement → List ℕ → ℕ → Tables → List Bool → Result Error ℕ × Tx
exec_all [] pids total t faults = (ok total, (t, faults))
exec_all (stmt ∷ stmts) pids total t faults =
    let rest = exec_all stmts pids (total + (stmt pids t).0) (stmt pids t).1 (later faults) in
    if refused faults then (err (driver 0), (t, later faults)) else rest

module _ {G : Type 0} where
  -- COMMIT makes the written tables the current ones; in any other case they are rolled back.
  unfoldable pub commit : Result Error ℕ × Tx → Server G → Result Error ℕ × Server G
  commit (err e, (t, faults)) s = (err e, record s { faults = faults })
  commit (ok total, (t, faults)) s =
      if refused faults
      then (err (driver 0), record s { faults = later faults })
      else (ok total, record s { tables = t; faults = later faults })

  unfoldable pub transaction : List ℕ → Exec (Server G) Error ℕ
  unfolding exec_all commit
  transaction pids s =
      if refused s.faults
      then (err (driver 0), record s { faults = later s.faults })
      else commit (exec_all statements pids 0 s.tables (later s.faults)) s

  -- Erase, on the answer of PIDs. `drop` is `none` where the field Drop is nil.
  unfoldable pub erase_pids :
      Option (List ℕ → Server G → Server G) → List ℕ → Exec (Server G) Error ℕ
  unfolding transaction
  erase_pids drop [] s = (ok 0, s)
  erase_pids none (p ∷ pids) s = transaction (p ∷ pids) s
  erase_pids (some f) (p ∷ pids) s = transaction (p ∷ pids) (f (p ∷ pids) s)

  unfoldable pub erased :
      Option (List ℕ → Server G → Server G)
      → Result Error (List ℕ) × Server G
      → Result Error ℕ × Server G
  unfolding erase_pids
  erased drop (err e, s) = (err e, s)
  erased drop (ok pids, s) = erase_pids drop pids s

  unfoldable pub erase :
      (String → Exec G Error (List ℕ))
      → Option (List ℕ → Server G → Server G)
      → String
      → Exec (Server G) Error ℕ
  unfolding erased
  erase pids_of drop account s = erased drop (remote (pids_of account) s)

-- The connections that dropSessions ends; `cleanup` is CleanupConnection of nex-go.
unfoldable pub drop_sessions : {S : Type 0} → (S → ConnectedUsers) → (ℕ → S → S) → List ℕ → S → S
drop_sessions users cleanup [] s = s
drop_sessions users cleanup (pid ∷ pids) s = elim (get (users s) pid) [
  | none ↦ drop_sessions users cleanup pids s
  | some user ↦ elim user.connection [
    | none ↦ drop_sessions users cleanup pids s
    | some c ↦ drop_sessions users cleanup pids (cleanup c s)
  ]
]
