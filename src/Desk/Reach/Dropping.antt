-- ===== src/Desk/Reach/Dropping.antt =====
-- What ending an account's sessions and erasing its rows leave of globals.ConnectedUsers:
-- dropAccount of coreevents/poller.go and erase/erase.go.
use nn_friends.Prelude.{
  ℕ, ◌≡◌, refl, sym, subst, String, Option, none, some, List, [], ◌∷◌, Bool, true, false, Result,
  ok, err, if◌then◌else◌, nat_eq,
}
use nn_friends.Prelude.Dict.{get}
use nn_friends.Errors.{Error, driver}
use nn_friends.Types.{ConnectedUser}
use nn_friends.Accounts.{online_pids_of_account}
use nn_friends.Erase.{transaction, commit, exec_all, statements, erase_pids}
use nn_friends.Database.Tables.{Tables}
use nn_friends.Database.Backend.{Backend}
use nn_friends.Database.Server.{Server, refused, later, remote}
use nn_friends.Desk.{Desk}
use nn_friends.Desk.Connections.{connection_ended}
use nn_friends.Events.{dropped, drop_pids, drop_account, erased_pids, run_erase}
use nn_friends.Desk.Reach.{IsSound}
use nn_friends.Desk.Reach.Writers.{ended-IsSound}
use nn_friends.Desk.Reach.Presenting.{IsWell}

module _ (B : Backend) where
  -- Ending sessions takes people away.
  dropped-IsWell :
      (o : Option ConnectedUser) (pid : ℕ) (d : Desk B.State)
      → IsWell B d
      → IsWell B (dropped B o pid d)
  dropped-IsWell none pid d sound = sound
  dropped-IsWell (some user) pid d sound = go user.connection
    where
      go : (c : Option ℕ) → IsWell B (elim c [ none ↦ d | some n ↦ connection_ended B pid d ])
      go none = sound
      go (some n) = ended-IsSound B pid d sound

  drop_pids-IsWell : (pids : List ℕ) (d : Desk B.State) → IsWell B d → IsWell B (drop_pids B pids d)
  unfolding drop_pids
  drop_pids-IsWell [] d sound = sound
  drop_pids-IsWell (pid ∷ pids) d sound =
      drop_pids-IsWell pids _ (dropped-IsWell (get d.server.connected pid) pid d sound)

  pub drop_account-IsWell :
      (account : String) (d : Desk B.State) → IsWell B d → IsWell B (drop_account B account d)
  unfolding drop_account
  drop_account-IsWell account d sound =
      drop_pids-IsWell (online_pids_of_account account d.accounts) d sound

  -- A transaction writes the tables.
  commit_connected :
      (p : Result Error ℕ × (Tables × List Bool)) (s : Server B.State)
      → (commit p s).1.connected ≡ s.connected
  unfolding commit
  commit_connected (err e, (t, faults)) s = refl
  commit_connected (ok total, (t, faults)) s = go (refused faults)
    where
      answer : Bool → Result Error ℕ × Server B.State
      answer b =
          if b
          then (err (driver 0), record s { faults = later faults })
          else (ok total, record s { tables = t; faults = later faults })

      go : (b : Bool) → (answer b).1.connected ≡ s.connected
      go true = refl
      go false = refl

  transaction_connected :
      (pids : List ℕ) (s : Server B.State) → (transaction pids s).1.connected ≡ s.connected
  unfolding transaction
  transaction_connected pids s = go (refused s.faults)
    where
      answer : Bool → Result Error ℕ × Server B.State
      answer b =
          if b
          then (err (driver 0), record s { faults = later s.faults })
          else commit (exec_all statements pids 0 s.tables (later s.faults)) s

      go : (b : Bool) → (answer b).1.connected ≡ s.connected
      go true = refl
      go false = commit_connected (exec_all statements pids 0 s.tables (later s.faults)) s

  erase_pids_connected :
      (pids : List ℕ) (s : Server B.State) → (erase_pids none pids s).1.connected ≡ s.connected
  unfolding erase_pids
  erase_pids_connected [] s = refl
  erase_pids_connected (p ∷ pids) s = transaction_connected (p ∷ pids) s

  pub run_erase-IsWell :
      (account : String) (d : Desk B.State) → IsWell B d → IsWell B (run_erase B account d)
  unfolding run_erase remote
  run_erase-IsWell account d sound = go (remote (B.pids_of_account account) d.server) sound
    where
      go :
          (p : Result Error (List ℕ) × Server B.State)
          → IsSound p.1.connected
          → IsWell B (erased_pids B p d)
      go (err e, s) h = h
      go (ok pids, s) h =
          let e = drop_pids B pids (record d { server = s }) in
          subst IsSound (sym (erase_pids_connected pids e.server))
            (drop_pids-IsWell pids (record d { server = s }) h)
