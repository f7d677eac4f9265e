-- ===== src/Erase/Transaction.antt =====
-- The transaction of erase/erase.go: all of the account's rows and no other, or nothing.
use nn_friends.Prelude.{
  ℕ, ◌+◌, String, ◌≡◌, refl, sym, ◌∙◌, subst, Option, none, some, List, [], ◌∷◌, Bool, true, false,
  Exec, Result, ok, err, OnOk, OnOk-map, if◌then◌else◌, arith,
}
use nn_friends.Errors.{Error, driver}
use nn_friends.Database.Tables.{Tables}
use nn_friends.Database.Server.{Server, remote, refused, later}
use nn_friends.Erase.{
  Statement, statements, exec_all, commit, transaction, erase_pids, erased, erase,
}
use nn_friends.Erase.Rows.{IsErased, delete-Removed, rows_of, IsErased-rows_of, nothing-IsErased}

-- What the statements do where none is refused.
abbrev pub written : List Statement → List ℕ → Tables → Tables
written [] pids t = t
written (stmt ∷ stmts) pids t = written stmts pids (stmt pids t).1

abbrev pub affected : List Statement → List ℕ → Tables → ℕ
affected [] pids t = 0
affected (stmt ∷ stmts) pids t = (stmt pids t).0 + affected stmts pids (stmt pids t).1

exec_all_ok :
    (stmts : List Statement) (pids : List ℕ) (total : ℕ) (t : Tables) (faults : List Bool)
    → OnOk
        (λ n.
          ((exec_all stmts pids total t faults).1.0 ≡ written stmts pids t)
          × (n ≡ total + affected stmts pids t))
        (exec_all stmts pids total t faults).0
unfolding exec_all
exec_all_ok [] pids total t faults = (refl, ground arith)
exec_all_ok (stmt ∷ stmts) pids total t faults =
    go (exec_all_ok stmts pids (total + (stmt pids t).0) (stmt pids t).1 (later faults))
      (refused faults)
  where
    n : ℕ
    n = total + (stmt pids t).0

    rest : Result Error ℕ × (Tables × List Bool)
    rest = exec_all stmts pids n (stmt pids t).1 (later faults)

    moved :
        (m : ℕ)
        → (rest.1.0 ≡ written stmts pids (stmt pids t).1)
          × (m ≡ n + affected stmts pids (stmt pids t).1)
        → (rest.1.0 ≡ written stmts pids (stmt pids t).1)
          × (m ≡ total + ((stmt pids t).0 + affected stmts pids (stmt pids t).1))
    moved m (same, sum) = (same, ground (arith, sum))

    go :
        OnOk
          (λ m.
            (rest.1.0 ≡ written stmts pids (stmt pids t).1)
            × (m ≡ n + affected stmts pids (stmt pids t).1))
          rest.0
        → (b : Bool)
        → let r = if b then (err (driver 0), (t, later faults)) else rest in
          OnOk
            (λ m.
              (r.1.0 ≡ written stmts pids (stmt pids t).1)
              × (m ≡ total + ((stmt pids t).0 + affected stmts pids (stmt pids t).1)))
            r.0
    go h true = tt
    go h false = OnOk-map rest.0 moved h

written-IsErased : (pids : List ℕ) (t : Tables) → IsErased pids t (written statements pids t)
written-IsErased pids t = record {
  user_data = delete-Removed _ t.user_data;
  account_info = delete-Removed _ t.account_info;
  principals = delete-Removed _ t.principals;
  miis = delete-Removed _ t.miis;
  friendships = delete-Removed _ t.friendships;
  blocks = delete-Removed _ t.blocks;
  requests = delete-Removed _ t.requests;
  user_data_3ds = delete-Removed _ t.user_data_3ds;
  friendships_3ds = delete-Removed _ t.friendships_3ds;
  next_id = refl;
}

pub affected-rows_of : (pids : List ℕ) (t : Tables) → affected statements pids t ≡ rows_of pids t
affected-rows_of pids t = ground arith

module _ {G : Type 0} where
  commit_ok :
      (pids : List ℕ) (s : Server G) (p : Result Error ℕ × (Tables × List Bool))
      → OnOk
          (λ n.
            (p.1.0 ≡ written statements pids s.tables)
            × (n ≡ 0 + affected statements pids s.tables))
          p.0
      → OnOk
          (λ n. IsErased pids s.tables (commit p s).1.tables × (n ≡ rows_of pids s.tables))
          (commit p s).0
  unfolding commit
  commit_ok pids s (err e, (t, faults)) h = tt
  commit_ok pids s (ok n, (t, faults)) (same, sum) = go (refused faults)
    where
      answer : Bool → Result Error ℕ × Server G
      answer b =
          if b
          then (err (driver 0), record s { faults = later faults })
          else (ok n, record s { tables = t; faults = later faults })

      go :
          (b : Bool)
          → OnOk
              (λ m. IsErased pids s.tables (answer b).1.tables × (m ≡ rows_of pids s.tables))
              (answer b).0
      go true = tt
      go false = (
        subst (IsErased pids s.tables) (sym same) (written-IsErased pids s.tables),
        ground (arith, sum, affected-rows_of pids s.tables),
      )

  -- A transaction that commits.
  transaction-IsErased :
      (pids : List ℕ) (s : Server G)
      → OnOk
          (λ n. IsErased pids s.tables (transaction pids s).1.tables × (n ≡ rows_of pids s.tables))
          (transaction pids s).0
  unfolding transaction
  transaction-IsErased pids s = go (refused s.faults)
    where
      run : Result Error ℕ × (Tables × List Bool)
      run = exec_all statements pids 0 s.tables (later s.faults)

      answer : Bool → Result Error ℕ × Server G
      answer b = if b then (err (driver 0), record s { faults = later s.faults }) else commit run s

      go :
          (b : Bool)
          → OnOk
              (λ n. IsErased pids s.tables (answer b).1.tables × (n ≡ rows_of pids s.tables))
              (answer b).0
      go true = tt
      go false = commit_ok pids s run (exec_all_ok statements pids 0 s.tables (later s.faults))

  commit_err :
      (s : Server G) (p : Result Error ℕ × (Tables × List Bool)) (e : Error)
      → (commit p s).0 ≡ err e
      → (commit p s).1.tables ≡ s.tables
  unfolding commit
  commit_err s (err x, (t, faults)) e failed = refl
  commit_err s (ok n, (t, faults)) e failed = go (refused faults) failed
    where
      answer : Bool → Result Error ℕ × Server G
      answer b =
          if b
          then (err (driver 0), record s { faults = later faults })
          else (ok n, record s { tables = t; faults = later faults })

      go : (b : Bool) → (answer b).0 ≡ err e → (answer b).1.tables ≡ s.tables
      go true h = refl
      go false h = cc

  -- A transaction that fails leaves the tables as they are.
  transaction_err :
      (pids : List ℕ) (s : Server G) (e : Error)
      → (transaction pids s).0 ≡ err e
      → (transaction pids s).1.tables ≡ s.tables
  unfolding transaction
  transaction_err pids s e failed = go (refused s.faults) failed
    where
      run : Result Error ℕ × (Tables × List Bool)
      run = exec_all statements pids 0 s.tables (later s.faults)

      answer : Bool → Result Error ℕ × Server G
      answer b = if b then (err (driver 0), record s { faults = later s.faults }) else commit run s

      go : (b : Bool) → (answer b).0 ≡ err e → (answer b).1.tables ≡ s.tables
      go true h = refl
      go false h = commit_err s run e h

  -- The state that the transaction starts in.
  abbrev pub dropped : Option (List ℕ → Server G → Server G) → List ℕ → Server G → Server G
  dropped drop [] s = s
  dropped none (p ∷ pids) s = s
  dropped (some f) (p ∷ pids) s = f (p ∷ pids) s

  erase_pids-IsErased :
      (drop : Option (List ℕ → Server G → Server G)) (pids : List ℕ) (s : Server G)
      → OnOk
          (λ n.
            IsErased pids (dropped drop pids s).tables (erase_pids drop pids s).1.tables
            × (n ≡ rows_of pids (dropped drop pids s).tables))
          (erase_pids drop pids s).0
  unfolding erase_pids
  erase_pids-IsErased drop [] s = (
    nothing-IsErased s.tables,
    sym (IsErased-rows_of [] s.tables s.tables (nothing-IsErased s.tables)),
  )
  erase_pids-IsErased none (p ∷ pids) s = transaction-IsErased (p ∷ pids) s
  erase_pids-IsErased (some f) (p ∷ pids) s = transaction-IsErased (p ∷ pids) (f (p ∷ pids) s)

  erase_pids_err :
      (drop : Option (List ℕ → Server G → Server G)) (pids : List ℕ) (s : Server G) (e : Error)
      → (erase_pids drop pids s).0 ≡ err e
      → (erase_pids drop pids s).1.tables ≡ (dropped drop pids s).tables
  unfolding erase_pids
  erase_pids_err drop [] s e failed = refl
  erase_pids_err none (p ∷ pids) s e failed = transaction_err (p ∷ pids) s e failed
  erase_pids_err (some f) (p ∷ pids) s e failed =
      transaction_err (p ∷ pids) (f (p ∷ pids) s) e failed

  -- When Erase succeeds on an account whose PIDs are `pids`, the tables are those that were there
  -- once the sessions had been dropped, less every row of those PIDs and no other row; the number
  -- returned is that of the rows removed.
  pub erase-IsErased :
      (pids_of : String → Exec G Error (List ℕ)) (drop : Option (List ℕ → Server G → Server G))
      (account : String) (s : Server G) (pids : List ℕ) (g : G)
      → pids_of account s.backend ≡ (ok pids, g)
      → let start = dropped drop pids (record s { backend = g }) in
        OnOk
          (λ n.
            IsErased pids start.tables (erase pids_of drop account s).1.tables
            × (n ≡ rows_of pids start.tables))
          (erase pids_of drop account s).0
  unfolding erase erased remote
  erase-IsErased pids_of drop account s pids g answer =
      simp (answer) (erase_pids-IsErased drop pids (record s { backend = g }))

  -- The state that the transaction starts in, on the answer of PIDs: without one nothing is dropped.
  abbrev pub started :
      Option (List ℕ → Server G → Server G) → Result Error (List ℕ) × Server G → Server G
  started drop (err e, s) = s
  started drop (ok pids, s) = dropped drop pids s

  erased_err :
      (drop : Option (List ℕ → Server G → Server G)) (p : Result Error (List ℕ) × Server G)
      (e : Error)
      → (erased drop p).0 ≡ err e
      → (erased drop p).1.tables ≡ (started drop p).tables
  unfolding erased
  erased_err drop (err x, s) e failed = refl
  erased_err drop (ok pids, s) e failed = erase_pids_err drop pids s e failed

  -- When Erase fails, also where the PIDs of the account could not be found, it has removed no row:
  -- the tables are those that were there once the sessions of the PIDs found had been dropped, and
  -- where none could be found, those that Erase was called with.
  pub erase_rollback :
      (pids_of : String → Exec G Error (List ℕ)) (drop : Option (List ℕ → Server G → Server G))
      (account : String) (s : Server G) (e : Error)
      → (erase pids_of drop account s).0 ≡ err e
      → (erase pids_of drop account s).1.tables ≡ (started drop (remote (pids_of account) s)).tables
  unfolding erase
  erase_rollback pids_of drop account s e failed =
      erased_err drop (remote (pids_of account) s) e failed

  -- A second transaction for the same PIDs, on tables that an erasure left, removes no row if it
  -- commits: it answers 0.
  pub erase_again :
      (pids : List ℕ) (t : Tables) (s : Server G)
      → IsErased pids t s.tables
      → OnOk (λ n. n ≡ 0) (transaction pids s).0
  erase_again pids t s h =
      OnOk-map (transaction pids s).0 (λ n k. k.1 ∙ IsErased-rows_of pids t s.tables h)
        (transaction-IsErased pids s)
