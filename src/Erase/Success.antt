-- ===== src/Erase/Success.antt =====
-- Erasing an account of erase/erase.go goes through where nothing is refused.
use nn_friends.Prelude.{
  ℕ, ◌+◌, String, ◌≡◌, ap, ◌∙◌, Option, none, some, List, [], ◌∷◌, Exec, ok, err, if◌then◌else◌,
  arith,
}
use nn_friends.Errors.{Error, driver}
use nn_friends.Database.Tables.{Tables}
use nn_friends.Database.Server.{Server, remote, refused, later}
use nn_friends.Erase.{Statement, statements, exec_all, commit, transaction, erased, erase}
use nn_friends.Erase.Rows.{rows_of}
use nn_friends.Erase.Transaction.{written, affected, affected-rows_of, dropped}

exec_all_faultless :
    (stmts : List Statement) (pids : List ℕ) (total : ℕ) (t : Tables)
    → exec_all stmts pids total t []
      ≡ (ok (total + affected stmts pids t), (written stmts pids t, []))
unfolding exec_all
exec_all_faultless [] pids total t = ap (λ n. (ok n, (t, []))) (omega arith)
exec_all_faultless (stmt ∷ stmts) pids total t =
    exec_all_faultless stmts pids (total + (stmt pids t).0) (stmt pids t).1
    ∙ ap (λ n. (ok n, (written stmts pids (stmt pids t).1, []))) (omega arith)

module _ {G : Type 0} where
  transaction_faultless :
      (pids : List ℕ) (s : Server G)
      → s.faults ≡ []
      → (transaction pids s).0 ≡ ok (rows_of pids s.tables)
  unfolding transaction commit
  transaction_faultless pids s none_left =
      ap
        (λ l.
          (if refused l
            then (err (driver 0), record s { faults = later l })
            else commit (exec_all statements pids 0 s.tables (later l)) s).0)
        none_left
      ∙ ap (λ r. (commit r s).0) (exec_all_faultless statements pids 0 s.tables)
      ∙ ap ok (ground (arith, affected-rows_of pids s.tables))

  -- Where the PIDs of the account are found, are not none, and no statement is refused, Erase
  -- succeeds and answers the number of the account's rows.
  pub erase_succeeds :
      (pids_of : String → Exec G Error (List ℕ)) (drop : Option (List ℕ → Server G → Server G))
      (account : String) (s : Server G) (p : ℕ) (pids : List ℕ) (g : G)
      → pids_of account s.backend ≡ (ok (p ∷ pids), g)
      → (dropped drop (p ∷ pids) (record s { backend = g })).faults ≡ []
      → (erase pids_of drop account s).0
        ≡ ok (rows_of (p ∷ pids) (dropped drop (p ∷ pids) (record s { backend = g })).tables)
  unfolding erase erased remote
  erase_succeeds pids_of drop account s p pids g answer none_left =
      ap (λ r. (erased drop (r.0, record s { backend = r.1 })).0) answer ∙ go drop none_left
    where
      start : Server G
      start = record s { backend = g }

      go :
          (d : Option (List ℕ → Server G → Server G))
          → (dropped d (p ∷ pids) start).faults ≡ []
          → (erased d (ok (p ∷ pids), start)).0
            ≡ ok (rows_of (p ∷ pids) (dropped d (p ∷ pids) start).tables)
      go none h = transaction_faultless (p ∷ pids) start h
      go (some f) h = transaction_faultless (p ∷ pids) (f (p ∷ pids) start) h
