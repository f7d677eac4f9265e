-- ===== src/Orphans/Keeping.antt =====
-- Whose rows the purge of coreevents/profile.go leaves alone.
use nn_friends.Prelude.{
  ℕ, zero, suc, ◌+◌, String, ◌≡◌, ◌≢◌, refl, sym, ap, List, [], ◌∷◌, ◌++◌, Bool, true, false, Exec,
  Result, ok, err, All, if◌then◌else◌, contains, nat_eq, nat_beq_iff, arith, subst,
}
use nn_friends.Errors.{Code, Error, driver}
use nn_friends.Coregraph.Services.{Profile}
use nn_friends.Database.Server.{Server, statement, refused, later}
use nn_friends.Erase.{Statement}
use nn_friends.Orphans.Rows.{
  KeepsRows, KeepsRows-refl, KeepsRows-∙, Spares, orphan_statements-Spares,
}
use nn_friends.Orphans.{
  cached_pids, judge, orphan_statements, deleted_some, delete_each, delete_rows, searched,
  find_orphans, finished, judged, listed_pids, purge_attempt, purge, purge_orphans,
}

-- The tables that a statement leaves are those that it writes, or those before it.
statement-KeepsRows :
    {G : Type 0} (q : ℕ) (pids : List ℕ) (stmt : Statement) (s : Server G)
    → Spares q pids stmt
    → KeepsRows q s.tables (statement (stmt pids) s).1.tables
unfolding statement
statement-KeepsRows {G} q pids stmt s spares = go (refused s.faults)
  where
    answer : Bool → Result Error ℕ × Server G
    answer b = if b then (err (driver 0), record s { faults = later s.faults }) else (
      ok (stmt pids s.tables).0,
      record s { tables = (stmt pids s.tables).1; faults = later s.faults },
    )

    go : (b : Bool) → KeepsRows q s.tables (answer b).1.tables
    go true = KeepsRows-refl q s.tables
    go false = spares s.tables

delete_each-KeepsRows :
    {G : Type 0} (q : ℕ) (pids : List ℕ) (stmts : List Statement) (total : ℕ) (s : Server G)
    → All (Spares q pids) stmts
    → KeepsRows q s.tables (delete_each stmts pids total s).1.tables
unfolding delete_each
delete_each-KeepsRows q pids [] total s h = KeepsRows-refl q s.tables
delete_each-KeepsRows {G} q pids (stmt ∷ stmts) total s (first, h) =
    go (statement (stmt pids) s) (statement-KeepsRows q pids stmt s first)
      (λ n t. delete_each-KeepsRows q pids stmts n t h)
  where
    go :
        (p : Result Error ℕ × Server G)
        → KeepsRows q s.tables p.1.tables
        → ((n : ℕ) (t : Server G) → KeepsRows q t.tables (delete_each stmts pids n t).1.tables)
        → KeepsRows q s.tables (deleted_some (delete_each stmts pids) total p).1.tables
    go (err e, t) k rest = k
    go (ok n, t) k rest = KeepsRows-∙ q s.tables t.tables _ k (rest (total + n) t)

delete_rows-KeepsRows :
    {G : Type 0} (q : ℕ) (pids : List ℕ) (s : Server G)
    → contains q pids ≡ false
    → KeepsRows q s.tables (delete_rows pids s).1.tables
unfolding delete_rows
delete_rows-KeepsRows q [] s h = KeepsRows-refl q s.tables
delete_rows-KeepsRows q (p ∷ ps) s h =
    delete_each-KeepsRows q (p ∷ ps) orphan_statements 0 s (orphan_statements-Spares q (p ∷ ps) h)

contains-append_other :
    (q : ℕ) (xs : List ℕ) (x : ℕ)
    → contains q xs ≡ false
    → q ≢ x
    → contains q (xs ++ x ∷ []) ≡ false
contains-append_other q [] x h differ = ground (arith, nat_beq_iff q x)
contains-append_other q (y ∷ xs) x h differ = ground (arith, h, contains-append_other q xs x)

module _ {G : Type 0} (is_orphan : ℕ → Exec G Error Bool) (q : ℕ)
    (known : (g : G) → (is_orphan q g).0 ≢ ok true) where
  abbrev NotFound : Result Error (List ℕ) → Type 0
  NotFound (ok pids) = contains q pids ≡ false
  NotFound (err e) = Unit

  find_orphans-NotFound :
      (pids found : List ℕ) (g : G)
      → contains q found ≡ false
      → NotFound (find_orphans is_orphan pids found g).0
  unfolding find_orphans
  find_orphans-NotFound [] found g h = h
  find_orphans-NotFound (pid ∷ pids) found g h =
      go (is_orphan pid g) refl (find_orphans-NotFound pids)
    where
      go :
          (p : Result Error Bool × G)
          → is_orphan pid g ≡ p
          → ((more : List ℕ) (t : G)
              → contains q more ≡ false
              → NotFound (find_orphans is_orphan pids more t).0)
          → NotFound (searched (find_orphans is_orphan pids) pid found p).0
      go (err e, t) same rest = tt
      go (ok false, t) same rest = rest found t h
      go (ok true, t) same rest = rest (found ++ pid ∷ []) t (
          contains-append_other q found pid h
            (λ e. known g (subst (λ x. (is_orphan x g).0 ≡ ok true) (sym e) (ap (λ r. r.0) same))))

  finished_tables : (p : Result Error ℕ × Server G) → (finished p).1.tables ≡ p.1.tables
  finished_tables (ok n, s) = refl
  finished_tables (err e, s) = refl

  purge_attempt-KeepsRows :
      (s : Server G) → KeepsRows q s.tables (purge_attempt is_orphan s).1.tables
  unfolding purge_attempt statement
  purge_attempt-KeepsRows s = go (refused s.faults)
    where
      with_orphans :
          (p : Result Error (List ℕ) × G) (t : Server G)
          → NotFound p.0
          → KeepsRows q t.tables (judged p t).1.tables
      with_orphans (err e, g) t h = KeepsRows-refl q t.tables
      with_orphans (ok pids, g) t h =
          subst (KeepsRows q t.tables)
            (sym (finished_tables (delete_rows pids (record t { backend = g }))))
            (delete_rows-KeepsRows q pids (record t { backend = g }) h)

      u : Server G
      u = record s { faults = later s.faults }

      go :
          (b : Bool)
          → KeepsRows q s.tables
              (listed_pids is_orphan
                (if b then (err (driver 0), u) else (ok (cached_pids s.tables), u))).1.tables
      go true = KeepsRows-refl q s.tables
      go false =
          with_orphans (find_orphans is_orphan (cached_pids s.tables) [] s.backend) u
            (find_orphans-NotFound (cached_pids s.tables) [] s.backend refl)

  purge-KeepsRows :
      (attempts : ℕ) (s : Server G) → KeepsRows q s.tables (purge attempts is_orphan s).tables
  unfolding purge
  purge-KeepsRows zero s = KeepsRows-refl q s.tables
  purge-KeepsRows (suc attempts) s =
      go (purge_attempt is_orphan s) (purge_attempt-KeepsRows s) (purge-KeepsRows attempts)
    where
      go :
          (p : Bool × Server G)
          → KeepsRows q s.tables p.1.tables
          → ((t : Server G) → KeepsRows q t.tables (purge attempts is_orphan t).tables)
          → KeepsRows q s.tables (if p.0 then p.1 else purge attempts is_orphan p.1).tables
      go (true, t) k rest = k
      go (false, t) k rest = KeepsRows-∙ q s.tables t.tables _ k (rest t)

-- Whatever is refused and however often the purge is tried, a PID that nn-account never disowns
-- keeps all its rows, and no friendship, block or request is touched.
pub purge_orphans-KeepsRows :
    {G : Type 0} (user_data : ℕ → Exec G (Code × String) Profile) (q : ℕ) (s : Server G)
    → ((g : G) → (judge (user_data q g)).0 ≢ ok true)
    → KeepsRows q s.tables (purge_orphans user_data s).tables
unfolding purge_orphans
purge_orphans-KeepsRows user_data q s known =
    purge-KeepsRows (λ pid g. judge (user_data pid g)) q known 60 s
