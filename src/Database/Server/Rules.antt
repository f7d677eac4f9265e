-- ===== src/Database/Server/Rules.antt =====
-- Rules for the calls that database.Manager and the backend answer.
use nn_friends.Prelude.{
  Bool, true, false, Option, none, some, ◌≡◌, refl, Exec, Result, ok, err, OnOk, After, After->>=,
  After-fail, After-pure, pure, fail, if◌then◌else◌,
}
use nn_friends.Errors.{Error, driver}
use nn_friends.Database.Tables.{Tables}
use nn_friends.Database.Server.{Server, refused, later, statement, query_row, remote}

module _ {G A : Type 0} {P : A → Server G → Type 0} where
  -- A statement that ran changed the tables as it says, and nothing else that a handler sees.
  pub After-statement :
      (f : Tables → A × Tables) (s : Server G)
      → P (f s.tables).0 (record s { tables = (f s.tables).1; faults = later s.faults })
      → After P (statement f) s
  unfolding statement
  After-statement f s h = record { holds = go (refused s.faults) }
    where
      answer : Bool → Result Error A × Server G
      answer b =
          if b
          then (err (driver 0), record s { faults = later s.faults })
          else (ok (f s.tables).0, record s { tables = (f s.tables).1; faults = later s.faults })

      go : (b : Bool) → OnOk (λ a. P a (answer b).1) (answer b).0
      go true = tt
      go false = h

  pub After-remote :
      (m : Exec G Error A) (s : Server G)
      → ((a : A) → P a (record s { backend = (m s.backend).1 }))
      → After P (remote m) s
  unfolding remote
  After-remote m s h = record { holds = go (m s.backend).0 }
    where
      go : (r : Result Error A) → OnOk (λ a. P a (record s { backend = (m s.backend).1 })) r
      go (ok a) = h a
      go (err x) = tt

  -- The same, where what the backend answered matters.
  pub After-remote_ok :
      (m : Exec G Error A) (s : Server G)
      → ((a : A) → (m s.backend).0 ≡ ok a → P a (record s { backend = (m s.backend).1 }))
      → After P (remote m) s
  unfolding remote
  After-remote_ok m s h = record { holds = go (m s.backend).0 refl }
    where
      go :
          (r : Result Error A)
          → (m s.backend).0 ≡ r
          → OnOk (λ a. P a (record s { backend = (m s.backend).1 })) r
      go (ok a) same = h a same
      go (err x) same = tt

module _ {G A : Type 0} {P : A → Server G → Type 0} where
  pub After-query_row :
      (f : Tables → Option A) (missing : Error) (s : Server G)
      → ((a : A) → f s.tables ≡ some a → P a (record s { faults = later s.faults }))
      → After P (query_row f missing) s
  unfolding query_row statement
  After-query_row f missing s h =
      After->>= (statement λ t. (f t, t))
        (λ row. elim row [ none ↦ fail missing | some a ↦ pure a ]) s
        (After-statement (λ t. (f t, t)) s (go (f s.tables) refl))
    where
      go :
          (o : Option A)
          → f s.tables ≡ o
          → After P
              (elim o [ none ↦ fail missing | some a ↦ pure a ])
              (record s { faults = later s.faults })
      go none same = After-fail missing _
      go (some a) same = After-pure a _ (h a same)
