-- ===== src/Database/Server/Endings.antt =====
-- How a statement of database.Manager and a call of the backend end.
use nn_friends.Prelude.{
  Bool, true, false, Exec, Result, ok, err, if◌then◌else◌, Ends, OnBoth, Option, none, some, pure,
  fail, Ends->>=,
}
use nn_friends.Errors.{Error, driver}
use nn_friends.Database.Tables.{Tables}
use nn_friends.Database.Server.{Server, refused, later, statement, query_row, remote}

module _ {G A : Type 0} {P : A → Server G → Type 0} {Q : Server G → Type 0} where
  -- A refused statement changed nothing; one that ran changed the tables as it says.
  pub Ends-statement :
      (f : Tables → A × Tables) (s : Server G)
      → P (f s.tables).0 (record s { tables = (f s.tables).1; faults = later s.faults })
      → Q (record s { faults = later s.faults })
      → Ends P Q (statement f) s
  unfolding statement
  Ends-statement f s h k = record { holds = go (refused s.faults) }
    where
      answer : Bool → Result Error A × Server G
      answer b =
          if b
          then (err (driver 0), record s { faults = later s.faults })
          else (ok (f s.tables).0, record s { tables = (f s.tables).1; faults = later s.faults })

      go : (b : Bool) → OnBoth P Q (answer b)
      go true = k
      go false = h

  pub Ends-remote :
      (m : Exec G Error A) (s : Server G)
      → ((a : A) → P a (record s { backend = (m s.backend).1 }))
      → Q (record s { backend = (m s.backend).1 })
      → Ends P Q (remote m) s
  unfolding remote
  Ends-remote m s h k = record { holds = go (m s.backend).0 }
    where
      go : (r : Result Error A) → OnBoth P Q (r, record s { backend = (m s.backend).1 })
      go (ok a) = h a
      go (err x) = k

module _ {G A : Type 0} {P : A → Server G → Type 0} {Q : Server G → Type 0} where
  pub Ends-query_row :
      (f : Tables → Option A) (missing : Error) (s : Server G)
      → ((a : A) → P a (record s { faults = later s.faults }))
      → Q (record s { faults = later s.faults })
      → Ends P Q (query_row f missing) s
  unfolding query_row
  Ends-query_row f missing s h k =
      Ends->>= (statement λ t. (f t, t)) (λ row. elim row [ none ↦ fail missing | some a ↦ pure a ])
        s (Ends-statement (λ t. (f t, t)) s (go (f s.tables)) k)
    where
      go :
          (o : Option A)
          → Ends P Q
              (elim o [ none ↦ fail missing | some a ↦ pure a ])
              (record s { faults = later s.faults })
      go none = record { holds = k }
      go (some a) = record { holds = h a }
