-- ===== src/Database/Server.antt =====
-- The state that a handler works on, and a statement of database.Manager: it is refused by the
-- driver and changes nothing, or it runs. `faults` says which of the coming statements are refused.
pub mod Rules
pub mod Endings
use nn_friends.Prelude.{
  ℕ, Option, none, some, List, [], ◌∷◌, Bool, true, false, Exec, Result, ok, err, pure, fail, ◌>>=◌,
  if◌then◌else◌,
}
use nn_friends.Errors.{Error, driver}
use nn_friends.Types.{ConnectedUsers}
use nn_friends.Profilecache.{Expiries}
use nn_friends.Database.Tables.{Tables}

pub record Server (G : Type 0) : Type 0 where
  pub backend : G
  pub tables : Tables
  pub faults : List Bool
  pub expires : Expiries
  pub connected : ConnectedUsers

abbrev pub refused : List Bool → Bool
refused [] = false
refused (b ∷ bs) = b

abbrev pub later : List Bool → List Bool
later [] = []
later (b ∷ bs) = bs

module _ {G A : Type 0} where
  unfoldable pub statement : (Tables → A × Tables) → Exec (Server G) Error A
  statement f s =
      let (a, t) = f s.tables in
      if refused s.faults
      then (err (driver 0), record s { faults = later s.faults })
      else (ok a, record s { tables = t; faults = later s.faults })

module _ {G A : Type 0} where
  -- A read of one row: no row is the error given.
  unfoldable pub query_row : (Tables → Option A) → Error → Exec (Server G) Error A
  unfolding statement
  query_row f missing = do
    row ← statement (λ t. (f t, t))
    elim row [ none ↦ fail missing | some a ↦ pure a ]

  -- A call of the backend.
  unfoldable pub remote : Exec G Error A → Exec (Server G) Error A
  remote m s = let (r, g) = m s.backend in (r, record s { backend = g })

  abbrev pub gets : (Server G → A) → Exec (Server G) Error A
  gets f s = (ok (f s), s)
