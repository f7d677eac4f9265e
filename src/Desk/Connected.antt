-- ===== src/Desk/Connected.antt =====
-- The calls of the database packages and of the backend write the tables and the caches, never the
-- people connected: globals.ConnectedUsers is written by the handlers alone.
pub mod Calls
use nn_friends.Prelude.{
  ℕ, ◌≡◌, refl, ◌∙◌, Option, none, some, List, [], ◌∷◌, Bool, true, false, Exec, Result, ok, err,
  pure, fail, ◌>>=◌, ◌>>◌, bound, recover, recovered, if◌then◌else◌, nat_eq,
}
use nn_friends.Errors.{Error, driver}
use nn_friends.Database.Tables.{Tables}
use nn_friends.Database.Backend.{Backend}
use nn_friends.Database.Server.{Server, refused, later, statement, query_row, remote, gets}

-- Whatever a call does, the people connected are as they were.
pub record KeepsConnected {G A : Type 0} (m : Exec (Server G) Error A) : Type 0 where
  pub kept : (s : Server G) → (m s).1.connected ≡ s.connected

module _ {G A : Type 0} where
  pub Keeps-statement : (f : Tables → A × Tables) → KeepsConnected {G = G} (statement f)
  unfolding statement
  Keeps-statement f = record { kept = λ s. go s (refused s.faults) }
    where
      answer : Server G → Bool → Result Error A × Server G
      answer s b =
          if b
          then (err (driver 0), record s { faults = later s.faults })
          else (ok (f s.tables).0, record s { tables = (f s.tables).1; faults = later s.faults })

      go : (s : Server G) (b : Bool) → (answer s b).1.connected ≡ s.connected
      go s true = refl
      go s false = refl

  pub Keeps-remote : (m : Exec G Error A) → KeepsConnected (remote m)
  unfolding remote
  Keeps-remote m = record { kept = λ s. refl }

  pub Keeps-pure : (a : A) → KeepsConnected {G = G} (pure a)
  Keeps-pure a = record { kept = λ s. refl }

  pub Keeps-fail : (e : Error) → KeepsConnected {G = G} {A = A} (fail e)
  Keeps-fail e = record { kept = λ s. refl }

  pub Keeps-gets : (f : Server G → A) → KeepsConnected (gets f)
  Keeps-gets f = record { kept = λ s. refl }

  pub Keeps-if :
      (b : Bool) (m n : Exec (Server G) Error A)
      → KeepsConnected m
      → KeepsConnected n
      → KeepsConnected (if b then m else n)
  Keeps-if true m n h k = h
  Keeps-if false m n h k = k

  pub Keeps-recover :
      (m : Exec (Server G) Error A) (is_kind : Error → Bool) (a : A)
      → KeepsConnected m
      → KeepsConnected (recover m is_kind a)
  unfolding recover
  Keeps-recover m is_kind a h = record { kept = λ s. go (m s) ∙ h.kept s }
    where
      go : (p : Result Error A × Server G) → (recovered is_kind a p).1.connected ≡ p.1.connected
      go (ok b, s) = refl
      go (err e, s) = refl

module _ {G A B : Type 0} where
  pub Keeps->>= :
      (m : Exec (Server G) Error A) (f : A → Exec (Server G) Error B)
      → KeepsConnected m
      → ((a : A) → KeepsConnected (f a))
      → KeepsConnected (m >>= f)
  Keeps->>= m f h k = record { kept = λ s. go (m s) ∙ h.kept s }
    where
      go : (p : Result Error A × Server G) → (bound f p).1.connected ≡ p.1.connected
      go (ok a, s) = (k a).kept s
      go (err e, s) = refl

module _ {G A : Type 0} where
  pub Keeps-query_row :
      (f : Tables → Option A) (missing : Error) → KeepsConnected {G = G} (query_row f missing)
  unfolding query_row
  Keeps-query_row f missing =
      Keeps->>= (statement λ t. (f t, t))
        (λ row. elim row [ none ↦ fail missing | some a ↦ pure a ])
        (Keeps-statement (λ t. (f t, t))) found
    where
      found :
          (o : Option A)
          → KeepsConnected {G = G} {A = A} (elim o [ none ↦ fail missing | some a ↦ pure a ])
      found none = Keeps-fail missing
      found (some a) = Keeps-pure a
