-- ===== src/Desk/Sending.antt =====
-- How a call of the database package in a handler ends, and a notification.
use nn_friends.Prelude.{Exec, Result, ok, err, Bool, true, false, Ends, OnBoth, After, OnOk, nat_eq}
use nn_friends.Errors.{Error}
use nn_friends.Database.Server.{Server}
use nn_friends.Desk.{Desk, Handler, NexError, db, decoded, mapped}

module _ {G A : Type 0} {P : A → Desk G → Type 0} {Q : Desk G → Type 0} where
  pub Ends-db :
      (f : Error → NexError) (m : Exec (Server G) Error A) (d : Desk G)
      → Ends (λ a s. P a (record d { server = s })) (λ s. Q (record d { server = s })) m d.server
      → Ends P Q (db f m) d
  unfolding db
  Ends-db f m d h = record { holds = go (m d.server) h.holds }
    where
      go :
          (p : Result Error A × Server G)
          → OnBoth (λ a s. P a (record d { server = s })) (λ s. Q (record d { server = s })) p
          → OnBoth P Q (mapped f p.0, record d { server = p.1 })
      go (ok a, s) k = k
      go (err e, s) k = k

  -- Arguments that are not decoded are refused at once.
  pub Ends-decoded :
      (malformed : Bool) (e : NexError) (m : Handler G A) (d : Desk G)
      → Q d
      → Ends P Q m d
      → Ends P Q (decoded malformed e m) d
  Ends-decoded true e m d q h = record { holds = q }
  Ends-decoded false e m d q h = h

module _ {G A : Type 0} {P : A → Desk G → Type 0} where
  pub After-db :
      (f : Error → NexError) (m : Exec (Server G) Error A) (d : Desk G)
      → After (λ a s. P a (record d { server = s })) m d.server
      → After P (db f m) d
  unfolding db
  After-db f m d h = record { holds = go (m d.server) h.holds }
    where
      go :
          (p : Result Error A × Server G)
          → OnOk (λ a. P a (record d { server = p.1 })) p.0
          → OnOk (λ a. P a (record d { server = p.1 })) (mapped f p.0)
      go (ok a, s) k = k
      go (err e, s) k = k
