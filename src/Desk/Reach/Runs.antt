-- ===== src/Desk/Reach/Runs.antt =====
-- Who is connected, after any run of the handlers that write globals.ConnectedUsers.
use nn_friends.Database.Backend.{Backend}
use nn_friends.Desk.{Desk}
use nn_friends.Desk.Reach.{
  IsSound, Step, Run, registers, leaves, reports, presents, presents_3ds, hears, done, next,
}
use nn_friends.Desk.Reach.Writers.{registered-IsSound, ended-IsSound}
use nn_friends.Desk.Reach.Presenting.{reported-IsWell, presented-IsWell, presented_3ds-IsWell}
use nn_friends.Desk.Reach.Hearing.{heard-IsWell}

module _ (B : Backend) where
  Step-IsSound :
      (d e : Desk B.State) → Step B d e → IsSound d.server.connected → IsSound e.server.connected
  Step-IsSound _ _ (registers S c malformed login urls d) sound =
      registered-IsSound B S c malformed login urls d sound
  Step-IsSound _ _ (leaves pid d) sound = ended-IsSound B pid d sound
  Step-IsSound _ _ (reports R extra pid connection malformed nna presence birthday d) sound =
      reported-IsWell B R extra pid connection malformed nna presence birthday d sound
  Step-IsSound _ _ (presents pid connection malformed presence d) sound =
      presented-IsWell B pid connection malformed presence d sound
  Step-IsSound _ _ (presents_3ds pid connection malformed presence show d) sound =
      presented_3ds-IsWell B pid connection malformed presence show d sound
  Step-IsSound _ _ (hears typ account subject d) sound = heard-IsWell B typ account subject d sound

  -- Where everybody is connected under their own PID and has a connection, this stays so over any
  -- run, in any order, of RegisterEx, ends of a connection, UpdateAndGetAllInformation, UpdatePresence
  -- on either console and core events, whichever of them fail.
  pub Run-IsSound :
      (d e : Desk B.State) → Run B d e → IsSound d.server.connected → IsSound e.server.connected
  Run-IsSound _ _ (done d) sound = sound
  Run-IsSound _ _ (next {d} {e} {f} step run) sound =
      Run-IsSound e f run (Step-IsSound d e step sound)
