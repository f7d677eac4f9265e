-- ===== src/Desk/Reach.antt =====
-- Who is connected, over any run of the handlers that write globals.ConnectedUsers: RegisterEx, the
-- connection-ended handler, UpdateAndGetAllInformation, the two UpdatePresence, and what an event does.
pub mod Writers
pub mod Presenting
pub mod Dropping
pub mod Hearing
pub mod Runs
use nn_friends.Prelude.{ℕ, nat_eq, ◌≡◌, String, Option, some, List, Bool}
use nn_friends.Prelude.Dict.{get}
use nn_friends.Types.{ConnectedUser, ConnectedUsers, Presence, PresenceV2}
use nn_friends.Database.Backend.{Backend}
use nn_friends.Wiiu.Profiles.{NnaInfo}
use nn_friends.Presence.Foreign.{Rendering}
use nn_friends.Desk.{Desk}
use nn_friends.Desk.Own.{update_and_get_all_information}
use nn_friends.Desk.Own
use nn_friends.Desk.Ctr
use nn_friends.Desk.Connections.{Stations, Connection, Login, register_ex, connection_ended}
use nn_friends.Events.{handle}

-- Everybody is connected under their own PID, and has a connection.
abbrev pub IsSound : ConnectedUsers → Type 0
IsSound users =
    (pid : ℕ) (user : ConnectedUser)
    → get users pid ≡ some user
    → (user.pid ≡ pid) × ((c : ℕ) × (user.connection ≡ some c))

module _ (B : Backend) where
  pub data Step : Desk B.State → Desk B.State → Type 1 where
    registers :
        (S : Stations) (c : Connection) (malformed : Bool) (login : Login B) (urls : List S.Station)
        (d : Desk B.State)
        → Step d (register_ex B S c malformed login urls d).1
    leaves : (pid : ℕ) (d : Desk B.State) → Step d (connection_ended B pid d)
    reports :
        (R : Rendering) (extra : Bool) (pid connection : ℕ) (malformed : Bool) (nna : NnaInfo)
        (presence : PresenceV2) (birthday : ℕ) (d : Desk B.State)
        → Step d
            (update_and_get_all_information B R extra pid connection malformed nna presence birthday
              d).1
    presents :
        (pid connection : ℕ) (malformed : Bool) (presence : PresenceV2) (d : Desk B.State)
        → Step d (Own.update_presence B pid connection malformed presence d).1
    presents_3ds :
        (pid connection : ℕ) (malformed : Bool) (presence : Presence) (show : Bool)
        (d : Desk B.State)
        → Step d (Ctr.update_presence B pid connection malformed presence show d).1
    hears :
        (typ account subject : String) (d : Desk B.State) → Step d (handle B typ account subject d)

  -- A run of such steps.
  pub data Run : Desk B.State → Desk B.State → Type 1 where
    done : (d : Desk B.State) → Run d d
    next : {d e f : Desk B.State} → Step d e → Run e f → Run d f
