-- ===== src/Tests/Runs.antt =====
-- The theorem on runs, at a concrete run.
use nn_friends.Prelude.{ℕ, [], true, false, refl, arith, nat_eq}
use nn_friends.Types.{new_presence, new_presence_v2}
use nn_friends.Coregraph.Client.{Client}
use nn_friends.Desk.{Desk}
use nn_friends.Desk.Own
use nn_friends.Desk.Ctr
use nn_friends.Desk.Connections.{connection_ended}
use nn_friends.Events.{handle}
use nn_friends.Desk.Reach.{IsSound, presents, presents_3ds, leaves, hears, done, next}
use nn_friends.Desk.Reach.Writers.{put-IsSound}
use nn_friends.Desk.Reach.Runs.{Run-IsSound}
use nn_friends.Tests.Demo.{backend}
use nn_friends.Tests.Calls.{bob, desk}

desk-IsSound : IsSound desk.server.connected
desk-IsSound = put-IsSound [] 2 bob (refl, (7, refl)) (λ pid user there. ground arith)

-- Somebody comes on either console, bob leaves, and somebody is banned.
abbrev first : Desk (Client ℕ)
first = (Own.update_presence backend 1 9 false new_presence_v2 desk).1

abbrev second : Desk (Client ℕ)
second = (Ctr.update_presence backend 3 8 false new_presence true first).1

abbrev third : Desk (Client ℕ)
third = connection_ended backend 2 second

Run-IsSound_example : IsSound (handle backend "account_banned" "alice" "" third).server.connected
Run-IsSound_example =
    Run-IsSound backend desk (handle backend "account_banned" "alice" "" third)
      (next (presents 1 9 false new_presence_v2 desk) (
        next (presents_3ds 3 8 false new_presence true first)
          (next (leaves 2 second) (next (hears "account_banned" "alice" "" third) (done _)))))
      desk-IsSound
