-- ===== src/Tests/Events.antt =====
-- The theorems on the event loop at concrete inputs.
use nn_friends.Prelude.{ℕ, ◌≡◌, refl, String, some, List, [], ◌∷◌, ◌++◌, ok, take, arith}
use nn_friends.Poller.{Event, Feed, Follower, page_size, drain, receive}
use nn_friends.Poller.Pages.{IsAscending, after}
use nn_friends.Poller.Drain.{Serves, IsDrained, drain-IsDrained}
use nn_friends.Poller.Stream.{nothing, newer, replay, Tracks, receive-once}

abbrev event : ℕ → String → Event
event v account = record {
  version = v;
  kind = "friend_accepted";
  account = account;
  subject = "bob";
}

abbrev log : List Event
log = event 3 "alice" ∷ event 7 "carol" ∷ []

-- The world is the list of the accounts whose events were handled.
abbrev feed : Feed (List String)
feed = record {
  poll = λ v w. (ok (take page_size (after v log)), w);
  subscribe = λ v w. (ok (after v log), w);
  handle = λ e w. w ++ e.account ∷ [];
}

abbrev start : Follower (List String)
start = record { world = []; cursor = some 0; faults = [] }

served : Serves feed log
served = record { polled = λ v w. refl }

ascending : IsAscending 0 log
ascending = (omega arith, (omega arith, tt))

drain-IsDrained_example : IsDrained feed log served 0 ascending 0 [] (drain feed 3 0 start)
drain-IsDrained_example = drain-IsDrained feed log served 0 ascending 3 0 start (omega arith)

receive-once_example :
    ((receive feed (event 3 "alice" ∷ event 3 "alice" ∷ event 7 "carol" ∷ []) 0 start).0 ≡ 7)
    × ((receive feed (event 3 "alice" ∷ event 3 "alice" ∷ event 7 "carol" ∷ []) 0 start).1.world
        ≡ "alice" ∷ "carol" ∷ [])
receive-once_example =
    receive-once feed 0 (event 3 "alice" ∷ event 3 "alice" ∷ event 7 "carol" ∷ []) log start (
      newer 0 (event 3 "alice") _ _ (omega arith) (
        replay 3 (event 3 "alice") _ _ (omega arith)
          (newer 3 (event 7 "carol") _ _ (omega arith) (nothing 7))))

start-Tracks : Tracks 0 start
start-Tracks = record { saved = refl; faultless = refl }
