-- ===== src/Tests/Consoles.antt =====
-- The theorems on the 3DS service and on presence at concrete inputs.
use nn_friends.Prelude.{ℕ, ◌≡◌, refl, String, [], ◌∷◌, false, ok, err, All, nat_eq}
use nn_friends.Prelude.Dict.{get}
use nn_friends.Database.Backend.{Backend}
use nn_friends.Desk.{unknown}
use nn_friends.Desk.Ctr.Sync.{sync_friend}
use nn_friends.Desk.Ctr.Synced.{sync_friend-empty}
use nn_friends.Tests.Calls.{desk}
use nn_friends.Presence.Publisher.{Online, Published, Core, Publisher, reconcile}
use nn_friends.Presence.Publisher.Reconciled.{Agrees, reconcile-Agrees}
use nn_friends.Presence.Notify.{diff, line_at}
use nn_friends.Presence.Notify.Told.{told, told-diff}
use nn_friends.Tests.Demo.{backend}

-- The core knows nobody.
abbrev lonely : Backend
lonely = record backend {
  friend_pids = λ ns pid g. (ok [], g);
  outgoing_addressee_pids = λ ns pid g. (ok [], g);
}

sync_friend-empty_example : sync_friend lonely 1 false (2 ∷ []) desk ≡ (err unknown, desk)
sync_friend-empty_example =
    sync_friend-empty lonely 1 (2 ∷ []) desk desk.server.backend desk.server.backend refl refl

abbrev core : Core ℕ
core = record {
  account_of = λ ns pid w. (ok "alice", w);
  register_session = λ account o w. (ok "session", w);
  heartbeat = λ session w. (ok tt, w);
  expire_session = λ session w. (ok tt, w);
}

abbrev playing : ℕ → String → Online
playing pid title = record { pid = pid; namespace = "wiiu"; title_id = title; client = ""; os = "" }

abbrev published : Published
published = record {
  session_id = "s";
  account_id = "alice";
  namespace = "wiiu";
  title = "old";
  client = "";
  os = "";
}

abbrev publisher : Publisher ℕ
publisher = record { live = (1, published) ∷ (3, published) ∷ []; world = 0 }

reconcile-Agrees_example :
    All
      (λ o.
        Agrees core o
          (get (reconcile core (playing 1 "new" ∷ playing 2 "" ∷ []) publisher).live o.pid))
      (playing 1 "new" ∷ playing 2 "" ∷ [])
reconcile-Agrees_example =
    reconcile-Agrees core (playing 1 "new" ∷ playing 2 "" ∷ []) publisher (refl, (refl, tt))

told-diff_example :
    told
      (diff ((1, "a") ∷ (2, "b") ∷ []) ((1, "c") ∷ []) (λ _. false))
      (line_at ((1, "a") ∷ (2, "b") ∷ []))
      2
    ≡ ""
told-diff_example = told-diff ((1, "a") ∷ (2, "b") ∷ []) ((1, "c") ∷ []) (λ _. false) 2 (refl, tt)
