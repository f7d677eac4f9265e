-- ===== src/Desk/Ctr/Hidden.antt =====
-- What nobody is shown of a 3DS that does not show its game: nex/friends-3ds/update_presence.go.
use nn_friends.Prelude.{ℕ, ◌≡◌, refl, Option, none, some, ◌++◌, Bool, true, false, Ends, nat_eq}
use nn_friends.Prelude.Dict.{get, get-put_self}
use nn_friends.Types.{ConnectedUser, Platform, ctr, Presence}
use nn_friends.Database.Backend.{Backend}
use nn_friends.Desk.{Desk, invalid_argument, presence_3ds}
use nn_friends.Desk.Sending.{Ends-decoded}
use nn_friends.Desk.Broadcast.{notices_to, broadcast, ctr_friends_of, send_ctr}
use nn_friends.Desk.Own.{marked, mark_online, known_or_marked, ensure_connected}
use nn_friends.Desk.Ctr.{hidden_presence, set_presence, update_presence}

module _ (B : Backend) where
  -- Nothing is sent by marking an account as online.
  mark_online-sent :
      (platform : Platform) (pid : ℕ) (d : Desk B.State)
      → (mark_online B platform pid d).sent ≡ d.sent
  unfolding mark_online
  mark_online-sent platform pid d = go (B.configured d.server.backend)
    where
      go : (b : Bool) → (marked B b platform pid d).sent ≡ d.sent
      go true = refl
      go false = refl

  ensure_connected-sent :
      (platform : Platform) (pid connection : ℕ) (d : Desk B.State)
      → (ensure_connected B platform pid connection d).sent ≡ d.sent
  unfolding ensure_connected
  ensure_connected-sent platform pid connection d = go (get d.server.connected pid)
    where
      go :
          (o : Option ConnectedUser) → (known_or_marked B platform pid connection o d).sent ≡ d.sent
      go (some user) = refl
      go none = mark_online-sent platform pid _

  -- The caller is connected with the empty presence, and the people told have been told of that one.
  pub record IsHidden (caller : ℕ) (d e : Desk B.State) : Type 0 where
    pub user : ConnectedUser
    pub connected : get e.server.connected caller ≡ some user
    pub stored : user.presence ≡ hidden_presence
    pub told :
        e.sent
        ≡ d.sent
          ++ notices_to
              (ctr_friends_of B caller d.server).1
              (presence_3ds caller hidden_presence)
              (ctr_friends_of B caller d.server).0

  -- Whatever presence a 3DS reports, if it says not to show its game, then UpdatePresence stores the
  -- empty presence for the caller, who is connected afterwards, and tells the caller's friends of that
  -- one and of nothing else; arguments that are not decoded change nothing.
  pub update_presence-IsHidden :
      (caller connection : ℕ) (malformed : Bool) (presence : Presence) (d : Desk B.State)
      → Ends
          (λ _ e. IsHidden caller d e)
          (λ e. e ≡ d)
          (update_presence B caller connection malformed presence false)
          d
  unfolding update_presence set_presence send_ctr broadcast
  update_presence-IsHidden caller connection malformed presence d =
      Ends-decoded malformed invalid_argument _ d refl (record {
        holds = record {
          user = _;
          connected =
              get-put_self (ensure_connected B ctr caller connection start).server.connected caller
                _;
          stored = refl;
          told = ensure_connected-sent ctr caller connection start;
        };
      })
    where
      start : Desk B.State
      start = send_ctr B caller (presence_3ds caller hidden_presence) d
