-- ===== src/Desk/Reach/Writers.antt =====
-- What each of the handlers that write globals.ConnectedUsers leaves of it.
use nn_friends.Prelude.{
  ℕ, ◌≡◌, refl, sym, ◌∙◌, subst, Option, none, some, List, Bool, Result, ok, err, OnBoth, nat_beq,
  nat_beq_iff, nat_eq, Bool-cases, arith, inl, inr,
}
use nn_friends.Prelude.Dict.{get, put, get-put_cases}
use nn_friends.Types.{ConnectedUser, ConnectedUsers, Platform}
use nn_friends.Database.Backend.{Backend}
use nn_friends.Desk.{Desk, NexError}
use nn_friends.Desk.Own.{user_or_new}
use nn_friends.Desk.Connections.{
  Stations, Connection, Login, QResult, success, refused, authentication_unknown, validation_failed,
  Registration, register_ex, ended_for, connection_ended,
}
use nn_friends.Desk.Connections.Coming.{IsAnswered, IsUnmarked, register_ex-IsAnswered}
use nn_friends.Desk.Connections.Going.{connection_ended-IsGone}
use nn_friends.Desk.Reach.{IsSound}

pub put-IsSound :
    (users : ConnectedUsers) (pid : ℕ) (user : ConnectedUser)
    → (user.pid ≡ pid) × ((c : ℕ) × (user.connection ≡ some c))
    → IsSound users
    → IsSound (put users pid user)
put-IsSound users pid user own sound q found there = elim (get-put_cases users pid q user there) [
  | inl (same, equal) ↦
      subst (λ u. (u.pid ≡ q) × ((c : ℕ) × (u.connection ≡ some c))) equal
        (subst (λ p. (user.pid ≡ p) × ((c : ℕ) × (user.connection ≡ some c))) same own)
  | inr old ↦ sound q found old
]

-- The caller, as they were or new.
pub user_or_new-IsOwn :
    (users : ConnectedUsers) (pid : ℕ) (platform : Platform) (connection : ℕ)
    (o : Option ConnectedUser)
    → get users pid ≡ o
    → IsSound users
    → ((user_or_new pid platform connection o).pid ≡ pid)
      × ((c : ℕ) × ((user_or_new pid platform connection o).connection ≡ some c))
user_or_new-IsOwn users pid platform connection none there sound = (refl, (connection, refl))
user_or_new-IsOwn users pid platform connection (some user) there sound = sound pid user there

module _ (B : Backend) where
  pub registered-IsSound :
      (S : Stations) (c : Connection) (malformed : Bool) (login : Login B) (urls : List S.Station)
      (d : Desk B.State)
      → IsSound d.server.connected
      → IsSound (register_ex B S c malformed login urls d).1.server.connected
  registered-IsSound S c malformed login urls d sound =
      go (register_ex B S c malformed login urls d)
        (register_ex-IsAnswered B S c malformed login urls d).holds
    where
      by_result :
          (q : QResult) (e : Desk B.State)
          → IsAnswered B c login.login_data d q e
          → IsSound e.server.connected
      by_result success e h =
          subst IsSound (sym h.connected)
            (put-IsSound d.server.connected c.pid h.user (h.named, (c.id, h.behind)) sound)
      by_result (refused n) e h = subst IsSound (sym h) sound
      by_result authentication_unknown e h = subst IsSound (sym h) sound
      by_result validation_failed e h = subst IsSound (sym h) sound

      go :
          (p : Result NexError Registration × Desk B.State)
          → OnBoth
              (λ r e. IsAnswered B c login.login_data d r.result e × IsUnmarked B d e)
              (λ e. (e.server.connected ≡ d.server.connected) × IsUnmarked B d e)
              p
          → IsSound p.1.server.connected
      go (ok r, e) h = by_result r.result e h.0
      go (err x, e) h = subst IsSound (sym h.0) sound

  pub ended-IsSound :
      (pid : ℕ) (d : Desk B.State)
      → IsSound d.server.connected
      → IsSound (connection_ended B pid d).server.connected
  unfolding connection_ended
  ended-IsSound pid d sound = go (get d.server.connected pid) refl
    where
      go :
          (o : Option ConnectedUser)
          → get d.server.connected pid ≡ o
          → IsSound (connection_ended B pid d).server.connected
      go none nobody =
          subst (λ o. IsSound (ended_for B o pid d).server.connected) (sym nobody) sound
      go (some user) there =
          let left = connection_ended-IsGone B pid user d there in
          λ q found at. elim (Bool-cases (nat_beq q pid)) [
            | inl same ↦ ground (arith, nat_beq_iff q pid, left.gone, at)
            | inr other ↦
                sound q found (sym (left.others q (ground (arith, nat_beq_iff q pid))) ∙ at)
          ]
