-- ===== src/Desk/Connections/Coming.antt =====
-- What RegisterEx does to the people connected: register_ex.go.
use nn_friends.Prelude.{
  ℕ, String, ◌≡◌, refl, ap, ◌∙◌, Option, none, some, List, Bool, true, false, not, ◌||◌, ◌==◌,
  string_eq, Result, ok, err, Ends, OnBoth, if◌then◌else◌, nat_eq,
}
use nn_friends.Prelude.Dict.{put}
use nn_friends.Errors.{Error}
use nn_friends.Types.{ConnectedUser, Platform, wup, ctr}
use nn_friends.Database.Backend.{Backend}
use nn_friends.Database.Server.{Server, remote}
use nn_friends.Wiiu.Accepting.{stamped}
use nn_friends.Wiiu.Updates
use nn_friends.Ctr.Settings
use nn_friends.Desk.{Desk, NexError}
use nn_friends.Desk.Keeping.{
  update_user_last_online_time-EndsWith, update_last_online_3ds-EndsWith, EndsWith-connected,
}
use nn_friends.Desk.Connections.{
  Stations, LoginData, nintendo_login_data, account_extra_info, other_login_data, login_token,
  QResult, success, refused, authentication_unknown, validation_failed, Registration, Connection,
  Login, search_stations, public_station, client_of, client_answer, registered_user, stored, admit,
  enter, located, validated_or, register_ex,
}

-- The platform of the login data, if it is one of the two.
abbrev pub IsOn : Platform → LoginData → Type 0
IsOn wup (nintendo_login_data token) = Unit {0}
IsOn ctr (account_extra_info token) = Unit {0}
IsOn _ _ = ⊥

module _ (B : Backend) where
  -- A user on the platform of the login data, behind the connection, has become the one connected
  -- with its PID; nothing else of who is connected has changed.
  pub record IsEntered (c : Connection) (l : LoginData) (d e : Desk B.State) : Type 0 where
    pub user : ConnectedUser
    pub connected : e.server.connected ≡ put d.server.connected c.pid user
    pub named : user.pid ≡ c.pid
    pub behind : user.connection ≡ some c.id
    pub on : IsOn user.platform l

  -- By the result: registered, or nobody has come.
  abbrev pub IsAnswered : Connection → LoginData → Desk B.State → QResult → Desk B.State → Type 0
  IsAnswered c l d success e = IsEntered c l d e
  IsAnswered c l d _ e = e.server.connected ≡ d.server.connected

  -- No account is marked as online, and nothing is sent.
  abbrev pub IsUnmarked : Desk B.State → Desk B.State → Type 0
  IsUnmarked d e = (e.accounts ≡ d.accounts) × (e.sent ≡ d.sent)

  stored_lem :
      (c : Connection) (l : LoginData) (url : String) (platform : Platform) (seen : String × String)
      (d : Desk B.State) (p : Result Error (Unit {0}) × Server B.State)
      → IsOn platform l
      → p.1.connected ≡ d.server.connected
      → IsAnswered c l d
          (stored B c url (registered_user B c.pid platform c.id seen) p d).0.result
          (stored B c url (registered_user B c.pid platform c.id seen) p d).1
        × IsUnmarked d (stored B c url (registered_user B c.pid platform c.id seen) p d).1
  stored_lem c l url platform seen d (err e, s) on same = (same, (refl, refl))
  stored_lem c l url platform seen d (ok a, s) on same = (
    record {
      user = registered_user B c.pid platform c.id seen;
      connected = ap (λ m. put m c.pid (registered_user B c.pid platform c.id seen)) same;
      named = refl;
      behind = refl;
      on = on;
    },
    (refl, refl),
  )

  Answered : Connection → LoginData → Desk B.State → Registration × Desk B.State → Type 0
  Answered c l d p = IsAnswered c l d p.0.result p.1 × IsUnmarked d p.1

  admit_lem :
      (c : Connection) (l : LoginData) (url : String) (seen : String × String) (d : Desk B.State)
      → Answered c l d (admit B c url seen l d)
  unfolding admit Answered
  admit_lem c (nintendo_login_data token) url seen d =
      stored_lem c (nintendo_login_data token) url wup seen d
        (Updates.update_user_last_online_time B c.pid (stamped B d.server) d.server) tt
        (EndsWith-connected (Updates.update_user_last_online_time B c.pid (stamped B d.server))
          d.server (update_user_last_online_time-EndsWith B _ c.pid _ d.server (refl, refl)))
  admit_lem c (account_extra_info token) url seen d =
      stored_lem c (account_extra_info token) url ctr seen d
        (Settings.update_user_last_online_time B c.pid (stamped B d.server) d.server) tt
        (EndsWith-connected (Settings.update_user_last_online_time B c.pid (stamped B d.server))
          d.server (update_last_online_3ds-EndsWith B _ c.pid _ d.server (refl, refl)))
  admit_lem c other_login_data url seen d = (refl, (refl, refl))

  client_of_connected :
      (login : Login B) (s : Server B.State) → (client_of B login s).1.connected ≡ s.connected
  unfolding client_of remote
  client_of_connected login s =
      go ((login_token login.login_data == "") || not (B.configured s.backend))
        (login.client_of_nex_token (login_token login.login_data) s.backend)
    where
      answer :
          (p : Result Error (String × String) × B.State)
          → (client_answer B (p.0, record s { backend = p.1 })).1.connected ≡ s.connected
      answer (ok a, g) = refl
      answer (err e, g) = refl

      go :
          (b : Bool) (p : Result Error (String × String) × B.State)
          → (if b
              then (("", ""), s)
              else client_answer B (p.0, record s { backend = p.1 })).1.connected
            ≡ s.connected
      go true p = refl
      go false p = answer p

  -- Who asks at the core changes nothing of the people connected.
  enter_lem :
      (c : Connection) (login : Login B) (url : String) (d : Desk B.State)
      → Answered c login.login_data d (enter B c login url d)
  unfolding enter Answered
  enter_lem c login url d =
      moved (enter B c login url d)
        (admit_lem c login.login_data url (client_of B login d.server).0 start)
    where
      start : Desk B.State
      start = record d { server = (client_of B login d.server).1 }

      result :
          (q : QResult) (e : Desk B.State)
          → IsAnswered c login.login_data start q e
          → IsAnswered c login.login_data d q e
      result success e h = record {
        user = h.user;
        connected = h.connected ∙ ap (λ m. put m c.pid h.user) (client_of_connected login d.server);
        named = h.named;
        behind = h.behind;
        on = h.on;
      }
      result (refused n) e h = h ∙ client_of_connected login d.server
      result authentication_unknown e h = h ∙ client_of_connected login d.server
      result validation_failed e h = h ∙ client_of_connected login d.server

      moved :
          (p : Registration × Desk B.State)
          → Answered c login.login_data start p
          → Answered c login.login_data d p
      moved (r, e) (h, unmarked) = (result r.result e h, unmarked)

  -- RegisterEx answers success only where it has made the caller, on the platform of the login data
  -- and behind this connection, the one connected with its PID; in every other case the people
  -- connected are as they were. In no case is the caller's account marked as online.
  pub register_ex-IsAnswered :
      (S : Stations) (c : Connection) (malformed : Bool) (login : Login B) (urls : List S.Station)
      (d : Desk B.State)
      → Ends
          (λ r e. IsAnswered c login.login_data d r.result e × IsUnmarked d e)
          (λ e. (e.server.connected ≡ d.server.connected) × IsUnmarked d e)
          (register_ex B S c malformed login urls)
          d
  unfolding register_ex Answered
  register_ex-IsAnswered S c true login urls d = record { holds = (refl, (refl, refl)) }
  register_ex-IsAnswered S c false login urls d = record { holds = by_validation login.validated }
    where
      Good : Result NexError Registration × Desk B.State → Type 0
      Good =
          OnBoth (λ r e. IsAnswered c login.login_data d r.result e × IsUnmarked d e)
            (λ e. (e.server.connected ≡ d.server.connected) × IsUnmarked d e)

      by_stations : (l p : Option S.Station) → Good (located B S c login l p d)
      by_stations none p = (refl, (refl, refl))
      by_stations (some l) p =
          enter_lem c login (S.url (S.set_principal c.pid c.id (public_station S c l p))) d

      by_validation : (v : Option ℕ) → Good (validated_or B S c login urls v d)
      by_validation (some code) = (refl, (refl, refl))
      by_validation none =
          by_stations (search_stations S urls (none, none)).0
            (search_stations S urls (none, none)).1
