-- ===== src/Desk/Connections.antt =====
-- nex/secure-connection/register_ex.go, the connection-ended handler of nex/secure.go,
-- LoginToken and ClientOf of crosspresence/client.go, and globals/banned.go.
pub mod Coming
pub mod Going
use nn_friends.Prelude.{
  ℕ, String, Option, none, some, List, [], ◌∷◌, ◌++◌, Bool, true, false, not, ◌&&◌, ◌||◌, ◌==◌,
  Exec, Result, ok, err, fail, if◌then◌else◌, nat_beq, nat_eq, string_eq,
}
use nn_friends.Prelude.Dict.{get, put, remove}
use nn_friends.Errors.{Error}
use nn_friends.Types.{ConnectedUser, Platform, wup, ctr, new_connected_user}
use nn_friends.Accounts.{mark_account_offline}
use nn_friends.Database.Backend.{Backend}
use nn_friends.Database.Server.{Server, remote}
use nn_friends.Wiiu.Accepting.{stamped}
use nn_friends.Wiiu.Updates
use nn_friends.Ctr.Settings
use nn_friends.Desk.{Desk, Handler, NexError, core_invalid_argument, friend_offline}
use nn_friends.Desk.Broadcast.{send_user_went_offline, send_ctr}

-- The StationURL of nex-go. `address` sets the address and the port of the connection.
pub record Stations : Type 1 where
  pub Station : Type 0
  pub nat_filtering : Station → Option ℕ
  pub nat_mapping : Station → Option ℕ
  pub is_public : Station → Bool
  pub set_address : String → ℕ → Station → Station
  pub set_nat : ℕ → ℕ → Station → Station
  pub set_public_behind_nat : Station → Station
  pub set_principal : ℕ → ℕ → Station → Station
  pub url : Station → String
  pub unknown_filtering : ℕ
  pub unknown_mapping : ℕ

-- The login data that the program tells apart, with the NEX token of the first two.
pub data LoginData : Type 0 where
  nintendo_login_data account_extra_info : String → LoginData
  other_login_data : LoginData

unfoldable pub login_token : LoginData → String
login_token (nintendo_login_data token) = token
login_token (account_extra_info token) = token
login_token other_login_data = ""

-- QResult: of the errors, only which it is.
pub data QResult : Type 0 where
  success : QResult
  refused : ℕ → QResult
  authentication_unknown validation_failed : QResult

pub record Registration : Type 0 where
  pub result : QResult
  pub connection_id : ℕ
  pub url_public : String

-- The connection of a packet: its id, its PID and its address.
pub record Connection : Type 0 where
  pub id : ℕ
  pub pid : ℕ
  pub address : String
  pub port : ℕ

-- What RegisterEx is given beside the connection: the answer of ValidatePNLoginData, and the call
-- of the core that says which client a token was issued to.
pub record Login (B : Backend) : Type 0 where
  pub login_data : LoginData
  pub validated : Option ℕ
  pub client_of_nex_token : String → Exec B.State Error (String × String)

module _ (S : Stations) where
  -- One station of the loop; the first that fits stays.
  abbrev local_or : S.Station → ℕ → ℕ → Option S.Station → Option S.Station
  local_or u natf natm (some l) = some l
  local_or u natf natm none =
      if not (S.is_public u) || (nat_beq natf S.unknown_filtering && nat_beq natm S.unknown_mapping)
      then some u
      else none

  abbrev public_or : S.Station → Option S.Station → Option S.Station
  public_or u (some p) = some p
  public_or u none = if S.is_public u then some u else none

  abbrev Found : Type 0
  Found = Option S.Station × Option S.Station

  abbrev looked_at : S.Station → Option ℕ → Option ℕ → Found → Found
  looked_at u none natm f = f
  looked_at u (some natf) none f = f
  looked_at u (some natf) (some natm) (l, p) = (local_or u natf natm l, public_or u p)

  unfoldable pub search_stations : List S.Station → Found → Found
  search_stations [] f = f
  search_stations (u ∷ us) f =
      search_stations us (looked_at u (S.nat_filtering u) (S.nat_mapping u) f)

  -- Without a public station, the local one under the address that is seen.
  abbrev pub public_station : Connection → S.Station → Option S.Station → S.Station
  public_station c l (some p) = p
  public_station c l none =
      S.set_public_behind_nat
        (S.set_nat S.unknown_filtering S.unknown_mapping (S.set_address c.address c.port l))

module _ (B : Backend) where
  abbrev client_answer :
      Result Error (String × String) × Server B.State → (String × String) × Server B.State
  client_answer (ok answer, s) = (answer, s)
  client_answer (err e, s) = (("", ""), s)

  -- ClientOf
  unfoldable pub client_of : Login B → Server B.State → (String × String) × Server B.State
  unfolding login_token
  client_of login s =
      if (login_token login.login_data == "") || not (B.configured s.backend)
      then (("", ""), s)
      else client_answer (remote (login.client_of_nex_token (login_token login.login_data)) s)

  abbrev pub registered_user : ℕ → Platform → ℕ → String × String → ConnectedUser
  registered_user pid platform connection seen = record new_connected_user {
    pid = pid;
    platform = platform;
    connection = some connection;
    client = seen.0;
    os = seen.1;
  }

  abbrev pub failed : QResult → Registration
  failed q = record { result = q; connection_id = 0; url_public = "" }

  -- The end of RegisterEx for one of the two platforms, on the answer of UpdateUserLastOnlineTime.
  abbrev stored :
      Connection
      → String
      → ConnectedUser
      → Result Error (Unit {0}) × Server B.State
      → Desk B.State
      → Registration × Desk B.State
  stored c url user (err e, s) d = (failed authentication_unknown, record d { server = s })
  stored c url user (ok _, s) d = (
    record { result = success; connection_id = c.id; url_public = url },
    record d { server = record s { connected = put s.connected c.pid user } },
  )

  unfoldable pub admit :
      Connection → String → String × String → LoginData → Desk B.State → Registration × Desk B.State
  admit c url seen (nintendo_login_data token) d =
      stored c url (registered_user c.pid wup c.id seen)
        (Updates.update_user_last_online_time B c.pid (stamped B d.server) d.server) d
  admit c url seen (account_extra_info token) d =
      stored c url (registered_user c.pid ctr c.id seen)
        (Settings.update_user_last_online_time B c.pid (stamped B d.server) d.server) d
  admit c url seen other_login_data d = (failed validation_failed, d)

  abbrev answered : Registration × Desk B.State → Result NexError Registration × Desk B.State
  answered (r, d) = (ok r, d)

  -- The stations are found: the user is looked up at the core, and admitted.
  unfoldable pub enter : Connection → Login B → String → Desk B.State → Registration × Desk B.State
  unfolding client_of admit
  enter c login url d =
      let (seen, s) = client_of login d.server in
      admit c url seen login.login_data (record d { server = s })

  abbrev located :
      (S : Stations)
      → Connection
      → Login B
      → Option S.Station
      → Option S.Station
      → Handler B.State Registration
  located S c login none p d = (err core_invalid_argument, d)
  located S c login (some l) p d =
      answered (enter c login (S.url (S.set_principal c.pid c.id (public_station S c l p))) d)

  abbrev validated_or :
      (S : Stations)
      → Connection
      → Login B
      → List S.Station
      → Option ℕ
      → Handler B.State Registration
  validated_or S c login urls (some code) d = (ok (failed (refused code)), d)
  validated_or S c login urls none d =
      let (l, p) = search_stations S urls (none, none) in located S c login l p d

  unfoldable pub register_ex :
      (S : Stations) → Connection → Bool → Login B → List S.Station → Handler B.State Registration
  unfolding search_stations enter
  register_ex S c malformed login urls =
      if malformed then fail core_invalid_argument else validated_or S c login urls login.validated

  -- The handler's part for each platform.
  abbrev leave : Platform → ℕ → Desk B.State → Desk B.State
  leave wup pid d = send_user_went_offline B pid (record d {
    server = (Updates.update_user_last_online_time B pid (stamped B d.server) d.server).1;
  })
  leave ctr pid d = send_ctr B pid (friend_offline pid) (record d {
    server = (Settings.update_user_last_online_time B pid (stamped B d.server) d.server).1;
  })

  abbrev forgotten : ℕ → Desk B.State → Desk B.State
  forgotten pid d = record d {
    server = record d.server { connected = remove d.server.connected pid };
    accounts = mark_account_offline pid d.accounts;
    ended = d.ended ++ pid ∷ [];
  }

  abbrev pub ended_for : Option ConnectedUser → ℕ → Desk B.State → Desk B.State
  ended_for none pid d = d
  ended_for (some user) pid d = forgotten pid (leave user.platform pid d)

  -- OnConnectionEnded
  unfoldable pub connection_ended : ℕ → Desk B.State → Desk B.State
  connection_ended pid d = ended_for (get d.server.connected pid) pid d
