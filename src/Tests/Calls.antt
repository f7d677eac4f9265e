-- ===== src/Tests/Calls.antt =====
-- The theorems on the calls of the consoles, at concrete inputs.
use nn_friends.Prelude.{
  ℕ, ◌≡◌, refl, String, none, some, List, [], ◌∷◌, Bool, true, false, ok, err, After, Ends, nat_eq,
  string_eq, ◌>>◌, arith,
}
use nn_friends.Prelude.Dict.{get, has}
use nn_friends.Types.{ConnectedUser, new_connected_user, new_presence_v2}
use nn_friends.Coregraph.Client.{Client}
use nn_friends.Database.Backend.{Backend}
use nn_friends.Database.Server.{remote}
use nn_friends.Profilecache.{fresh}
use nn_friends.Wiiu.Profiles.{NnaInfo, get_user_network_account_info}
use nn_friends.Wiiu.Accepting.Laws.{IsAccepted}
use nn_friends.Wiiu.Friends.{get_user_friend_list}
use nn_friends.Wiiu.Friends.Shown.{IsListOf, get_user_friend_list-IsListOf}
use nn_friends.Wiiu.Updates.{update_network_account_info}
use nn_friends.Wiiu.Updates.Reading.{get_user_network_account_info-update}
use nn_friends.Presence.Foreign.{Rendering, foreign_for}
use nn_friends.Presence.Foreign.Elsewhere.{IsElsewhere, foreign_for-IsElsewhere}
use nn_friends.Desk.{
  Desk, invalid_message_id, unknown, notice_for, friendship_removed, presence_wiiu,
}
use nn_friends.Desk.Wiiu.{
  add_friend_request, accept_friend_request, cancel_friend_request, decline_friend_request,
  deny_friend_request, remove_friend,
}
use nn_friends.Desk.Wiiu.Asking.{IsAsked, add_friend_request-IsAsked}
use nn_friends.Desk.Wiiu.Silence.{
  unknown_request, IsTold, remove_friend-tells, accept_friend_request-IsTold,
}
use nn_friends.Desk.Broadcast.{notices_to}
use nn_friends.Desk.Own.{update_and_get_all_information, forced_online}
use nn_friends.Desk.Own.Marking.{update_and_get_all_information-IsUnmarked}
use nn_friends.Desk.Connections.{
  Stations, nintendo_login_data, Connection, Login, register_ex, connection_ended,
}
use nn_friends.Desk.Connections.Coming.{IsAnswered, IsUnmarked, register_ex-IsAnswered}
use nn_friends.Desk.Connections.Going.{IsGone, connection_ended-IsGone}
use nn_friends.Tests.Demo.{backend}
use nn_friends.Tests.Accepting.{known}

-- bob is connected, on a Wii U.
abbrev pub bob : ConnectedUser
bob = record new_connected_user { pid = 2; connection = some 7 }

abbrev pub desk : Desk (Client ℕ)
desk = record {
  server = record known { connected = (2, bob) ∷ [] };
  accounts = record { accounts = ("bob", 2) ∷ []; pids = (2, "bob") ∷ [] };
  sent = [];
  ended = [];
}

add_friend_request-IsAsked_example :
    Ends
      (IsAsked backend 1 2 desk)
      (λ e. e.sent ≡ [])
      (add_friend_request backend 1 false 2 "hi")
      desk
add_friend_request-IsAsked_example = add_friend_request-IsAsked backend 1 false 2 "hi" desk

unknown_request_example :
    ((accept_friend_request backend 1 false 77 desk).0 ≡ err invalid_message_id)
    × ((cancel_friend_request backend 1 false 77 desk).0 ≡ err invalid_message_id)
    × ((decline_friend_request backend 1 false 77 desk).0 ≡ err invalid_message_id)
    × ((deny_friend_request backend 1 false 77 desk).0 ≡ err unknown)
unknown_request_example = unknown_request backend 1 77 desk refl refl

remove_friend-tells_example :
    Ends
      (λ _ e. e.sent ≡ notice_for (get e.server.connected 2) (friendship_removed 2))
      (λ e. e.sent ≡ [])
      (remove_friend backend 1 false 2)
      desk
remove_friend-tells_example = remove_friend-tells backend 1 false 2 desk

accept_friend_request-IsTold_example :
    Ends
      (λ info e.
        IsAccepted backend 5 desk.server info e.server
        × IsTold backend 1 info.nna.principal.pid desk e)
      (λ e. e.sent ≡ [])
      (accept_friend_request backend 1 false 5)
      desk
accept_friend_request-IsTold_example = accept_friend_request-IsTold backend 1 false 5 desk

get_user_friend_list-IsListOf_example :
    After
      (λ infos _.
        (pids : List ℕ) × ((backend.friend_pids "wiiu" 1 known.backend).0 ≡ ok pids)
        × IsListOf pids infos)
      (get_user_friend_list backend 1)
      (record known { expires = (2, 1200) ∷ [] })
get_user_friend_list-IsListOf_example =
    get_user_friend_list-IsListOf backend 1 (record known { expires = (2, 1200) ∷ [] })
      (λ pid until trusted. ground arith)

abbrev reported : NnaInfo
reported = record {
  unknown1 = 4;
  unknown2 = 5;
  principal = record {
    pid = 0;
    nnid = "bob";
    unknown = 2;
    mii = record { name = "b"; unknown1 = 0; unknown2 = 0; mii_bytes = []; unknown_datetime = 0 };
  };
}

get_user_network_account_info-update_example :
    After
      (λ i _. i ≡ record reported { principal = record reported.principal { pid = 2 } })
      (do
        update_network_account_info backend 2 reported 19900101
        get_user_network_account_info backend 2)
      (record known { expires = (2, 1200) ∷ [] })
unfolding fresh
get_user_network_account_info-update_example =
    get_user_network_account_info-update backend 2 reported 19900101
      (record known { expires = (2, 1200) ∷ [] }) refl

-- The core says that bob plays on a Switch.
abbrev playing : Backend
playing = record backend {
  get_presence = λ accounts s. (
    ok (record { account_id = "bob"; namespace = "switch"; title_id = "01"; client = "" } ∷ []),
    s,
  );
}

abbrev pub rendering : Rendering
rendering = record { description = λ l. l.namespace; wiiu_flags = 0x1EE }

foreign_for-IsElsewhere_example :
    IsElsewhere playing rendering "wiiu"
      ((2, "bob") ∷ [])
      (has known.connected)
      known.backend
      2
      "switch"
unfolding foreign_for remote
foreign_for-IsElsewhere_example =
    foreign_for-IsElsewhere playing rendering "wiiu" ((2, "bob") ∷ []) (has known.connected) known 2
      "switch" refl

update_and_get_all_information-IsUnmarked_example :
    Ends
      (λ _ e.
        (e.accounts ≡ desk.accounts)
        × ((friends : List ℕ) × (e.sent
              ≡ notices_to e.server (presence_wiiu (forced_online 2 new_presence_v2)) friends)))
      (λ e. (e.accounts ≡ desk.accounts) × (e.sent ≡ []))
      (update_and_get_all_information backend rendering false 2 7 false reported new_presence_v2
        19900101)
      desk
update_and_get_all_information-IsUnmarked_example =
    update_and_get_all_information-IsUnmarked backend rendering false 2 7 false reported
      new_presence_v2 19900101 bob desk refl

-- A station is whether it is public, and its URL.
abbrev stations : Stations
stations = record {
  Station = Bool × String;
  nat_filtering = λ u. some 0;
  nat_mapping = λ u. some 0;
  is_public = λ u. u.0;
  set_address = λ address port u. (u.0, address);
  set_nat = λ f m u. u;
  set_public_behind_nat = λ u. (true, u.1);
  set_principal = λ pid id u. u;
  url = λ u. u.1;
  unknown_filtering = 0;
  unknown_mapping = 0;
}

abbrev incoming : Connection
incoming = record { id = 9; pid = 1; address = "10.0.0.1"; port = 5 }

abbrev login : Login backend
login = record {
  login_data = nintendo_login_data "token";
  validated = none;
  client_of_nex_token = λ token s. (ok ("cemu", "linux"), s);
}

register_ex-IsAnswered_example :
    Ends
      (λ r e.
        IsAnswered backend incoming login.login_data desk r.result e × IsUnmarked backend desk e)
      (λ e. (e.server.connected ≡ desk.server.connected) × IsUnmarked backend desk e)
      (register_ex backend stations incoming false login ((false, "local") ∷ []))
      desk
register_ex-IsAnswered_example =
    register_ex-IsAnswered backend stations incoming false login ((false, "local") ∷ []) desk

connection_ended-IsGone_example : IsGone backend 2 desk (connection_ended backend 2 desk)
connection_ended-IsGone_example = connection_ended-IsGone backend 2 bob desk refl
