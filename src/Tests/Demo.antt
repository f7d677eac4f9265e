-- ===== src/Tests/Demo.antt =====
-- Two accounts, alice and bob, with the PIDs 1 and 2 on both consoles; a clock that stands at 1000.
use nn_friends.Prelude.{
  ℕ, refl, String, Option, none, some, [], ◌∷◌, true, false, ok, ◌==◌, string_eq, nat_beq,
  if◌then◌else◌,
}
use nn_friends.Coregraph.Services.{Services, pending, none_known}
use nn_friends.Coregraph.Client.{Client}
use nn_friends.Database.Tables.{Tables, FriendRequest, no_tables, default_user_data_3ds}
use nn_friends.Database.Backend.{Backend, core_backend}
use nn_friends.Database.Server.{Server}

abbrev pub account_at : String → ℕ → Option String
account_at ns pid =
    if nat_beq pid 1 then some "alice" else if nat_beq pid 2 then some "bob" else none

abbrev pub pid_at : String → String → Option ℕ
pid_at ns account = if account == "alice" then some 1 else if account == "bob" then some 2 else none

-- bob is a friend of everybody, and so is carol, who has no console.
abbrev pub services : Services
services = record {
  World = ℕ;
  now = λ w. w;
  resolve_pid = λ ns pid w. (ok (account_at ns pid), w);
  resolve_account = λ ns account w. (ok (pid_at ns account), w);
  list_friends = λ account w. (ok ("bob" ∷ "carol" ∷ []), w);
  request_friend = λ from to key w. (ok pending, w);
  get_relationship = λ from to w. (ok none_known, w);
  accept_friend = λ addressee requester w. (ok tt, w);
  remove_friend = λ a b w. (ok tt, w);
  block = λ a b w. (ok tt, w);
  unblock = λ a b w. (ok tt, w);
  list_incoming = λ account w. (ok [], w);
  list_outgoing = λ account w. (ok [], w);
  list_account_links = λ account w. (ok (record { namespace = "wiiu"; subject_id = "17" } ∷ []), w);
  get_presence = λ accounts w. (ok [], w);
  put_mii = λ account mii w. (ok tt, w);
  get_user_data = λ pid w.
      (ok (record { deleted = false; username = "somebody"; mii_name = "m"; mii_bytes = [] }), w);
}

abbrev pub client : Client ℕ
client = record { configured = true; fwd = []; rev = []; world = 1000 }

abbrev pub backend : Backend
backend = core_backend services (λ t. t) (λ t. t) (λ t. refl)

abbrev pub asked : FriendRequest
asked = record {
  id = 5;
  sender_pid = 2;
  recipient_pid = 1;
  sent_on = 900;
  expires_on = 5000;
  message = "hello";
  received = false;
  accepted = false;
  denied = false;
}

abbrev pub tables : Tables
tables = record no_tables {
  requests = asked ∷ record asked { id = 6; recipient_pid = 3 } ∷ [];
  next_id = 7;
  principals = (2, record { username = "bob"; unknown = 2 }) ∷ [];
  miis =
      (2, record { name = "bob"; unknown1 = 0; unknown2 = 0; mii_bytes = []; unknown_datetime = 0 })
      ∷ [];
  blocks =
      record { blocker_pid = 1; blocked_pid = 9; title_id = 0; title_version = 0; date = 0 } ∷ [];
  friendships = record { user1_pid = 1; user2_pid = 2; date = 0; active = true } ∷ [];
  user_data_3ds = (1, default_user_data_3ds) ∷ (2, default_user_data_3ds) ∷ [];
}

abbrev pub server : Server (Client ℕ)
server = record { backend = client; tables = tables; faults = []; expires = []; connected = [] }
