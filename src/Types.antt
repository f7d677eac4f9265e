-- ===== src/Types.antt =====
-- types/connected_user.go and types/platform.go, with the presence types as far as they are read.
use nn_friends.Prelude.{ℕ, String, List, [], Option, none, Bool, false, nat_eq}
use nn_friends.Prelude.Dict.{Dict}

pub data Platform : Type 0 where
  wup ctr : Platform

-- A 3DS presence (NintendoPresence).
pub record Presence : Type 0 where
  pub changed_flags : ℕ
  pub title_id : ℕ
  pub message : String

-- A Wii U presence (NintendoPresenceV2).
pub record PresenceV2 : Type 0 where
  pub changed_flags : ℕ
  pub online : Bool
  pub title_id : ℕ
  pub title_version : ℕ
  pub message : String
  pub pid : ℕ
  pub application_data : List ℕ

abbrev pub new_presence : Presence
new_presence = record { changed_flags = 0; title_id = 0; message = "" }

abbrev pub new_presence_v2 : PresenceV2
new_presence_v2 = record {
  changed_flags = 0;
  online = false;
  title_id = 0;
  title_version = 0;
  message = "";
  pid = 0;
  application_data = [];
}

-- `connection` is the id of the connection behind the pointer, or `none` for nil.
pub record ConnectedUser : Type 0 where
  pub pid : ℕ
  pub platform : Platform
  pub connection : Option ℕ
  pub presence : Presence
  pub presence_v2 : PresenceV2
  pub client : String
  pub os : String

-- NewConnectedUser; the zero Platform is WUP.
abbrev pub new_connected_user : ConnectedUser
new_connected_user = record {
  pid = 0;
  platform = wup;
  connection = none;
  presence = new_presence;
  presence_v2 = new_presence_v2;
  client = "";
  os = "";
}

-- `globals.ConnectedUsers`
abbrev pub ConnectedUsers : Type 0
ConnectedUsers = Dict ℕ ConnectedUser

-- The namespace of a platform, as crosspresence/glue.go, crossnotify and coreevents spell it.
abbrev pub namespace_of : Platform → String
namespace_of ctr = "3ds"
namespace_of wup = "wiiu"
