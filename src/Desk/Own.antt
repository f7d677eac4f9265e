-- ===== src/Desk/Own.antt =====
-- nex/friends-wiiu: the calls that store the caller's presence, update_and_get_all_information.go and
-- update_presence.go.
-- `connection` is the connection of the caller.
pub mod Marking
use nn_friends.Prelude.{
  ℕ, String, Option, none, some, List, [], ◌∷◌, ◌++◌, Bool, true, false, not, Exec, Result, ok, err,
  pure, fail, ◌>>=◌, ◌>>◌, recover, if◌then◌else◌, nat_beq, nat_eq,
}
use nn_friends.Prelude.Dict.{Dict, get, put}
use nn_friends.Errors.{Error, is_empty_list, is_pid_missing}
use nn_friends.Types.{
  ConnectedUser, Platform, wup, ctr, PresenceV2, new_connected_user, new_presence_v2, namespace_of,
}
use nn_friends.Accounts.{learn_online}
use nn_friends.Database.Backend.{Backend}
use nn_friends.Database.Server.{Server, remote}
use nn_friends.Wiiu.Profiles.{
  PrincipalInfo, NnaInfo, Comment, Preference, get_user_principal_basic_info, get_user_comment,
  get_user_principal_preference,
}
use nn_friends.Wiiu.Requests.{is_friend_request_blocked}
use nn_friends.Wiiu.Listing.{Listed, get_user_friend_requests_in, get_user_friend_requests_out}
use nn_friends.Wiiu.BlockList.{Blacklisted, get_user_block_list}
use nn_friends.Wiiu.Accepting.{FriendInfo, stamped}
use nn_friends.Wiiu.Friends.{get_user_friend_list}
use nn_friends.Wiiu.Updates.{
  update_user_comment, update_user_principal_preference, update_network_account_info,
}
use nn_friends.Presence.Foreign.{Rendering, wiiu_presence, foreign_friends}
use nn_friends.Desk.{
  Desk, Handler, NexError, invalid_argument, unknown, core_unknown, db, decoded, look,
}
use nn_friends.Desk.Wiiu.{or_unknown, principal_error}
use nn_friends.Desk.Broadcast.{send_presence_update}

abbrev pub new_user : ℕ → Platform → ℕ → ConnectedUser
new_user pid platform connection = record new_connected_user {
  pid = pid;
  platform = platform;
  connection = some connection;
}

abbrev pub user_or_new : ℕ → Platform → ℕ → Option ConnectedUser → ConnectedUser
user_or_new pid platform connection none = new_user pid platform connection
user_or_new pid platform connection (some user) = user

-- The presence that the friends are told: the console leaves these two fields at 0.
abbrev pub forced_online : ℕ → PresenceV2 → PresenceV2
forced_online pid presence = record presence { online = true; pid = pid }

-- What UpdateAndGetAllInformation answers; the notifications of GetUserNotifications are none.
pub record AllInformation : Type 0 where
  pub preference : Preference
  pub comment : Comment
  pub friends : List FriendInfo
  pub requests_out : List Listed
  pub requests_in : List Listed
  pub blocks : List Blacklisted

-- What a friend elsewhere looks like in the list.
abbrev pub overlaid : Rendering → ℕ → Option String → FriendInfo → FriendInfo
overlaid R now none info = info
overlaid R now (some line) info = record info {
  presence = wiiu_presence R info.nna.principal.pid line;
  last_online = now;
}

abbrev pub overlay : Rendering → ℕ → Dict ℕ String → List FriendInfo → List FriendInfo
overlay R now lines [] = []
overlay R now lines (i ∷ infos) =
    overlaid R now (get lines i.nna.principal.pid) i ∷ overlay R now lines infos

abbrev pub bella_mii : List ℕ
bella_mii =
    0x03 ∷ 0x00 ∷ 0x00 ∷ 0x40 ∷ 0xE9 ∷ 0x55 ∷ 0xA2 ∷ 0x09 ∷ 0xE7 ∷ 0xC7 ∷ 0x41 ∷ 0x82 ∷ 0xD9 ∷ 0x7D
    ∷ 0x0B ∷ 0x2D ∷ 0x03 ∷ 0xB3 ∷ 0xB8 ∷ 0x8D ∷ 0x27 ∷ 0xD9 ∷ 0x00 ∷ 0x00 ∷ 0x01 ∷ 0x40 ∷ 0x62
    ∷ 0x00 ∷ 0x65 ∷ 0x00 ∷ 0x6C ∷ 0x00 ∷ 0x6C ∷ 0x00 ∷ 0x61 ∷ 0x00 ∷ 0x00 ∷ 0x00 ∷ 0x45 ∷ 0x00
    ∷ 0x00 ∷ 0x00 ∷ 0x00 ∷ 0x00 ∷ 0x00 ∷ 0x00 ∷ 0x40 ∷ 0x40 ∷ 0x12 ∷ 0x00 ∷ 0x81 ∷ 0x01 ∷ 0x04
    ∷ 0x68 ∷ 0x43 ∷ 0x18 ∷ 0x20 ∷ 0x34 ∷ 0x46 ∷ 0x14 ∷ 0x81 ∷ 0x12 ∷ 0x17 ∷ 0x68 ∷ 0x0D ∷ 0x00
    ∷ 0x00 ∷ 0x29 ∷ 0x03 ∷ 0x52 ∷ 0x48 ∷ 0x50 ∷ 0x00 ∷ 0x00 ∷ 0x00 ∷ 0x00 ∷ 0x00 ∷ 0x00 ∷ 0x00
    ∷ 0x00 ∷ 0x00 ∷ 0x00 ∷ 0x00 ∷ 0x00 ∷ 0x00 ∷ 0x00 ∷ 0x00 ∷ 0x00 ∷ 0x00 ∷ 0x00 ∷ 0x00 ∷ 0x00
    ∷ 0x00 ∷ 0x00 ∷ 0xFE ∷ 0x86 ∷ []

-- The friend for testing, if EnableBella is set.
abbrev pub bella : Rendering → FriendInfo
bella R = record {
  nna = record {
    unknown1 = 0;
    unknown2 = 0;
    principal = record {
      pid = 1743126339;
      nnid = "bells1998";
      unknown = 0;
      mii = record {
        name = "bella";
        unknown1 = 0;
        unknown2 = 0;
        mii_bytes = bella_mii;
        unknown_datetime = 0;
      };
    };
  };
  presence = record (wiiu_presence R 1743126339 "Testing") { title_id = 0; title_version = 0 };
  status = record { contents = "test"; last_changed = 0 };
  became_friend = 0;
  last_online = 0;
}

abbrev pub with_bella : Rendering → Bool → List FriendInfo → List FriendInfo
with_bella R enabled infos = if enabled then infos ++ bella R ∷ [] else infos

module _ (B : Backend) where
  -- MarkAccountOnline, by whether the core is configured.
  abbrev pub marked : Bool → Platform → ℕ → Desk B.State → Desk B.State
  marked false platform pid d = d
  marked true platform pid d =
      let (r, g) = B.account_of_pid (namespace_of platform) pid d.server.backend in
      record d {
        server = record d.server { backend = g };
        accounts = learn_online r pid d.accounts;
      }

  unfoldable pub mark_online : Platform → ℕ → Desk B.State → Desk B.State
  mark_online platform pid d = marked (B.configured d.server.backend) platform pid d

  abbrev pub known_or_marked : Platform → ℕ → ℕ → Option ConnectedUser → Desk B.State → Desk B.State
  known_or_marked platform pid connection (some user) d = d
  known_or_marked platform pid connection none d = mark_online platform pid (record d {
    server = record d.server {
      connected = put d.server.connected pid (new_user pid platform connection);
    };
  })

  -- The failsafe: a caller who is not connected becomes so, and only then is the account marked.
  unfoldable pub ensure_connected : Platform → ℕ → ℕ → Desk B.State → Desk B.State
  unfolding mark_online
  ensure_connected platform pid connection d =
      known_or_marked platform pid connection (get d.server.connected pid) d

  -- The user is behind a pointer: what is set is what everybody reads.
  unfoldable pub set_presence_v2 : ℕ → ℕ → PresenceV2 → Desk B.State → Desk B.State
  set_presence_v2 pid connection presence d = record d {
    server = record d.server {
      connected =
          put d.server.connected pid
            (record (user_or_new pid wup connection (get d.server.connected pid)) {
              presence_v2 = presence;
            });
    };
  }

  -- An error of UpdateNetworkAccountInfo is dropped.
  abbrev pub report : ℕ → NnaInfo → ℕ → Desk B.State → Desk B.State
  report pid nna birthday d = record d {
    server = (update_network_account_info B pid nna birthday d.server).1;
  }

  unfoldable pub read_all : ℕ → Handler B.State AllInformation
  read_all pid = do
    preference ← db principal_error (get_user_principal_preference B pid)
    comment ← db principal_error (get_user_comment B pid)
    friends ← db or_unknown (recover (get_user_friend_list B pid) is_empty_list [])
    requests_out ← db or_unknown (recover (get_user_friend_requests_out B pid) is_empty_list [])
    requests_in ← db or_unknown (recover (get_user_friend_requests_in B pid) is_empty_list [])
    blocks ← db or_unknown (get_user_block_list pid)
    pure (record {
      preference = preference;
      comment = comment;
      friends = friends;
      requests_out = requests_out;
      requests_in = requests_in;
      blocks = blocks;
    })

  -- The end of the call: the friends elsewhere, and the presence told to the friends.
  unfoldable pub present :
      Rendering
      → Bool
      → ℕ
      → PresenceV2
      → AllInformation
      → Desk B.State
      → AllInformation × Desk B.State
  present R extra pid presence all d =
      let (lines, s) = foreign_friends B R "wiiu" pid d.server in
      (
        record all { friends = with_bella R extra (overlay R (stamped B s) lines all.friends) },
        send_presence_update B (forced_online pid presence) (record d { server = s }),
      )

  abbrev pub presented :
      Rendering
      → Bool
      → ℕ
      → PresenceV2
      → Result NexError AllInformation × Desk B.State
      → Result NexError AllInformation × Desk B.State
  presented R extra pid presence (err e, d) = (err e, d)
  presented R extra pid presence (ok all, d) =
      let (shown, e) = present R extra pid presence all d in (ok shown, e)

  -- What is stored of the caller before anything is read.
  unfoldable pub store_caller : ℕ → ℕ → NnaInfo → PresenceV2 → ℕ → Desk B.State → Desk B.State
  unfolding ensure_connected set_presence_v2
  store_caller pid connection nna presence birthday d =
      report pid nna birthday
        (set_presence_v2 pid connection presence (ensure_connected wup pid connection d))

  unfoldable pub update_and_get_all_information :
      Rendering → Bool → ℕ → ℕ → Bool → NnaInfo → PresenceV2 → ℕ → Handler B.State AllInformation
  unfolding store_caller
  update_and_get_all_information R extra pid connection malformed nna presence birthday =
      decoded malformed invalid_argument λ d.
        presented R extra pid presence
          (read_all pid (store_caller pid connection nna presence birthday d))

  -- Without MarkAccountOnline.
  unfoldable pub update_presence : ℕ → ℕ → Bool → PresenceV2 → Handler B.State (Unit {0})
  unfolding set_presence_v2
  update_presence pid connection malformed presence = decoded malformed invalid_argument λ d. (
    ok tt,
    send_presence_update B (forced_online pid presence)
        (set_presence_v2 pid connection (forced_online pid presence) d),
  )
