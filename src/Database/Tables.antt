-- ===== src/Database/Tables.antt =====
-- database/init_postgres_wiiu.go and database/init_postgres_3ds.go: the tables, with the rows as
-- records. A table with the primary key `pid` is a map from it.
use nn_friends.Prelude.{ℕ, String, List, Bool, true, false, []}
use nn_friends.Prelude.Dict.{Dict}

-- wiiu.user_data
pub record UserData : Type 0 where
  pub show_online : Bool
  pub show_current_game : Bool
  pub block_friend_requests : Bool
  pub comment : String
  pub comment_changed : ℕ
  pub last_online : ℕ

-- wiiu.network_account_info
pub record AccountInfo : Type 0 where
  pub unknown1 : ℕ
  pub unknown2 : ℕ
  pub birthday : ℕ

-- wiiu.principal_basic_info
pub record PrincipalRow : Type 0 where
  pub username : String
  pub unknown : ℕ

-- wiiu.mii
pub record MiiRow : Type 0 where
  pub name : String
  pub unknown1 : ℕ
  pub unknown2 : ℕ
  pub mii_bytes : List ℕ
  pub unknown_datetime : ℕ

-- wiiu.friendships
pub record Friendship : Type 0 where
  pub user1_pid : ℕ
  pub user2_pid : ℕ
  pub date : ℕ
  pub active : Bool

-- wiiu.blocks
pub record Block : Type 0 where
  pub blocker_pid : ℕ
  pub blocked_pid : ℕ
  pub title_id : ℕ
  pub title_version : ℕ
  pub date : ℕ

-- wiiu.friend_requests
pub record FriendRequest : Type 0 where
  pub id : ℕ
  pub sender_pid : ℕ
  pub recipient_pid : ℕ
  pub sent_on : ℕ
  pub expires_on : ℕ
  pub message : String
  pub received : Bool
  pub accepted : Bool
  pub denied : Bool

-- "3ds".user_data
pub record UserData3ds : Type 0 where
  pub show_online : Bool
  pub show_current_game : Bool
  pub comment : String
  pub comment_changed : ℕ
  pub last_online : ℕ
  pub favorite_title : ℕ
  pub favorite_title_version : ℕ
  pub mii_name : String
  pub mii_profanity : Bool
  pub mii_character_set : ℕ
  pub mii_bytes : List ℕ
  pub mii_changed : ℕ
  pub region : ℕ
  pub area : ℕ
  pub language : ℕ
  pub country : ℕ

-- "3ds".friendships
pub record Friendship3ds : Type 0 where
  pub user1_pid : ℕ
  pub user2_pid : ℕ
  pub type : ℕ
  pub date : ℕ

pub record Tables : Type 0 where
  pub user_data : Dict ℕ UserData
  pub account_info : Dict ℕ AccountInfo
  pub principals : Dict ℕ PrincipalRow
  pub miis : Dict ℕ MiiRow
  pub friendships : List Friendship
  pub blocks : List Block
  pub requests : List FriendRequest
  -- the sequence behind `id bigserial`
  pub next_id : ℕ
  pub user_data_3ds : Dict ℕ UserData3ds
  pub friendships_3ds : List Friendship3ds

-- The column defaults.
abbrev pub default_user_data : UserData
default_user_data = record {
  show_online = true;
  show_current_game = true;
  block_friend_requests = false;
  comment = "";
  comment_changed = 0;
  last_online = 0;
}

abbrev pub default_user_data_3ds : UserData3ds
default_user_data_3ds = record {
  show_online = true;
  show_current_game = true;
  comment = "";
  comment_changed = 0;
  last_online = 0;
  favorite_title = 0;
  favorite_title_version = 0;
  mii_name = "";
  mii_profanity = false;
  mii_character_set = 0;
  mii_bytes = [];
  mii_changed = 0;
  region = 0;
  area = 0;
  language = 0;
  country = 0;
}

abbrev pub no_tables : Tables
no_tables = record {
  user_data = [];
  account_info = [];
  principals = [];
  miis = [];
  friendships = [];
  blocks = [];
  requests = [];
  next_id = 1;
  user_data_3ds = [];
  friendships_3ds = [];
}
