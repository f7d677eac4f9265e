-- ===== src/Desk/Ctr.antt =====
-- nex/friends-3ds: the handlers, with what they tell; SyncFriend is in the child Sync. `caller` is the PID of the connection.
pub mod Hidden
pub mod Sync
pub mod Synced
use nn_friends.Prelude.{
  ℕ, String, Option, none, some, List, [], ◌∷◌, ◌++◌, Bool, true, false, Exec, Result, ok, err,
  pure, fail, ◌>>=◌, ◌>>◌, recover, if◌then◌else◌, nat_eq,
}
use nn_friends.Prelude.Dict.{Dict, get, put}
use nn_friends.Errors.{Error, is_no_rows, is_friendship_missing}
use nn_friends.Types.{ConnectedUser, Platform, ctr, Presence, new_presence}
use nn_friends.Database.Backend.{Backend}
use nn_friends.Database.Server.{Server}
use nn_friends.Ctr.Friends.{
  FriendRelationship, get_user_friends, save_friendship, remove_friendship,
}
use nn_friends.Ctr.Settings.{
  update_user_comment, update_user_preferences, update_user_favorite_game, update_user_profile,
}
use nn_friends.Ctr.Profiles.{
  Mii, FriendMii, PersistentInfo, get_friend_miis, get_friend_persistent_infos, update_user_mii,
}
use nn_friends.Presence.Foreign.{Rendering, all_flags_3ds, three_ds_presence, foreign_friends}
use nn_friends.Desk.{
  Desk, Handler, NexError, invalid_argument, unknown, not_friend, core_not_implemented, Notice,
  News, friendship_completed, friend_offline, presence_3ds, comment_changed, favorite_changed,
  mii_changed, db, decoded, notify,
}
use nn_friends.Desk.Wiiu.{or_unknown}
use nn_friends.Desk.Broadcast.{broadcast, send_ctr}
use nn_friends.Desk.Own.{user_or_new, ensure_connected}

-- FriendPresence
pub record FriendPresence : Type 0 where
  pub pid : ℕ
  pub presence : Presence

-- An entirely empty status, with every flag set to update.
abbrev pub hidden_presence : Presence
hidden_presence = record new_presence { changed_flags = all_flags_3ds }

abbrev pub not_friend_error : Error → NexError
not_friend_error e = if is_friendship_missing e then not_friend else unknown

-- The presence of one PID: of its connection here, or else of where it is live.
abbrev pub presence_at : Option ConnectedUser → Option String → Option Presence
presence_at (some user) line = some user.presence
presence_at none (some line) = some (three_ds_presence line)
presence_at none none = none

abbrev pub presences : (ℕ → Option Presence) → List ℕ → List FriendPresence
presences f [] = []
presences f (pid ∷ pids) = elim (f pid) [
  | none ↦ presences f pids
  | some p ↦ record { pid = pid; presence = p } ∷ presences f pids
]

-- `make([]uint32, len(pidList))`, to which the PIDs are appended.
abbrev pub zeros_for : List ℕ → List ℕ
zeros_for [] = []
zeros_for (p ∷ ps) = 0 ∷ zeros_for ps

module _ (B : Backend) where
  abbrev tell_ctr : ℕ → News → Handler B.State (Unit {0})
  tell_ctr caller news d = (ok tt, send_ctr B caller news d)

  unfoldable pub add_friend_by_pid : ℕ → Bool → ℕ → Handler B.State FriendRelationship
  add_friend_by_pid caller malformed pid = decoded malformed invalid_argument (do
    relationship ← db or_unknown (save_friendship B caller pid)
    notify pid (friendship_completed caller)
    pure relationship)

  unfoldable pub get_all_friends : ℕ → Bool → Handler B.State (List FriendRelationship)
  get_all_friends caller malformed =
      decoded malformed unknown (db or_unknown (recover (get_user_friends B caller) is_no_rows []))

  unfoldable pub get_friend_mii : Bool → List ℕ → Handler B.State (List FriendMii)
  get_friend_mii malformed pids =
      decoded malformed invalid_argument
        (db or_unknown (recover (get_friend_miis B pids) is_no_rows []))

  unfoldable pub get_friend_persistent_info : Bool → List ℕ → Handler B.State (List PersistentInfo)
  get_friend_persistent_info malformed pids = decoded malformed unknown (
      db or_unknown
        (recover (get_friend_persistent_infos B (zeros_for pids ++ pids)) is_no_rows []))

  unfoldable pub get_friend_presence :
      Rendering → ℕ → Bool → List ℕ → Handler B.State (List FriendPresence)
  get_friend_presence R caller malformed pids = decoded malformed unknown λ d.
      let (lines, s) = foreign_friends B R "3ds" caller d.server in
      (
        ok (presences (λ pid. presence_at (get s.connected pid) (get lines pid)) pids),
        record d { server = s },
      )

  unfoldable pub remove_friend_by_pid : ℕ → Bool → ℕ → Handler B.State (Unit {0})
  remove_friend_by_pid caller malformed pid =
      decoded malformed invalid_argument (do
        db not_friend_error (remove_friendship B caller pid)
        notify pid (friend_offline caller))

  unfoldable pub update_comment : ℕ → Bool → String → Handler B.State (Unit {0})
  update_comment caller malformed comment = decoded malformed invalid_argument (do
    db or_unknown (update_user_comment B caller comment)
    tell_ctr caller (comment_changed caller comment))

  unfoldable pub update_favorite_game_key : ℕ → Bool → ℕ → ℕ → Handler B.State (Unit {0})
  update_favorite_game_key caller malformed title version = decoded malformed invalid_argument (do
    db or_unknown (update_user_favorite_game B caller title version)
    tell_ctr caller (favorite_changed caller title version))

  unfoldable pub update_mii : ℕ → Bool → Mii → Handler B.State (Unit {0})
  update_mii caller malformed mii =
      decoded malformed invalid_argument
        (do db or_unknown (update_user_mii B caller mii); tell_ctr caller (mii_changed caller))

  abbrev pub hide_game : ℕ → Bool → Handler B.State (Unit {0})
  hide_game caller show =
      if show then pure tt else tell_ctr caller (presence_3ds caller hidden_presence)

  abbrev pub hide_online : ℕ → Bool → Handler B.State (Unit {0})
  hide_online caller public_mode =
      if public_mode then pure tt else tell_ctr caller (friend_offline caller)

  -- ShowPlayedGame is not stored.
  unfoldable pub update_preference : ℕ → Bool → Bool → Bool → Bool → Handler B.State (Unit {0})
  update_preference caller malformed public_mode show_game show_played =
      decoded malformed invalid_argument (do
        db or_unknown (update_user_preferences B caller public_mode show_game)
        hide_game caller show_game
        hide_online caller public_mode)

  -- The user is behind a pointer: what is set is what everybody reads.
  unfoldable pub set_presence : ℕ → ℕ → Presence → Desk B.State → Desk B.State
  set_presence pid connection presence d = record d {
    server = record d.server {
      connected =
          put d.server.connected pid
            (record (user_or_new pid ctr connection (get d.server.connected pid)) {
              presence = presence;
            });
    };
  }

  abbrev pub shown_presence : Presence → Bool → Presence
  shown_presence presence show = if show then presence else hidden_presence

  unfoldable pub update_presence : ℕ → ℕ → Bool → Presence → Bool → Handler B.State (Unit {0})
  unfolding set_presence
  update_presence caller connection malformed presence show =
      decoded malformed invalid_argument λ d. (
        ok tt,
        set_presence caller connection (shown_presence presence show) (
            ensure_connected B ctr caller connection
              (send_ctr B caller (presence_3ds caller (shown_presence presence show)) d)),
      )

  unfoldable pub update_profile : ℕ → Bool → ℕ → ℕ → ℕ → ℕ → Handler B.State (Unit {0})
  update_profile caller malformed region area language country =
      decoded malformed invalid_argument
        (db or_unknown (update_user_profile B caller region area language country))

  -- GetPrincipalIDByLocalFriendCode and RemoveFriendByLocalFriendCode
  unfoldable pub by_local_friend_code : Bool → Handler B.State (Unit {0})
  by_local_friend_code malformed = fail core_not_implemented
