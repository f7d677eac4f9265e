-- ===== src/Ctr/Settings.antt =====
-- database/3ds: the settings that a console stores.
pub mod Laws
use nn_friends.Prelude.{
  ℕ, String, Option, none, some, List, [], Bool, true, false, Exec, Result, ok, err, pure, fail,
  ◌>>=◌, ◌>>◌, if◌then◌else◌, nat_eq,
}
use nn_friends.Prelude.Dict.{get, put}
use nn_friends.Errors.{Error}
use nn_friends.Database.Tables.{Tables, UserData3ds, default_user_data_3ds}
use nn_friends.Database.Backend.{Backend}
use nn_friends.Database.Server.{Server, statement, gets}

-- INSERT … ON CONFLICT (pid) DO UPDATE of some columns; a new row has the defaults elsewhere.
abbrev pub row_or_default : Option UserData3ds → UserData3ds
row_or_default none = default_user_data_3ds
row_or_default (some r) = r

abbrev pub upsert_user : ℕ → (UserData3ds → UserData3ds) → Tables → Unit {0} × Tables
upsert_user pid f t = (
  tt,
  record t {
    user_data_3ds = put t.user_data_3ds pid (f (row_or_default (get t.user_data_3ds pid)));
  },
)

-- `showOnline` stays false where no row is found.
abbrev pub shows_online : Option UserData3ds → Bool
shows_online none = false
shows_online (some r) = r.show_online

module _ (B : Backend) where
  unfoldable pub update_user_comment : ℕ → String → Exec (Server B.State) Error (Unit {0})
  update_user_comment pid message s =
      let changed = B.stamp (B.now s.backend) in
      statement (upsert_user pid (λ r. record r { comment = message; comment_changed = changed })) s

  unfoldable pub update_user_preferences : ℕ → Bool → Bool → Exec (Server B.State) Error (Unit {0})
  update_user_preferences pid online game =
      statement (upsert_user pid (λ r. record r { show_online = online; show_current_game = game }))

  unfoldable pub update_user_favorite_game : ℕ → ℕ → ℕ → Exec (Server B.State) Error (Unit {0})
  update_user_favorite_game pid title version =
      statement (
        upsert_user pid
          (λ r. record r { favorite_title = title; favorite_title_version = version }))

  -- The four fields are stored as bytes.
  unfoldable pub update_user_profile : ℕ → ℕ → ℕ → ℕ → ℕ → Exec (Server B.State) Error (Unit {0})
  update_user_profile pid region area language country = statement (
      upsert_user pid
        (λ r. record r { region = region; area = area; language = language; country = country }))

  -- The UPDATE of UpdateUserLastOnlineTime, after the SELECT.
  unfoldable pub write_last_online : ℕ → ℕ → Bool → Exec (Server B.State) Error (Unit {0})
  write_last_online pid time show =
      if show then statement (upsert_user pid (λ r. record r { last_online = time })) else pure tt

  unfoldable pub update_user_last_online_time : ℕ → ℕ → Exec (Server B.State) Error (Unit {0})
  unfolding write_last_online
  update_user_last_online_time pid time =
      statement (λ t. (shows_online (get t.user_data_3ds pid), t)) >>= write_last_online pid time
