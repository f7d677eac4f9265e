-- ===== src/Wiiu/Updates.antt =====
-- database/wiiu: what a console reports of its user (update_user_comment.go, update_user_mii.go,
-- update_user_network_account_info.go, update_user_principal_basic_info.go,
-- update_user_principal_preference.go, update_user_last_online_time.go).
pub mod Reading
use nn_friends.Prelude.{ℕ, String, Option, none, some, Exec, ok, pure, ◌>>=◌, ◌>>◌, nat_eq}
use nn_friends.Errors.{Error}
use nn_friends.Database.Tables.{
  Tables, UserData, AccountInfo, PrincipalRow, MiiRow, default_user_data,
}
use nn_friends.Database.Backend.{Backend}
use nn_friends.Database.Server.{Server, statement, gets}
use nn_friends.Wiiu.Profiles.{PrincipalInfo, NnaInfo, Preference, upsert, or_default}
use nn_friends.Wiiu.Accepting.{stamped}

-- INSERT INTO wiiu.user_data … ON CONFLICT (pid) DO UPDATE: a new row has the column defaults.
abbrev pub set_user_data : ℕ → (UserData → UserData) → Tables → Unit {0} × Tables
set_user_data pid f t = (
  tt,
  record t { user_data = upsert pid (λ old. f (or_default default_user_data old)) t.user_data },
)

abbrev pub set_mii : ℕ → MiiRow → Tables → Unit {0} × Tables
set_mii pid mii t = (tt, record t { miis = upsert pid (λ old. mii) t.miis })

abbrev pub set_principal : ℕ → PrincipalRow → Tables → Unit {0} × Tables
set_principal pid row t = (tt, record t { principals = upsert pid (λ old. row) t.principals })

abbrev pub set_account_info : ℕ → AccountInfo → Tables → Unit {0} × Tables
set_account_info pid row t =
    (tt, record t { account_info = upsert pid (λ old. row) t.account_info })

module _ (B : Backend) where
  unfoldable pub update_user_comment : ℕ → String → Exec (Server B.State) Error ℕ
  update_user_comment pid message = do
    changed ← gets (stamped B)
    statement (set_user_data pid (λ u. record u { comment = message; comment_changed = changed }))
    pure changed

  unfoldable pub update_user_principal_preference :
      ℕ → Preference → Exec (Server B.State) Error (Unit {0})
  update_user_principal_preference pid preference = statement (
      set_user_data pid (λ u. record u {
        show_online = preference.show_online_presence;
        show_current_game = preference.show_current_title;
        block_friend_requests = preference.block_friend_requests;
      }))

  unfoldable pub update_user_last_online_time : ℕ → ℕ → Exec (Server B.State) Error (Unit {0})
  update_user_last_online_time pid last_online =
      statement (set_user_data pid (λ u. record u { last_online = last_online }))

  unfoldable pub update_user_mii : ℕ → MiiRow → Exec (Server B.State) Error (Unit {0})
  update_user_mii pid mii = statement (set_mii pid mii)

  unfoldable pub update_user_principal_basic_info :
      ℕ → PrincipalInfo → Exec (Server B.State) Error (Unit {0})
  unfolding update_user_mii
  update_user_principal_basic_info pid info = do
    statement (set_principal pid (record { username = info.nnid; unknown = info.unknown }))
    update_user_mii pid info.mii

  unfoldable pub update_network_account_info :
      ℕ → NnaInfo → ℕ → Exec (Server B.State) Error (Unit {0})
  unfolding update_user_principal_basic_info
  update_network_account_info pid nna birthday = do
    statement (
        set_account_info pid
          (record { unknown1 = nna.unknown1; unknown2 = nna.unknown2; birthday = birthday }))
    update_user_principal_basic_info pid nna.principal
