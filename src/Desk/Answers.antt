-- ===== src/Desk/Answers.antt =====
-- nex/friends-wiiu: the calls that only ask the database, update_comment.go, update_preference.go,
-- get_basic_info.go, get_request_block_settings.go, check_setting_status.go and
-- delete_persistent_notification.go.
use nn_friends.Prelude.{
  ℕ, List, [], ◌∷◌, Bool, Exec, ok, pure, ◌>>=◌, if◌then◌else◌, nat_beq, nat_eq,
}
use nn_friends.Errors.{Error}
use nn_friends.Database.Backend.{Backend}
use nn_friends.Database.Server.{Server}
use nn_friends.Wiiu.Profiles.{PrincipalInfo, Comment, Preference, get_user_principal_basic_info}
use nn_friends.Wiiu.Requests.{is_friend_request_blocked}
use nn_friends.Wiiu.Updates.{update_user_comment, update_user_principal_preference}
use nn_friends.Desk.{Handler, NexError, invalid_argument, unknown, core_unknown, db, decoded}
use nn_friends.Desk.Wiiu.{or_unknown}

module _ (B : Backend) where
  unfoldable pub update_comment : ℕ → Bool → Comment → Handler B.State ℕ
  update_comment caller malformed comment =
      decoded malformed invalid_argument
        (db or_unknown (update_user_comment B caller comment.contents))

  unfoldable pub update_preference : ℕ → Bool → Preference → Handler B.State (Unit {0})
  update_preference caller malformed preference =
      decoded malformed invalid_argument
        (db or_unknown (update_user_principal_preference B caller preference))

  basic_infos : List ℕ → Exec (Server B.State) Error (List PrincipalInfo)
  basic_infos [] s = (ok [], s)
  basic_infos (pid ∷ pids) s =
      (get_user_principal_basic_info B pid >>= λ info.
      basic_infos pids >>= λ infos. pure (if nat_beq info.pid 0 then infos else info ∷ infos))
        s

  unfoldable pub get_basic_info : Bool → List ℕ → Handler B.State (List PrincipalInfo)
  unfolding basic_infos
  get_basic_info malformed pids =
      decoded malformed invalid_argument (db or_unknown (basic_infos pids))

  blocked_each : ℕ → List ℕ → Exec (Server B.State) Error (List (ℕ × Bool))
  blocked_each caller [] s = (ok [], s)
  blocked_each caller (pid ∷ pids) s =
      (is_friend_request_blocked B caller pid >>= λ blocked.
      blocked_each caller pids >>= λ rest. pure ((pid, blocked) ∷ rest))
        s

  abbrev core_error : Error → NexError
  core_error e = core_unknown

  unfoldable pub get_request_block_settings : ℕ → Bool → List ℕ → Handler B.State (List (ℕ × Bool))
  unfolding blocked_each
  get_request_block_settings caller malformed pids =
      decoded malformed invalid_argument (db core_error (blocked_each caller pids))

  unfoldable pub check_setting_status : Bool → Handler B.State ℕ
  check_setting_status malformed = decoded malformed unknown (pure 0xFF)

  unfoldable pub delete_persistent_notification : Bool → Handler B.State (Unit {0})
  delete_persistent_notification malformed = decoded malformed invalid_argument (pure tt)
