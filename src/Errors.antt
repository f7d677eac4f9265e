-- ===== src/Errors.antt =====
-- The errors that the program compares: database/database.go, the sentinels of
-- coregraph/coregraph.go and database/*/ensure_profiles.go, and gRPC status codes.
use Prim.Native.Nat.{ℕ}
use mathlib.Core.Bool.{Bool, true, false}

-- The gRPC status codes that the program tells apart; `other` is any other failure of a call.
pub data Code : Type 0 where
  failed_precondition invalid_argument unimplemented other : Code

pub data Error : Type 0 where
  not_configured resolution_not_found : Error
  pid_not_found friend_request_not_found friendship_not_found blacklist_not_found : Error
  empty_list profile_deleted : Error
  -- sql.ErrNoRows
  no_rows : Error
  rpc : Code → Error
  driver : ℕ → Error

-- `err == coregraph.ErrResolutionNotFound`
abbrev pub is_unresolved : Error → Bool
is_unresolved Error.resolution_not_found = true
is_unresolved _ = false

-- `err == database.ErrFriendRequestNotFound`
abbrev pub is_request_missing : Error → Bool
is_request_missing Error.friend_request_not_found = true
is_request_missing _ = false

-- `err == database.ErrFriendshipNotFound`
abbrev pub is_friendship_missing : Error → Bool
is_friendship_missing Error.friendship_not_found = true
is_friendship_missing _ = false

-- `err == database.ErrPIDNotFound`
abbrev pub is_pid_missing : Error → Bool
is_pid_missing Error.pid_not_found = true
is_pid_missing _ = false

-- `err == database.ErrEmptyList`
abbrev pub is_empty_list : Error → Bool
is_empty_list Error.empty_list = true
is_empty_list _ = false

-- `err == sql.ErrNoRows`
abbrev pub is_no_rows : Error → Bool
is_no_rows Error.no_rows = true
is_no_rows _ = false
