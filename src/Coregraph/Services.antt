-- ===== src/Coregraph/Services.antt =====
-- What coregraph/coregraph.go calls: the account core's Social and Links services and nn-account's
-- Resolution service. They are not part of the repository, so they are a parameter: a state of the
-- world outside, the clock that `time.Now` reads there, and one function for each call.
use nn_friends.Prelude.{ℕ, String, Option, List, Bool, Exec}
use nn_friends.Errors.{Code}

-- `accountv1.FriendState`: the code asks only whether it is ACCEPTED.
pub data FriendState : Type 0 where
  accepted pending : FriendState

pub data Relationship : Type 0 where
  none_known friends pending_incoming pending_outgoing blocked_by_self blocked_by_other :
      Relationship

-- `accountv1.AccountLink`, as far as it is read.
pub record Link : Type 0 where
  pub namespace : String
  pub subject_id : String

-- The reply of nn-account's GetUserData, as far as it is read; `mii_bytes` is what base64 decoding
-- makes of its Mii data.
pub record Profile : Type 0 where
  pub deleted : Bool
  pub username : String
  pub mii_name : String
  pub mii_bytes : List ℕ

-- A live session that the core knows, as GetPresence answers it.
pub record LivePresence : Type 0 where
  pub account_id : String
  pub namespace : String
  pub title_id : String
  pub client : String

pub record Services : Type 1 where
  pub World : Type 0
  -- seconds
  pub now : World → ℕ
  -- `none` is a response with `found` unset.
  pub resolve_pid : String → ℕ → Exec World Code (Option String)
  pub resolve_account : String → String → Exec World Code (Option ℕ)
  pub list_friends : String → Exec World Code (List String)
  -- requester, addressee and the three parts of the idempotency key
  pub request_friend : String → String → String × ℕ × ℕ → Exec World Code FriendState
  pub get_relationship : String → String → Exec World Code Relationship
  -- addressee, requester
  pub accept_friend : String → String → Exec World Code (Unit {0})
  pub remove_friend : String → String → Exec World Code (Unit {0})
  pub block : String → String → Exec World Code (Unit {0})
  pub unblock : String → String → Exec World Code (Unit {0})
  pub list_incoming : String → Exec World Code (List String)
  pub list_outgoing : String → Exec World Code (List String)
  pub list_account_links : String → Exec World Code (List Link)
  -- nn-account's GetUserData
  pub get_user_data : ℕ → Exec World Code Profile
  -- the core's GetPresence and PutMii
  pub get_presence : List String → Exec World Code (List LivePresence)
  pub put_mii : String → List ℕ → Exec World Code (Unit {0})
