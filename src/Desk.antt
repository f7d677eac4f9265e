-- ===== src/Desk.antt =====
-- What a handler of nex/friends-wiiu and nex/friends-3ds works on: the server, the accounts that are
-- online (globals/connected_accounts.go), and the notifications that it has sent. A notification is
-- sent by a goroutine in places; here it is sent at once.
pub mod Sending
pub mod Wiiu
pub mod Broadcast
pub mod Keeping
pub mod Own
pub mod Answers
pub mod Ctr
pub mod Ticking
pub mod Connected
pub mod Reach
pub mod Connections
use nn_friends.Prelude.{
  ℕ, String, Option, none, some, List, [], ◌∷◌, ◌++◌, Bool, true, false, Exec, Result, ok, err,
  pure, fail, ◌>>=◌, ◌>>◌, if◌then◌else◌, nat_eq,
}
use nn_friends.Prelude.Dict.{get, put}
use nn_friends.Errors.{Error}
use nn_friends.Types.{ConnectedUser, Presence, PresenceV2}
use nn_friends.Accounts.{Accounts}
use nn_friends.Database.Server.{Server}
use nn_friends.Wiiu.Listing.{Listed}
use nn_friends.Wiiu.Accepting.{FriendInfo}

-- The results that a handler answers instead of a reply, of nex-go's ResultCodes.
pub data NexError : Type 0 where
  core_invalid_argument core_unknown core_not_implemented : NexError
  invalid_argument unknown invalid_principal_id invalid_message_id not_in_my_friend_list
        not_in_my_blacklist not_friend :
      NexError

-- The notifications of notifications/wiiu and notifications/3ds, as far as what they tell: a
-- `friendship_removed` and a `friend_offline` name a PID, and so does who is presented.
pub data News : Type 0 where
  friend_request : Listed → News
  request_accepted : FriendInfo → News
  friendship_removed friendship_completed friend_offline : ℕ → News
  presence_wiiu : PresenceV2 → News
  presence_3ds : ℕ → Presence → News
  comment_changed : ℕ → String → News
  favorite_changed : ℕ → ℕ → ℕ → News
  mii_changed : ℕ → News

-- `to` is the connection.
pub record Notice : Type 0 where
  pub to : Option ℕ
  pub news : News

pub record Desk (G : Type 0) : Type 0 where
  pub server : Server G
  pub accounts : Accounts
  pub sent : List Notice
  -- the PIDs that crosspresence.Disconnected was called with; Presence.Publisher.expire is what it does
  pub ended : List ℕ

abbrev pub Handler : Type 0 → Type 0 → Type 0
Handler G A = Exec (Desk G) NexError A

abbrev pub mapped : {A : Type 0} → (Error → NexError) → Result Error A → Result NexError A
mapped f (ok a) = ok a
mapped f (err e) = err (f e)

module _ {G A : Type 0} where
  -- A call of the database package, with what its errors become.
  unfoldable pub db : (Error → NexError) → Exec (Server G) Error A → Handler G A
  db f m d = let (r, s) = m d.server in (mapped f r, record d { server = s })

  -- `if err != nil` of the arguments that nex-go decoded.
  abbrev pub decoded : Bool → NexError → Handler G A → Handler G A
  decoded malformed e m = if malformed then fail e else m

  abbrev pub look : (Desk G → A) → Handler G A
  look f d = (ok (f d), d)

abbrev pub notice_for : Option ConnectedUser → News → List Notice
notice_for none news = []
notice_for (some user) news = record { to = user.connection; news = news } ∷ []

module _ {G : Type 0} where
  -- `if ok && connectedUser != nil { go … }`
  unfoldable pub notify : ℕ → News → Handler G (Unit {0})
  notify pid news d =
      (ok tt, record d { sent = d.sent ++ notice_for (get d.server.connected pid) news })
