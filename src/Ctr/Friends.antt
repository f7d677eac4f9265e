-- ===== src/Ctr/Friends.antt =====
-- database/3ds/get_user_friends.go, save_friendship.go, remove_friendship.go and the first loop of
-- nex/friends-3ds/sync_friend.go. The local friend code (LFC) is 0 throughout and is left out.
pub mod Laws
use nn_friends.Prelude.{
  ℕ, String, Option, none, some, List, [], ◌∷◌, ◌++◌, map, Bool, true, false, not, Exec, Result, ok,
  err, pure, fail, ◌>>=◌, ◌>>◌, recover, if◌then◌else◌, contains, nat_eq,
}
use nn_friends.Prelude.Dict.{has, get}
use nn_friends.Errors.{Error, empty_list, is_unresolved, is_friendship_missing}
use nn_friends.Coregraph.Social.{RequestState}
use nn_friends.Types.{ConnectedUsers}
use nn_friends.Database.Backend.{Backend}
use nn_friends.Database.Server.{Server, remote, gets}

pub data RelationshipType : Type 0 where
  incomplete complete invalid : RelationshipType

-- FriendRelationship
pub record FriendRelationship : Type 0 where
  pub pid : ℕ
  pub kind : RelationshipType

abbrev pub relate : RelationshipType → List ℕ → List FriendRelationship
relate k = map (λ p. record { pid = p; kind = k })

abbrev pub kind_of : RequestState → RelationshipType
kind_of RequestState.complete = complete
kind_of RequestState.incomplete = incomplete

abbrev pub pids_of : List FriendRelationship → List ℕ
pids_of [] = []
pids_of (r ∷ rs) = r.pid ∷ pids_of rs

-- `len(friendRelationships) == 0`
abbrev pub nonempty :
    {S : Type 0} → List FriendRelationship → Exec S Error (List FriendRelationship)
nonempty [] = fail empty_list
nonempty (r ∷ rs) = pure (r ∷ rs)

module _ (B : Backend) where
  unfoldable pub get_user_friends : ℕ → Exec (Server B.State) Error (List FriendRelationship)
  get_user_friends pid = do
    friends ← recover (remote (B.friend_pids "3ds" pid)) is_unresolved []
    outgoing ← recover (remote (B.outgoing_addressee_pids "3ds" pid)) is_unresolved []
    nonempty (relate complete friends ++ relate incomplete outgoing)

  -- A recipient that does not resolve is answered with an invalid relationship.
  unfoldable pub save_friendship : ℕ → ℕ → Exec (Server B.State) Error FriendRelationship
  save_friendship sender recipient =
      recover (remote (B.request "3ds" sender recipient) >>= λ state. pure (kind_of state))
        is_unresolved invalid
      >>= λ k. pure (record { pid = recipient; kind = k })

  unfoldable pub remove_friendship : ℕ → ℕ → Exec (Server B.State) Error (Unit {0})
  remove_friendship user1 user2 = remote (B.remove "3ds" user1 user2)

  -- The first loop of SyncFriend: the friends that the console does not list.
  unfoldable pub remove_missing :
      ℕ → List ℕ → List FriendRelationship → Exec (Server B.State) Error (Unit {0})
  unfolding remove_friendship
  remove_missing me pids [] = pure tt
  remove_missing me pids (r ∷ rs) =
      let rest = remove_missing me pids rs in
      if contains r.pid pids
      then rest
      else recover (remove_friendship me r.pid) is_friendship_missing tt >> rest
