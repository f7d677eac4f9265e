-- ===== src/Desk/Ctr/Sync.antt =====
-- nex/friends-3ds/sync_friend.go: the handler, with the second loop, which alerts those who are added.
use nn_friends.Prelude.{
  ℕ, List, [], ◌∷◌, ◌++◌, Bool, pure, ◌>>=◌, ◌>>◌, if◌then◌else◌, contains, nat_eq,
}
use nn_friends.Database.Backend.{Backend}
use nn_friends.Ctr.Friends.{
  FriendRelationship, pids_of, get_user_friends, save_friendship, remove_missing,
}
use nn_friends.Desk.{Handler, invalid_argument, friendship_completed, db, decoded, notify}
use nn_friends.Desk.Wiiu.{or_unknown}

module _ (B : Backend) where
  -- The PIDs that are not friends yet are asked; those of them that are connected are alerted.
  unfoldable pub add_missing :
      ℕ → List ℕ → List FriendRelationship → Handler B.State (List FriendRelationship)
  add_missing me [] rs = pure rs
  add_missing me (p ∷ ps) rs =
      let known = add_missing me ps rs in
      if contains p (pids_of rs)
      then known
      else db or_unknown (save_friendship B me p) >>= λ r.
          λ d. (notify p (friendship_completed me) >>= λ _. add_missing me ps (rs ++ r ∷ [])) d

  -- SyncFriend. The source tolerates sql.ErrNoRows of GetUserFriends, which that function never
  -- returns.
  unfoldable pub sync_friend : ℕ → Bool → List ℕ → Handler B.State (List FriendRelationship)
  unfolding add_missing
  sync_friend me malformed pids = decoded malformed invalid_argument (do
    friends ← db or_unknown (get_user_friends B me)
    db or_unknown (remove_missing B me pids friends)
    add_missing me pids friends)
