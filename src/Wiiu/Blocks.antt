-- ===== src/Wiiu/Blocks.antt =====
-- database/wiiu: set_user_blocked.go, unset_user_blocked.go, remove_friendship.go. The core keeps
-- who blocks whom; the row here says in which title it was done.
pub mod Laws
pub mod Removing
use nn_friends.Prelude.{
  ℕ, String, List, [], ◌∷◌, ◌++◌, Bool, true, false, ◌&&◌, Exec, pure, fail, ◌>>=◌, ◌>>◌,
  if◌then◌else◌, nat_beq,
}
use nn_friends.Errors.{Error, pid_not_found, friendship_not_found}
use nn_friends.Database.Tables.{Tables, Block, Friendship}
use nn_friends.Database.Backend.{Backend}
use nn_friends.Database.Server.{Server, statement, remote, gets}
use nn_friends.Database.Rows.{alter, delete, count, any}

abbrev pub blocks_pair : ℕ → ℕ → Block → Bool
blocks_pair blocker blocked r = nat_beq r.blocker_pid blocker && nat_beq r.blocked_pid blocked

abbrev pub friends_pair : ℕ → ℕ → Friendship → Bool
friends_pair user1 user2 r = nat_beq r.user1_pid user1 && nat_beq r.user2_pid user2

-- INSERT … ON CONFLICT (blocker_pid, blocked_pid) DO UPDATE SET date = $5
abbrev pub upsert_block : Block → List Block → List Block
upsert_block b rows =
    if any (blocks_pair b.blocker_pid b.blocked_pid) rows
    then alter (blocks_pair b.blocker_pid b.blocked_pid) (λ r. record r { date = b.date }) rows
    else rows ++ b ∷ []

module _ (B : Backend) where
  -- SetUserBlocked after the call of the core.
  unfoldable pub store_block : ℕ → ℕ → ℕ → ℕ → Exec (Server B.State) Error (Unit {0})
  store_block blocker blocked title_id title_version s =
      statement
        (λ t. (
          tt,
          record t {
            blocks =
                upsert_block
                  (record {
                    blocker_pid = blocker;
                    blocked_pid = blocked;
                    title_id = title_id;
                    title_version = title_version;
                    date = B.stamp (B.now s.backend);
                  })
                  t.blocks;
          },
        ))
        s

  unfoldable pub set_user_blocked : ℕ → ℕ → ℕ → ℕ → Exec (Server B.State) Error (Unit {0})
  unfolding store_block
  set_user_blocked blocker blocked title_id title_version =
      remote (B.block "wiiu" blocker blocked) >> store_block blocker blocked title_id title_version

  -- UnsetUserBlocked after the call of the core.
  unfoldable pub delete_block : ℕ → ℕ → Exec (Server B.State) Error (Unit {0})
  delete_block user1 user2 = do
    affected ← statement (λ t. (
      count (blocks_pair user1 user2) t.blocks,
      record t { blocks = delete (blocks_pair user1 user2) t.blocks },
    ))
    if nat_beq affected 0 then fail pid_not_found else pure tt

  unfoldable pub unset_user_blocked : ℕ → ℕ → Exec (Server B.State) Error (Unit {0})
  unfolding delete_block
  unset_user_blocked user1 user2 = remote (B.unblock "wiiu" user1 user2) >> delete_block user1 user2

  -- RemoveFriendship after the DELETE.
  unfoldable pub deactivate : ℕ → ℕ → ℕ → Exec (Server B.State) Error (Unit {0})
  deactivate user1 user2 affected =
      if nat_beq affected 0
      then fail friendship_not_found
      else statement (λ t. (
        tt,
        record t {
          friendships =
              alter (friends_pair user2 user1) (λ r. record r { active = false }) t.friendships;
        },
      ))

  unfoldable pub remove_friendship : ℕ → ℕ → Exec (Server B.State) Error (Unit {0})
  unfolding deactivate
  remove_friendship user1 user2 =
      statement (λ t. (
        count (friends_pair user1 user2) t.friendships,
        record t { friendships = delete (friends_pair user1 user2) t.friendships },
      ))
      >>= deactivate user1 user2
