-- ===== src/Wiiu/BlockList.antt =====
-- database/wiiu/get_user_block_list.go: whom a user blocks, as the rows of wiiu.blocks say.
use nn_friends.Prelude.{ℕ, Option, none, some, List, [], ◌∷◌, Exec, keep, nat_beq, nat_eq}
use nn_friends.Prelude.Dict.{get}
use nn_friends.Errors.{Error}
use nn_friends.Database.Tables.{Tables, Block, PrincipalRow, MiiRow}
use nn_friends.Database.Server.{Server, statement}
use nn_friends.Wiiu.Profiles.{PrincipalInfo}

-- BlacklistedPrincipal, with the title of its game key.
pub record Blacklisted : Type 0 where
  pub principal : PrincipalInfo
  pub title_id : ℕ
  pub title_version : ℕ
  pub since : ℕ

-- The two INNER JOINs.
abbrev pub join_block : Block → Option PrincipalRow → Option MiiRow → Option Blacklisted
join_block b (some row) (some mii) = some (record {
  principal = record { pid = b.blocked_pid; nnid = row.username; unknown = row.unknown; mii = mii };
  title_id = b.title_id;
  title_version = b.title_version;
  since = b.date;
})
join_block b _ _ = none

abbrev pub joined_blocks : Tables → List Block → List Blacklisted
joined_blocks t [] = []
joined_blocks t (b ∷ bs) =
    elim (join_block b (get t.principals b.blocked_pid) (get t.miis b.blocked_pid)) [
      | none ↦ joined_blocks t bs
      | some l ↦ l ∷ joined_blocks t bs
    ]

abbrev pub select_blocks : ℕ → Tables → List Blacklisted
select_blocks pid t = joined_blocks t (keep (λ b. nat_beq b.blocker_pid pid) t.blocks)

module _ {G : Type 0} where
  unfoldable pub get_user_block_list : ℕ → Exec (Server G) Error (List Blacklisted)
  get_user_block_list pid = statement (λ t. (select_blocks pid t, t))
