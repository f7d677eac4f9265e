-- ===== src/Wiiu/Blocks/Laws.antt =====
-- What blocking, unblocking and removing a friend leave in the tables and do at the core.
use nn_friends.Prelude.{
  ℕ, ◌≡◌, refl, ap, ◌∙◌, List, [], ◌∷◌, ◌++◌, Bool, true, not, keep, err, arith, After, After->>=,
  After-if, After-pure, After-fail, nat_beq, nat_beq_iff, if◌then◌else◌, bound, Bool-cases, inl,
  inr,
}
use nn_friends.Errors.{Error}
use nn_friends.Database.Tables.{Tables, Block}
use nn_friends.Database.Backend.{Backend}
use nn_friends.Database.Server.{Server, statement, remote, later}
use nn_friends.Database.Server.Rules.{After-statement, After-remote}
use nn_friends.Database.Rows.{alter, delete, count, any}
use nn_friends.Database.Rows.Laws.{
  keep-not-alter, keep-append, append_nothing, keep-delete, keep-not-delete,
}
use nn_friends.Wiiu.Blocks.{
  blocks_pair, upsert_block, set_user_blocked, store_block, unset_user_blocked, delete_block,
}

abbrev pub except : (Block → Bool) → List Block → List Block
except p = keep (λ r. not (p r))

any-append :
    (p : Block → Bool) (rs : List Block) (b : Block) → p b ≡ true → any p (rs ++ b ∷ []) ≡ true
any-append p [] b h = ground (arith, h)
any-append p (r ∷ rs) b h = ground (arith, any-append p rs b h)

any-alter :
    (p : Block → Bool) (f : Block → Block) (rs : List Block)
    → ((r : Block) → p (f r) ≡ p r)
    → any p rs ≡ true
    → any p (alter p f rs) ≡ true
any-alter p f [] same h = h
any-alter p f (r ∷ rs) same h = ground (arith, any-alter p f rs same, same r)

pair_of : (b : Block) → blocks_pair b.blocker_pid b.blocked_pid b ≡ true
pair_of b =
    ground (arith, nat_beq_iff b.blocker_pid b.blocker_pid, nat_beq_iff b.blocked_pid b.blocked_pid)

upsert_block_lem :
    (b : Block) (rs : List Block)
    → (any (blocks_pair b.blocker_pid b.blocked_pid) (upsert_block b rs) ≡ true)
      × (except (blocks_pair b.blocker_pid b.blocked_pid) (upsert_block b rs)
          ≡ except (blocks_pair b.blocker_pid b.blocked_pid) rs)
upsert_block_lem b rs = elim (Bool-cases (any pair rs)) [
  | inl found ↦
      simp (found) (any-alter pair _ rs (λ r. refl) found, keep-not-alter pair _ (λ r. refl) rs)
  | inr missing ↦ simp (missing) (
    any-append pair rs b (pair_of b),
    keep-append (λ r. not (pair r)) rs (b ∷ [])
        ∙ ap (λ c. except pair rs ++ (if not c then b ∷ [] else [])) (pair_of b)
        ∙ append_nothing _,
  )
]
  where
    pair : Block → Bool
    pair = blocks_pair b.blocker_pid b.blocked_pid

module _ (B : Backend) (blocker blocked : ℕ) (s : Server B.State) where
  -- When SetUserBlocked succeeds, the core has been told of the block, there is a row for the pair,
  -- and the rows of all other pairs are as they were.
  pub set_user_blocked_lem :
      (title_id title_version : ℕ)
      → After
          (λ _ t.
            (any (blocks_pair blocker blocked) t.tables.blocks ≡ true)
            × (except (blocks_pair blocker blocked) t.tables.blocks
                ≡ except (blocks_pair blocker blocked) s.tables.blocks)
            × (t.backend ≡ (B.block "wiiu" blocker blocked s.backend).1))
          (set_user_blocked B blocker blocked title_id title_version)
          s
  unfolding set_user_blocked store_block
  set_user_blocked_lem title_id title_version =
      After->>= (remote (B.block "wiiu" blocker blocked))
        (λ _. store_block B blocker blocked title_id title_version) s
        (After-remote (B.block "wiiu" blocker blocked) s (λ _. record {
          holds = (After-statement {P = Wanted} write (record s { backend = told }) wanted).holds;
        }))
    where
      told : B.State
      told = (B.block "wiiu" blocker blocked s.backend).1

      row : Block
      row = record {
        blocker_pid = blocker;
        blocked_pid = blocked;
        title_id = title_id;
        title_version = title_version;
        date = B.stamp (B.now told);
      }

      write : Tables → Unit {0} × Tables
      write t = (tt, record t { blocks = upsert_block row t.blocks })

      Wanted : Unit {0} → Server B.State → Type 0
      Wanted _ t =
          (any (blocks_pair blocker blocked) t.tables.blocks ≡ true)
          × (except (blocks_pair blocker blocked) t.tables.blocks
              ≡ except (blocks_pair blocker blocked) s.tables.blocks)
          × (t.backend ≡ told)

      wanted :
          Wanted tt
            (record s { backend = told; tables = (write s.tables).1; faults = later s.faults })
      wanted =
          ((upsert_block_lem row s.tables.blocks).0, (upsert_block_lem row s.tables.blocks).1, refl)

  -- When UnsetUserBlocked succeeds, the core has been told, no row for the pair is left, and the
  -- rows of all other pairs are as they were.
  pub unset_user_blocked_lem :
      After
        (λ _ t.
          (keep (blocks_pair blocker blocked) t.tables.blocks ≡ [])
          × (except (blocks_pair blocker blocked) t.tables.blocks
              ≡ except (blocks_pair blocker blocked) s.tables.blocks)
          × (t.backend ≡ (B.unblock "wiiu" blocker blocked s.backend).1))
        (unset_user_blocked B blocker blocked)
        s
  unfolding unset_user_blocked delete_block
  unset_user_blocked_lem = After->>= (remote (B.unblock "wiiu" blocker blocked)) _ s (
      After-remote (B.unblock "wiiu" blocker blocked) s (λ _.
        After->>=
          (statement λ t. (
            count (blocks_pair blocker blocked) t.blocks,
            record t { blocks = delete (blocks_pair blocker blocked) t.blocks },
          ))
          _ _
          (After-statement
            (λ t. (
              count (blocks_pair blocker blocked) t.blocks,
              record t { blocks = delete (blocks_pair blocker blocked) t.blocks },
            ))
            _
            (After-if (nat_beq (count (blocks_pair blocker blocked) s.tables.blocks) 0) _ _ _
              (λ _. After-fail _ _)
              (λ _.
                After-pure tt _
                  (keep-delete _ s.tables.blocks, keep-not-delete _ s.tables.blocks, refl))))))

  -- Where the core refuses a block or its removal, the call ends with that error and the tables are
  -- as they were.
  pub core_refuses :
      (title_id title_version : ℕ) (e f : Error)
      → (B.block "wiiu" blocker blocked s.backend).0 ≡ err e
      → (B.unblock "wiiu" blocker blocked s.backend).0 ≡ err f
      → (set_user_blocked B blocker blocked title_id title_version s
          ≡ (err e, record s { backend = (B.block "wiiu" blocker blocked s.backend).1 }))
        × (unset_user_blocked B blocker blocked s
            ≡ (err f, record s { backend = (B.unblock "wiiu" blocker blocked s.backend).1 }))
  unfolding set_user_blocked unset_user_blocked remote
  core_refuses title_id title_version e f block_err unblock_err = (
    ap
        (λ r.
          bound (λ _. store_block B blocker blocked title_id title_version)
            (r, record s { backend = (B.block "wiiu" blocker blocked s.backend).1 }))
        block_err,
    ap
        (λ r.
          bound (λ _. delete_block B blocker blocked)
            (r, record s { backend = (B.unblock "wiiu" blocker blocked s.backend).1 }))
        unblock_err,
  )
