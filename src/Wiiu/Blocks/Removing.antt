-- ===== src/Wiiu/Blocks/Removing.antt =====
-- What RemoveFriendship leaves of the friendships: database/wiiu/remove_friendship.go.
use nn_friends.Prelude.{
  ℕ, ◌≡◌, refl, ap, ◌∙◌, ◌⊎◌, inl, inr, List, [], ◌∷◌, map, Bool, true, false, not, ◌&&◌, keep,
  fail, arith, Ends, Ends->>=, nat_beq, if◌then◌else◌,
}
use nn_friends.Errors.{friendship_not_found}
use nn_friends.Database.Tables.{Tables, Friendship}
use nn_friends.Database.Backend.{Backend}
use nn_friends.Database.Server.{Server, statement, later}
use nn_friends.Database.Server.Endings.{Ends-statement}
use nn_friends.Database.Rows.{alter, delete, count, any}
use nn_friends.Database.Rows.Laws.{keep-delete, keep-not-delete, keep-not-alter}
use nn_friends.Wiiu.Blocks.{friends_pair, deactivate, remove_friendship}

module _ {A : Type 0} (p q : A → Bool) where
  keep-of_delete : (xs : List A) → keep q (delete p xs) ≡ keep (λ x. q x && not (p x)) xs
  keep-of_delete [] = refl
  keep-of_delete (x ∷ xs) = ground (arith, keep-of_delete xs)

  -- No row of a condition appears where an update leaves the condition alone.
  keep-alter_none :
      (f : A → A)
      → ((x : A) → q (f x) ≡ q x)
      → (xs : List A) → keep q xs ≡ []
      → keep q (alter p f xs) ≡ []
  keep-alter_none f same [] h = refl
  keep-alter_none f same (x ∷ xs) h = ground (arith, same x, keep-alter_none f same xs, h)

module _ {A : Type 0} (p : A → Bool) where
  keep-alter :
      (f : A → A)
      → ((x : A) → p (f x) ≡ p x)
      → (xs : List A) → keep p (alter p f xs) ≡ map f (keep p xs)
  keep-alter f same [] = refl
  keep-alter f same (x ∷ xs) = ground (arith, same x, keep-alter f same xs)

any-count :
    {A : Type 0} (p : A → Bool) (xs : List A) → nat_beq (count p xs) 0 ≡ false → any p xs ≡ true
any-count p [] h = ground (arith, h)
any-count p (x ∷ xs) h = ground (arith, any-count p xs, h)

abbrev pub inactive : Friendship → Friendship
inactive r = record r { active = false }

-- Nothing but the friendships is changed; `faults` is what the driver has still to refuse.
abbrev pub IsFrame : {G : Type 0} → Server G → Server G → Type 0
IsFrame s t = t ≡ record s {
  tables = record s.tables { friendships = t.tables.friendships };
  faults = t.faults;
}

-- There was a row from `user1` to `user2` and none is left, the rows the other way are inactive, and
-- the others are as they were.
pub record IsRemoved {G : Type 0} (user1 user2 : ℕ) (s t : Server G) : Type 0 where
  pub had : any (friends_pair user1 user2) s.tables.friendships ≡ true
  pub gone : keep (friends_pair user1 user2) t.tables.friendships ≡ []
  pub reverse :
      keep (friends_pair user2 user1) t.tables.friendships
      ≡ map inactive (
          keep
            (λ r. friends_pair user2 user1 r && not (friends_pair user1 user2 r))
            s.tables.friendships)
  pub others :
      keep (λ r. not (friends_pair user2 user1 r)) t.tables.friendships
      ≡ keep
          (λ r. not (friends_pair user2 user1 r) && not (friends_pair user1 user2 r))
          s.tables.friendships
  pub frame : IsFrame s t

-- The rows are as they were, or less those from `user1` to `user2`.
pub record IsAtMostHalf {G : Type 0} (user1 user2 : ℕ) (s t : Server G) : Type 0 where
  pub rows :
      (t.tables.friendships ≡ s.tables.friendships)
      ⊎ ((keep (friends_pair user1 user2) t.tables.friendships ≡ [])
          × (keep (λ r. not (friends_pair user1 user2 r)) t.tables.friendships
              ≡ keep (λ r. not (friends_pair user1 user2 r)) s.tables.friendships))
  pub frame : IsFrame s t

module _ (B : Backend) (user1 user2 : ℕ) (s : Server B.State) where
  -- When RemoveFriendship succeeds, there was a row from the first to the second user and none is left,
  -- the rows from the second to the first have become inactive, and all other friendships are as they
  -- were; when it fails, the friendships are as they were, or less the rows from the first to the
  -- second, since the two statements are not one transaction. In both cases nothing else is changed,
  -- and the core is not called.
  pub remove_friendship-IsRemoved :
      Ends
        (λ _ t. IsRemoved user1 user2 s t)
        (IsAtMostHalf user1 user2 s)
        (remove_friendship B user1 user2)
        s
  unfolding remove_friendship deactivate
  remove_friendship-IsRemoved = Ends->>= (statement drop) (deactivate B user1 user2) s (
      Ends-statement drop s (go (nat_beq (count pair rows) 0) refl)
        (record { rows = inl refl; frame = refl }))
    where
      rows : List Friendship
      rows = s.tables.friendships

      pair : Friendship → Bool
      pair = friends_pair user1 user2

      back : Friendship → Bool
      back = friends_pair user2 user1

      drop : Tables → ℕ × Tables
      drop t = (count pair t.friendships, record t { friendships = delete pair t.friendships })

      lower : Tables → Unit {0} × Tables
      lower t = (tt, record t { friendships = alter back inactive t.friendships })

      dropped : Server B.State
      dropped = record s { tables = (drop s.tables).1; faults = later s.faults }

      half :
          (t : Server B.State)
          → t.tables.friendships ≡ delete pair rows
          → IsFrame s t
          → IsAtMostHalf user1 user2 s t
      half t same frame = record {
        rows = inr (
          ap (keep pair) same ∙ keep-delete pair rows,
          ap (keep (λ r. not (pair r))) same ∙ keep-not-delete pair rows,
        );
        frame = frame;
      }

      go :
          (b : Bool)
          → nat_beq (count pair rows) 0 ≡ b
          → Ends
              (λ _ t. IsRemoved user1 user2 s t)
              (IsAtMostHalf user1 user2 s)
              (if b then fail friendship_not_found else statement lower)
              dropped
      go true none_there = record { holds = half dropped refl refl }
      go false found =
          Ends-statement lower dropped
            (record {
              had = any-count pair rows found;
              gone =
                  keep-alter_none back pair inactive (λ r. refl) (delete pair rows)
                    (keep-delete pair rows);
              reverse =
                  keep-alter back inactive (λ r. refl) (delete pair rows)
                  ∙ ap (map inactive) (keep-of_delete pair back rows);
              others =
                  keep-not-alter back inactive (λ r. refl) (delete pair rows)
                  ∙ keep-of_delete pair (λ r. not (back r)) rows;
              frame = refl;
            })
            (half (record dropped { faults = later dropped.faults }) refl refl)
