-- ===== src/Wiiu/Friends/Shown.antt =====
-- Who the friend list of database/wiiu/get_user_friend_list.go shows.
use nn_friends.Prelude.{
  ℕ, ◌≤◌, ◌≡◌, refl, ◌⊎◌, inl, inr, List, [], ◌∷◌, Bool, true, false, ok, After, After->>=,
  After-fail, After-mono, After-Ends, Ends-mono, All, Exists, All-take, take, length, contains,
  if◌then◌else◌, Bool-cases, nat_eq, nat_beq, nat_beq_iff, ==_refl, arith, zero, suc,
}
use nn_friends.Prelude.Dict.{Dict, get, has}
use nn_friends.Errors.{empty_list}
use nn_friends.Database.Tables.{Tables, PrincipalRow}
use nn_friends.Database.Backend.{Backend}
use nn_friends.Database.Server.{Server, statement, remote, gets, later}
use nn_friends.Database.Server.Rules.{After-statement, After-remote_ok}
use nn_friends.Wiiu.Profiles.{ensure_profiles}
use nn_friends.Wiiu.Profiles.Refresh.{IsCached}
use nn_friends.Wiiu.Profiles.Rows.{HaveRows, ensure_profiles-HaveRows}
use nn_friends.Wiiu.Accepting.{FriendInfo, stamped}
use nn_friends.Wiiu.Friends.{
  FriendRow, friend_row, friend_rows, select_friends, friend_of_row, infos_of, read_friends,
  friend_infos_for_pids, get_user_friend_list,
}

abbrev pub shown_pid : FriendInfo → ℕ
shown_pid i = i.nna.principal.pid

-- Nobody but `pids` is shown, at most 100 are, and each of `pids` is unless there are 100.
pub record IsListOf (pids : List ℕ) (infos : List FriendInfo) : Type 0 where
  pub only : All (λ i. contains (shown_pid i) pids ≡ true) infos
  pub bounded : length infos ≤ 100
  pub all_or_full : All (λ pid. Exists (λ i. shown_pid i ≡ pid) infos) pids ⊎ (length infos ≡ 100)

module _ {A : Type 0} where
  length-take : (n : ℕ) (xs : List A) → length (take n xs) ≤ n
  length-take zero xs = omega arith
  length-take (suc n) [] = omega arith
  length-take (suc n) (x ∷ xs) = omega (arith, length-take n xs)

  -- What is cut off is cut off because the list is full.
  Exists-take :
      (P : A → Type 0) (n : ℕ) (xs : List A)
      → Exists P xs
      → Exists P (take n xs) ⊎ (length (take n xs) ≡ n)
  Exists-take P zero xs h = inr refl
  Exists-take P (suc n) [] h = absurd h
  Exists-take P (suc n) (x ∷ xs) (inl here) = inl (inl here)
  Exists-take P (suc n) (x ∷ xs) (inr there) = elim (Exists-take P n xs there) [
    | inl found ↦ inl (inr found)
    | inr full ↦ inr (omega arith)
  ]

  -- Each of a list is found, or one of them met the alternative.
  All_or : (P : A → Type 0) (Q : Type 0) (xs : List A) → All (λ x. P x ⊎ Q) xs → All P xs ⊎ Q
  All_or P Q [] h = inl tt
  All_or P Q (x ∷ xs) (inr q, rest) = inr q
  All_or P Q (x ∷ xs) (inl p, rest) = elim (All_or P Q xs rest) [
    | inl all ↦ inl (p, all)
    | inr q ↦ inr q
  ]

friend_row-pid :
    (viewer : ℕ) (t : Tables) (p : ℕ × PrincipalRow)
    → (friend_row viewer t p).nna.principal.pid ≡ p.0
unfolding friend_row
friend_row-pid viewer t (pid, row) = refl

module _ (viewer : ℕ) (pids : List ℕ) (t : Tables) where
  friend_rows-only :
      (ps : Dict ℕ PrincipalRow)
      → All (λ r. contains r.nna.principal.pid pids ≡ true) (friend_rows viewer pids t ps)
  unfolding friend_row
  friend_rows-only [] = tt
  friend_rows-only ((pid, row) ∷ ps) = go (contains pid pids) refl (friend_rows-only ps)
    where
      Only : FriendRow → Type 0
      Only r = contains r.nna.principal.pid pids ≡ true

      go :
          (b : Bool)
          → contains pid pids ≡ b
          → All Only (friend_rows viewer pids t ps)
          → All Only (
              if b
              then friend_row viewer t (pid, row) ∷ friend_rows viewer pids t ps
              else friend_rows viewer pids t ps)
      go true friend rest = (friend, rest)
      go false other rest = rest

  friend_rows_all :
      (ps : Dict ℕ PrincipalRow) (pid : ℕ)
      → has ps pid ≡ true
      → contains pid pids ≡ true
      → Exists (λ r. r.nna.principal.pid ≡ pid) (friend_rows viewer pids t ps)
  unfolding friend_row
  friend_rows_all [] pid there friend = cc
  friend_rows_all ((q, row) ∷ ps) pid there friend = elim (Bool-cases (nat_beq q pid)) [
    | inl same ↦ rw ((nat_beq_iff q pid).0 same, friend) (inl refl)
    | inr other ↦
        go (contains q pids) (friend_rows_all ps pid (ground (arith, other, there)) friend)
  ]
    where
      go :
          (b : Bool)
          → Exists (λ r. r.nna.principal.pid ≡ pid) (friend_rows viewer pids t ps)
          → Exists
              (λ r. r.nna.principal.pid ≡ pid)
              (if b
                then friend_row viewer t (q, row) ∷ friend_rows viewer pids t ps
                else friend_rows viewer pids t ps)
      go true found = inr found
      go false found = found

All-contains :
    (xs ys : List ℕ)
    → ((x : ℕ) → contains x xs ≡ true → contains x ys ≡ true)
    → All (λ x. contains x ys ≡ true) xs
All-contains [] ys h = tt
All-contains (x ∷ xs) ys h =
    (h x (rw (==_refl x) refl), All-contains xs ys (λ z there. h z (ground (arith, there))))

All-and :
    {A : Type 0} (P Q R : A → Type 0) (xs : List A)
    → ((x : A) → P x → Q x → R x)
    → All P xs
    → All Q xs
    → All R xs
All-and P Q R [] f p q = tt
All-and P Q R (x ∷ xs) f p q = (f x p.0 q.0, All-and P Q R xs f p.1 q.1)

-- The rows that are selected, and the entries that are made of them.
module _ (B : Backend) (s : Server B.State) where
  friend_of_row-pid :
      (r : FriendRow)
      → shown_pid (friend_of_row (get s.connected r.nna.principal.pid) (stamped B s) r)
        ≡ r.nna.principal.pid
  unfolding friend_of_row
  friend_of_row-pid r = refl

  infos-All :
      (P : ℕ → Type 0) (rows : List FriendRow)
      → All (λ r. P r.nna.principal.pid) rows
      → All (λ i. P (shown_pid i)) (infos_of B s rows)
  unfolding friend_of_row
  infos-All P [] h = tt
  infos-All P (r ∷ rows) (p, h) = (p, infos-All P rows h)

  infos-Exists :
      (P : ℕ → Type 0) (rows : List FriendRow)
      → Exists (λ r. P r.nna.principal.pid) rows
      → Exists (λ i. P (shown_pid i)) (infos_of B s rows)
  unfolding friend_of_row
  infos-Exists P [] h = h
  infos-Exists P (r ∷ rows) (inl p) = inl p
  infos-Exists P (r ∷ rows) (inr h) = inr (infos-Exists P rows h)

  length-infos : (rows : List FriendRow) → length (infos_of B s rows) ≡ length rows
  length-infos [] = refl
  length-infos (r ∷ rows) = omega (arith, length-infos rows)

module _ (B : Backend) where
  read_friends-IsListOf :
      (viewer : ℕ) (pids : List ℕ) (s : Server B.State)
      → HaveRows pids s
      → After (λ infos _. IsListOf pids infos) (read_friends B viewer pids) s
  unfolding read_friends select_friends
  read_friends-IsListOf viewer pids s rows =
      After->>= (statement (λ t. (select_friends viewer pids t, t)))
        (λ selected. gets (λ u. infos_of B u selected)) s
        (After-statement (λ t. (select_friends viewer pids t, t)) s
          (record {
            holds = record {
              only =
                  infos-All B after (λ p. contains p pids ≡ true) cut
                    (All-take _ 100 all
                      (friend_rows-only viewer pids s.tables s.tables.principals));
              bounded = omega (arith, length-infos B after cut, length-take 100 all);
              all_or_full =
                  All_or (λ pid. Exists (λ i. shown_pid i ≡ pid) (infos_of B after cut)) _ pids
                    (All-and _ _ _ pids found rows (All-contains pids pids (λ x h. h)));
            };
          }))
    where
      after : Server B.State
      after = record s { faults = later s.faults }

      all : List FriendRow
      all = friend_rows viewer pids s.tables s.tables.principals

      cut : List FriendRow
      cut = take 100 all

      found :
          (pid : ℕ)
          → has s.tables.principals pid ≡ true
          → contains pid pids ≡ true
          → Exists (λ i. shown_pid i ≡ pid) (infos_of B after cut)
            ⊎ (length (infos_of B after cut) ≡ 100)
      found pid there friend =
          elim (Exists-take (λ r. r.nna.principal.pid ≡ pid) 100 all
            (friend_rows_all viewer pids s.tables s.tables.principals pid there friend)) [
              | inl shown ↦ inl (infos-Exists B after (λ p. p ≡ pid) cut shown)
              | inr full ↦ inr (omega (arith, length-infos B after cut, full))
            ]

  friend_infos_for_pids-IsListOf :
      (viewer : ℕ) (pids : List ℕ) (s : Server B.State)
      → IsCached s
      → After (λ infos _. IsListOf pids infos) (friend_infos_for_pids B viewer pids) s
  unfolding friend_infos_for_pids
  friend_infos_for_pids-IsListOf viewer [] s cached = After-fail empty_list s
  friend_infos_for_pids-IsListOf viewer (p ∷ ps) s cached =
      After->>= (ensure_profiles B (p ∷ ps)) (λ _. read_friends B viewer (p ∷ ps)) s
        (After-Ends (ensure_profiles B (p ∷ ps)) s (
          Ends-mono (ensure_profiles B (p ∷ ps)) s
            (λ _ t h. read_friends-IsListOf viewer (p ∷ ps) t h.1)
            (ensure_profiles-HaveRows B (p ∷ ps) s cached)))

  -- If every PID that the profile cache knows has its row in principal_basic_info, then the friend
  -- list that GetUserFriendList answers is a list of the PIDs that the core says are the user's
  -- friends: it shows nobody else, at most 100 entries, and each of those PIDs unless there are 100
  -- entries.
  pub get_user_friend_list-IsListOf :
      (pid : ℕ) (s : Server B.State)
      → IsCached s
      → After
          (λ infos _.
            (pids : List ℕ) × ((B.friend_pids "wiiu" pid s.backend).0 ≡ ok pids)
            × IsListOf pids infos)
          (get_user_friend_list B pid)
          s
  unfolding get_user_friend_list
  get_user_friend_list-IsListOf pid s cached =
      After->>= (remote (B.friend_pids "wiiu" pid)) (λ friends. friend_infos_for_pids B pid friends)
        s
        (After-remote_ok (B.friend_pids "wiiu" pid) s λ friends answered.
          After-mono (friend_infos_for_pids B pid friends) _
            (λ infos _ list. (friends, answered, list))
            (friend_infos_for_pids-IsListOf pid friends _ cached))
