-- ===== src/Desk/Ctr/Synced.antt =====
-- What SyncFriend answers: nex/friends-3ds/sync_friend.go.
use nn_friends.Prelude.{
  ℕ, ◌≡◌, refl, ap, subst, List, [], ◌∷◌, ◌++◌, Bool, true, false, ok, err, arith, After, After->>=,
  After-if, After-pure, After-fail, After-mono, After-any, contains, nat_eq, nat_beq_iff, All,
  >>=-err,
}
use nn_friends.Database.Backend.{Backend}
use nn_friends.Ctr.Friends.{
  FriendRelationship, pids_of, get_user_friends, save_friendship, remove_missing,
}
use nn_friends.Ctr.Friends.Laws.{save_friendship-pid, no_friends}
use nn_friends.Desk.{Desk, invalid_argument, unknown, friendship_completed, db, mapped, notify}
use nn_friends.Desk.Sending.{After-db}
use nn_friends.Desk.Wiiu.{or_unknown}
use nn_friends.Desk.Ctr.Sync.{add_missing, sync_friend}

pids_of-append : (rs ts : List FriendRelationship) → pids_of (rs ++ ts) ≡ pids_of rs ++ pids_of ts
pids_of-append [] ts = refl
pids_of-append (r ∷ rs) ts = ap (λ l. r.pid ∷ l) (pids_of-append rs ts)

-- Every PID of `xs` is one of `ys`.
abbrev pub Within : List ℕ → List ℕ → Type 0
Within ys = All (λ x. contains x ys ≡ true)

Within-more : (y : ℕ) (ys xs : List ℕ) → Within ys xs → Within (y ∷ ys) xs
Within-more y ys [] h = tt
Within-more y ys (x ∷ xs) (hx, h) = (ground (arith, hx), Within-more y ys xs h)

Within-self : (xs : List ℕ) → Within xs xs
Within-self [] = tt
Within-self (x ∷ xs) = (ground (arith, nat_beq_iff x x), Within-more x xs xs (Within-self xs))

Within-found : (ys xs : List ℕ) (x : ℕ) → Within ys xs → contains x xs ≡ true → contains x ys ≡ true
Within-found ys [] x h found = cc
Within-found ys (z ∷ xs) x (hz, h) found =
    ground (arith, hz, found, Within-found ys xs x h, nat_beq_iff x z)

Within-append :
    (ys xs : List ℕ) (x : ℕ) → Within ys (xs ++ x ∷ []) → Within ys xs × (contains x ys ≡ true)
Within-append ys [] x (hx, h) = (tt, hx)
Within-append ys (z ∷ xs) x (hz, h) = onto (Within-append ys xs x h)
  where
    onto :
        Within ys xs × (contains x ys ≡ true)
        → ((contains z ys ≡ true) × Within ys xs) × (contains x ys ≡ true)
    onto (rest, hx) = ((hz, rest), hx)

-- The PIDs known before and the PIDs wanted are among the relationships.
record Answers (known wanted : List ℕ) (rs : List FriendRelationship) : Type 0 where
  kept : Within (pids_of rs) known
  covered : Within (pids_of rs) wanted

module _ (B : Backend) where
  add_missing-Answers :
      (me : ℕ) (ps : List ℕ) (rs : List FriendRelationship) (d : Desk B.State)
      → After (λ a _. Answers (pids_of rs) ps a) (add_missing B me ps rs) d
  unfolding add_missing notify
  add_missing-Answers me [] rs d =
      After-pure _ d (record { kept = Within-self (pids_of rs); covered = tt })
  add_missing-Answers me (p ∷ ps) rs d =
      After-if (contains p (pids_of rs)) _ _ d
        (λ known.
          After-mono _ d
            (λ a _ h. record {
              kept = h.kept;
              covered = (Within-found _ _ p h.kept known, h.covered);
            })
            (add_missing-Answers me ps rs d))
        (λ _. After->>= (db or_unknown (save_friendship B me p)) _ d (
          After-db or_unknown (save_friendship B me p) d (
            After-mono (save_friendship B me p) d.server
              (λ r s same. record {
                holds =
                    (After-mono _ _ (λ a _. with_new r same a)
                      (add_missing-Answers me ps (rs ++ r ∷ [])
                        (notify p (friendship_completed me) (record d { server = s })).1)).holds;
              })
              (save_friendship-pid B me p d.server))))
    where
      with_new :
          (r : FriendRelationship)
          → r.pid ≡ p
          → (a : List FriendRelationship) → Answers (pids_of (rs ++ r ∷ [])) ps a
          → Answers (pids_of rs) (p ∷ ps) a
      with_new r same a h = record {
        kept = split.0;
        covered = (subst (λ q. contains q (pids_of a) ≡ true) same split.1, h.covered);
      }
        where
          split : Within (pids_of a) (pids_of rs) × (contains r.pid (pids_of a) ≡ true)
          split =
              Within-append (pids_of a) (pids_of rs) r.pid
                (subst (Within (pids_of a)) (pids_of-append rs (r ∷ [])) h.kept)

  -- When SyncFriend succeeds, every PID that the console sent is among the relationships answered.
  pub sync_friend-Answers :
      (me : ℕ) (malformed : Bool) (pids : List ℕ) (d : Desk B.State)
      → After (λ a _. Within (pids_of a) pids) (sync_friend B me malformed pids) d
  unfolding sync_friend
  sync_friend-Answers me true pids d = After-fail invalid_argument d
  sync_friend-Answers me false pids d = After->>= (db or_unknown (get_user_friends B me)) _ d (
      After-any (db or_unknown (get_user_friends B me)) d (λ friends e.
        After->>= (db or_unknown (remove_missing B me pids friends)) _ e (
          After-any (db or_unknown (remove_missing B me pids friends)) e
            (λ _ u. After-mono _ u (λ a _ h. h.covered) (add_missing-Answers me pids friends u)))))

  -- Where the core knows neither a friend nor an outgoing request of a user, SyncFriend answers
  -- Unknown to any list of PIDs that it could decode: nobody is told, nothing is stored, and the core
  -- is left as the calls for those two lists leave it.
  pub sync_friend-empty :
      (me : ℕ) (pids : List ℕ) (d : Desk B.State) (g h : B.State)
      → B.friend_pids "3ds" me d.server.backend ≡ (ok [], g)
      → B.outgoing_addressee_pids "3ds" me g ≡ (ok [], h)
      → sync_friend B me false pids d
        ≡ (err unknown, record d { server = record d.server { backend = h } })
  unfolding sync_friend db
  sync_friend-empty me pids d g h none_in none_out =
      >>=-err (db or_unknown (get_user_friends B me)) _ d (
        ap (λ p. (mapped or_unknown p.0, record d { server = p.1 }))
          (no_friends B me d.server g h none_in none_out))
