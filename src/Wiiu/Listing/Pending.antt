-- ===== src/Wiiu/Listing/Pending.antt =====
-- Which requests the two listings of database/wiiu show.
use nn_friends.Prelude.{
  ℕ, ◌<◌, ◌≡◌, refl, sym, subst, inl, inr, Option, none, some, List, [], ◌∷◌, Bool, true, false,
  not, ◌&&◌, keep, All, All_map, All-keep, All-take, Exists, Exists-map, Exists-keep, Result, ok,
  err, After, After->>=, arith, nat_eq, nat_beq, nat_beq_iff,
}
use nn_friends.Errors.{Error}
use nn_friends.Database.Tables.{Tables, FriendRequest, PrincipalRow, MiiRow}
use nn_friends.Database.Backend.{Backend}
use nn_friends.Database.Server.{Server, statement, remote}
use nn_friends.Database.Server.Rules.{After-statement}
use nn_friends.Wiiu.Listing.{
  Listed, join_rows, join_row, joined, select_in, is_live, is_current, list_in, reported,
  materialize_requests, get_user_friend_requests_in,
}
use nn_friends.Prelude.Dict.{get}

-- `l` shows the row `r`, with `other` as the person at the other end.
abbrev pub ShowsRow : Listed → ℕ → FriendRequest → Type 0
ShowsRow l other r =
    (l.id ≡ r.id)
    × (l.principal.pid ≡ other)
    × (l.message ≡ r.message)
    × (l.expires_on ≡ r.expires_on)

abbrev pub OfRow : ℕ → FriendRequest → Option Listed → Type 0
OfRow other r none = Unit
OfRow other r (some l) = ShowsRow l other r

join_rows-OfRow :
    (other : ℕ) (r : FriendRequest) (basic : Option PrincipalRow) (mii : Option MiiRow)
    → OfRow other r (join_rows other r basic mii)
join_rows-OfRow other r none mii = tt
join_rows-OfRow other r (some basic) none = tt
join_rows-OfRow other r (some basic) (some mii) = (refl, refl, refl, refl)

abbrev pub add_row : Option Listed → List Listed → List Listed
add_row none ls = ls
add_row (some l) ls = l ∷ ls

module _ (t : Tables) (other : FriendRequest → ℕ) where
  abbrev pub Shown : List FriendRequest → Listed → Type 0
  Shown rs l = Exists (λ r. ShowsRow l (other r) r) rs

  joined-Shown : (rs : List FriendRequest) → All (Shown rs) (joined t other rs)
  joined-Shown [] = tt
  joined-Shown (r ∷ rs) =
      go (join_row t (other r) r)
        (join_rows-OfRow (other r) r (get t.principals (other r)) (get t.miis (other r)))
        (All_map (Shown rs) (Shown (r ∷ rs)) (joined t other rs) (λ l. inr) (joined-Shown rs))
    where
      go :
          (o : Option Listed)
          → OfRow (other r) r o
          → All (Shown (r ∷ rs)) (joined t other rs)
          → All (Shown (r ∷ rs)) (elim o as (λ _. List Listed) [
            | none ↦ joined t other rs
            | some l ↦ l ∷ joined t other rs
          ])
      go none same rest = rest
      go (some l) same rest = (inl same, rest)

abbrev pub PendingRow : ℕ → Listed → FriendRequest → Type 0
PendingRow pid l r =
    ShowsRow l r.sender_pid r × (r.recipient_pid ≡ pid) × (r.accepted ≡ false) × (r.denied ≡ false)

-- A row of the table that is a request to `pid`, not accepted, not denied and not expired at `now`,
-- is what `l` shows.
pub record IsPendingIn (pid now : ℕ) (standard : ℕ → ℕ) (t : Tables) (l : Listed) : Type 0 where
  pub row : Exists (PendingRow pid l) t.requests
  pub unexpired : now < standard l.expires_on

select_in-PendingRow :
    (pid : ℕ) (t : Tables) → All (λ l. Exists (PendingRow pid l) t.requests) (select_in pid t)
unfolding select_in
select_in-PendingRow pid t =
    All-take _ 100 (joined t (λ r. r.sender_pid) (keep pending t.requests)) (
      All_map _ _ (joined t (λ r. r.sender_pid) (keep pending t.requests)) row_of
        (joined-Shown t (λ r. r.sender_pid) (keep pending t.requests)))
  where
    pending : FriendRequest → Bool
    pending r = nat_beq r.recipient_pid pid && (not r.accepted && not r.denied)

    fields :
        (l : Listed) (r : FriendRequest)
        → ShowsRow l r.sender_pid r × (pending r ≡ true)
        → PendingRow pid l r
    fields l r (shows, pass) = ground (arith, shows, pass, nat_beq_iff r.recipient_pid pid)

    row_of :
        (l : Listed)
        → Exists (λ r. ShowsRow l r.sender_pid r) (keep pending t.requests)
        → Exists (PendingRow pid l) t.requests
    row_of l h = Exists-map _ _ t.requests (fields l) (Exists-keep _ pending t.requests h)

module _ (B : Backend) (pid : ℕ) where
  current-IsPendingIn :
      (live : List ℕ) (now : ℕ) (t : Tables)
      → All
          (IsPendingIn pid now B.standard t)
          (keep (λ l. is_live live l && is_current B now l) (select_in pid t))
  current-IsPendingIn live now t =
      All_map _ _ (keep test (select_in pid t)) pending
        (All-keep _ test (select_in pid t) (select_in-PendingRow pid t))
    where
      test : Listed → Bool
      test l = is_live live l && is_current B now l

      pending :
          (l : Listed)
          → Exists (PendingRow pid l) t.requests × (test l ≡ true)
          → IsPendingIn pid now B.standard t l
      pending l (h, pass) = record { row = h; unexpired = ground (arith, pass) }

  list_in-IsPendingIn :
      (live : List ℕ) (s : Server B.State)
      → After
          (λ ls u. All (IsPendingIn pid (B.now u.backend) B.standard u.tables) ls)
          (list_in B pid live)
          s
  unfolding list_in
  list_in-IsPendingIn live s = After->>= (statement λ t. (select_in pid t, t)) _ s (
      After-statement (λ t. (select_in pid t, t)) s
        (record { holds = current-IsPendingIn live (B.now s.backend) s.tables }))

  -- When GetUserFriendRequestsIn succeeds, every request that it lists is a row of the table, sent
  -- by the person shown to this user, neither accepted nor denied, with the row's message and time
  -- of expiry, and has not expired.
  pub get_user_friend_requests_in-IsPendingIn :
      (s : Server B.State)
      → After
          (λ ls u. All (IsPendingIn pid (B.now u.backend) B.standard u.tables) ls)
          (get_user_friend_requests_in B pid)
          s
  unfolding get_user_friend_requests_in
  get_user_friend_requests_in-IsPendingIn s = record {
    holds = (list_in-IsPendingIn start.0 start.1).holds;
  }
    where
      start : List ℕ × Server B.State
      start = reported B pid false (remote (B.incoming_requester_pids "wiiu" pid) s)

abbrev pub NothingReported : {E : Type 0} → Result E (List ℕ) → Type 0
NothingReported (ok pids) = pids ≡ []
NothingReported (err e) = Unit

module _ (B : Backend) where
  -- The core that answers that no request is pending and the core that fails are treated alike: the
  -- listing is that of the local rows, with no sender left out.
  pub get_user_friend_requests_in-unfiltered :
      (pid : ℕ) (s : Server B.State)
      → NothingReported (B.incoming_requester_pids "wiiu" pid s.backend).0
      → get_user_friend_requests_in B pid s
        ≡ list_in B pid []
            (record s { backend = (B.incoming_requester_pids "wiiu" pid s.backend).1 })
  unfolding get_user_friend_requests_in remote materialize_requests
  get_user_friend_requests_in-unfiltered pid s nothing =
      go (B.incoming_requester_pids "wiiu" pid s.backend) nothing
    where
      go :
          (p : Result Error (List ℕ) × B.State)
          → NothingReported p.0
          → let (live, t) = reported B pid false (p.0, record s { backend = p.1 }) in
            list_in B pid live t ≡ list_in B pid [] (record s { backend = p.1 })
      go (err e, g) h = refl
      go (ok pids, g) h =
          subst
            (λ l.
              let (live, t) = reported B pid false (ok l, record s { backend = g }) in
              list_in B pid live t ≡ list_in B pid [] (record s { backend = g }))
            (sym h) refl
