-- ===== src/Wiiu/Requests/Saving.antt =====
-- save_friend_request.go: what is stored for a request that is sent.
use nn_friends.Prelude.{
  ℕ, String, ◌≡◌, refl, sym, ap, ◌∙◌, subst, Option, none, some, List, [], ◌∷◌, ◌++◌, Bool, true,
  false, not, ◌&&◌, keep, Exists, Exists-map, Result, ok, err, pure, arith, After, After-same,
  recovered, >>=-ok, After->>=, After-if, After-pure, After-recover, nat_beq, nat_beq_iff,
  if◌then◌else◌, ◌>>◌, recover,
}
use nn_friends.Errors.{Error, is_unresolved}
use nn_friends.Coregraph.Social.{incomplete}
use nn_friends.Database.Tables.{Tables, FriendRequest}
use nn_friends.Database.Backend.{Backend}
use nn_friends.Database.Server.{Server, statement, remote, later}
use nn_friends.Database.Server.Rules.{After-statement}
use nn_friends.Database.Rows.{alter, first}
use nn_friends.Database.Rows.Laws.{
  keep-not-alter, Exists-alter, Exists-append, first-Exists, first-true, keep-append,
  append_nothing,
}
use nn_friends.Wiiu.Requests.{
  has_id, between, on_requests, id_or_zero, new_request, insert_request, resend, insert_new,
  store_request, is_friend_request_blocked, save_friend_request,
}
use nn_friends.Wiiu.Requests.Updates.{others}

-- A row that a listing can show.
abbrev pub is_open : FriendRequest → Bool
is_open r = not r.accepted && not r.denied

-- What is promised of the row: where the sender is not blocked it is open, with the new times.
abbrev pub Sent : Bool → ℕ → ℕ → FriendRequest → Type 0
Sent true sent expire r = Unit
Sent false sent expire r = (is_open r ≡ true) × (r.sent_on ≡ sent) × (r.expires_on ≡ expire)

-- A blocked sender opens nothing.
abbrev pub Silent : Bool → List FriendRequest → List FriendRequest → Type 0
Silent true rs ts = keep is_open ts ≡ keep is_open rs
Silent false rs ts = Unit

module _ (blocked : Bool) (sender recipient sent expire : ℕ) where
  abbrev pub SavedRow : ℕ → FriendRequest → Type 0
  SavedRow id r =
      (r.id ≡ id)
      × (r.sender_pid ≡ sender)
      × (r.recipient_pid ≡ recipient)
      × Sent blocked sent expire r

  -- `id` is the id of a row of this sender and this recipient, which is sent as above; the requests
  -- with other ids are as before.
  pub record IsSaved (rs : List FriendRequest) (id : ℕ) (ts : List FriendRequest) : Type 0 where
    pub row : Exists (SavedRow id) ts
    pub untouched : others id ts ≡ others id rs
    pub silent : Silent blocked rs ts

others-append :
    (rs : List FriendRequest) (r : FriendRequest) → others r.id (rs ++ r ∷ []) ≡ others r.id rs
others-append rs r =
    keep-append (λ x. not (has_id r.id x)) rs (r ∷ [])
    ∙ ap (λ b. keep (λ x. not (has_id r.id x)) rs ++ (if not b then r ∷ [] else []))
        ((nat_beq_iff r.id r.id).1 refl)
    ∙ append_nothing _

module _ (sender recipient sent expire : ℕ) (message : String) where
  inserted-IsSaved :
      (blocked : Bool) (t : Tables)
      → let (id, u) = insert_request (new_request sender recipient sent expire message blocked) t in
        IsSaved blocked sender recipient sent expire t.requests id u.requests
  inserted-IsSaved true t = record {
    row = Exists-append _ t.requests _ (refl, refl, refl, tt);
    untouched = others-append t.requests _;
    silent = keep-append is_open t.requests _ ∙ append_nothing _;
  }
  inserted-IsSaved false t = record {
    row = Exists-append _ t.requests _ (refl, refl, refl, (refl, refl, refl));
    untouched = others-append t.requests _;
    silent = tt;
  }

module _ (sender recipient sent expire : ℕ) where
  found_row :
      (rs : List FriendRequest) (r : FriendRequest)
      → first (between sender recipient) rs ≡ some r
      → Exists (λ x. (x.id ≡ r.id) × (x.sender_pid ≡ sender) × (x.recipient_pid ≡ recipient)) rs
  found_row rs r found =
      Exists-map _ _ rs
        (λ x same.
          subst (λ y. (y.id ≡ r.id) × (y.sender_pid ≡ sender) × (y.recipient_pid ≡ recipient))
            (sym same)
            (ground (
              arith,
              first-true (between sender recipient) rs r found,
              nat_beq_iff r.sender_pid sender,
              nat_beq_iff r.recipient_pid recipient,
            )))
        (first-Exists (between sender recipient) rs r found)

  resent : FriendRequest → FriendRequest
  resent r = record r { denied = false; accepted = false; sent_on = sent; expires_on = expire }

  resent-IsSaved :
      (rs : List FriendRequest) (r : FriendRequest)
      → first (between sender recipient) rs ≡ some r
      → IsSaved false sender recipient sent expire rs r.id (alter (has_id r.id) resent rs)
  unfolding resent
  resent-IsSaved rs r found = record {
    row =
        Exists-alter (has_id r.id) resent _ _
          (λ x (same, from, to).
            ((nat_beq_iff x.id r.id).1 same, (same, from, to, (refl, refl, refl))))
          rs (found_row rs r found);
    untouched = keep-not-alter (has_id r.id) resent (λ x. refl) rs;
    silent = tt;
  }

module _ (B : Backend) (sender recipient sent expire : ℕ) (message : String) where
  insert_new-IsSaved :
      (blocked : Bool) (s : Server B.State)
      → After
          (λ id t.
            IsSaved blocked sender recipient sent expire s.tables.requests id t.tables.requests)
          (insert_new B blocked sender recipient sent expire message)
          s
  unfolding insert_new
  insert_new-IsSaved blocked s =
      After-statement (insert_request (new_request sender recipient sent expire message blocked)) s
        (inserted-IsSaved sender recipient sent expire message blocked s.tables)

  resend-IsSaved :
      (blocked : Bool) (s : Server B.State) (r : FriendRequest)
      → first (between sender recipient) s.tables.requests ≡ some r
      → After
          (λ id t.
            IsSaved blocked sender recipient sent expire s.tables.requests id t.tables.requests)
          (resend B blocked r.id sent expire)
          s
  unfolding resend resent
  resend-IsSaved true s r found = After-pure r.id s (record {
    row =
        Exists-map _ _ s.tables.requests (λ x (same, from, to). (same, from, to, tt))
          (found_row sender recipient sent expire s.tables.requests r found);
    untouched = refl;
    silent = refl;
  })
  resend-IsSaved false s r found =
      After->>=
        (statement
          λ t. (tt, on_requests (alter (has_id r.id) (resent sender recipient sent expire)) t))
        (λ _. pure r.id) s
        (After-statement
          (λ t. (tt, on_requests (alter (has_id r.id) (resent sender recipient sent expire)) t)) s
          (After-pure r.id _
            (resent-IsSaved sender recipient sent expire s.tables.requests r found)))

  store_request-IsSaved :
      (blocked : Bool) (s : Server B.State)
      → After
          (λ id t.
            IsSaved blocked sender recipient sent expire s.tables.requests id t.tables.requests)
          (store_request B blocked sender recipient sent expire message)
          s
  unfolding store_request
  store_request-IsSaved blocked s =
      After->>= (statement λ t. (id_or_zero (first (between sender recipient) t.requests), t)) _ s (
        After-statement (λ t. (id_or_zero (first (between sender recipient) t.requests), t)) s
          (go (first (between sender recipient) s.tables.requests) refl))
    where
      go :
          (o : Option FriendRequest)
          → first (between sender recipient) s.tables.requests ≡ o
          → After
              (λ id t.
                IsSaved blocked sender recipient sent expire s.tables.requests id t.tables.requests)
              (if nat_beq (id_or_zero o) 0
                then insert_new B blocked sender recipient sent expire message
                else resend B blocked (id_or_zero o) sent expire)
              (record s { faults = later s.faults })
      go none found = insert_new-IsSaved blocked _
      go (some r) found =
          After-if (nat_beq r.id 0) _ _ _ (λ _. insert_new-IsSaved blocked _)
            (λ _. resend-IsSaved blocked _ r found)

  blocked_tables :
      (s : Server B.State) → (is_friend_request_blocked B recipient sender s).1.tables ≡ s.tables
  unfolding is_friend_request_blocked recover remote
  blocked_tables s = go (B.is_blocked "wiiu" recipient sender s.backend).0
    where
      u : Server B.State
      u = record s { backend = (B.is_blocked "wiiu" recipient sender s.backend).1 }

      go : (r : Result Error Bool) → (recovered is_unresolved false (r, u)).1.tables ≡ s.tables
      go (ok b) = refl
      go (err e) = refl

  -- When a request is saved, the id returned is that of a row from the sender to the recipient, and
  -- the requests with other ids are as they were. Where the recipient does not block the sender, that
  -- row is open, with the new times; where they do, no row has become open.
  pub save_friend_request-IsSaved :
      (blocked : Bool) (s u : Server B.State)
      → is_friend_request_blocked B recipient sender s ≡ (ok blocked, u)
      → After
          (λ id t.
            IsSaved blocked sender recipient sent expire s.tables.requests id t.tables.requests)
          (save_friend_request B sender recipient sent expire message)
          s
  unfolding save_friend_request remote
  save_friend_request-IsSaved blocked s u answer =
      After-same _
        (λ t.
          ((recover (remote (B.request "wiiu" sender recipient)) is_unresolved incomplete)
              >> store_request B blocked sender recipient sent expire message)
            t)
        s u (>>=-ok (is_friend_request_blocked B recipient sender) _ s answer)
        (After->>= (recover (remote (B.request "wiiu" sender recipient)) is_unresolved incomplete) _
          u
          (After-recover (remote (B.request "wiiu" sender recipient)) is_unresolved incomplete u
            (λ _.
              subst
                (λ t.
                  After
                    (λ id v.
                      IsSaved blocked sender recipient sent expire t.requests id v.tables.requests)
                    (store_request B blocked sender recipient sent expire message)
                    (remote (B.request "wiiu" sender recipient) u).1)
                (ap (λ p. p.1.tables) (sym answer) ∙ blocked_tables s)
                (store_request-IsSaved blocked _))))
