-- ===== src/Wiiu/Accepting/Laws.antt =====
-- What accepting a friend request means: accept_friend_request_and_return_friend_info.go.
use nn_friends.Prelude.{
  ℕ, ◌≡◌, refl, Option, some, [], ◌∷◌, false, ok, err, After, After->>=, After-any, After-pure,
  After-mono, After-and, Ends->>=, Ends-mono, true, none, subst, sym, nat_eq,
}
use nn_friends.Prelude.Dict.{get}
use nn_friends.Errors.{Error, friend_request_not_found, pid_not_found}
use nn_friends.Database.Tables.{FriendRequest}
use nn_friends.Database.Backend.{Backend}
use nn_friends.Database.Server.{Server, statement, query_row, remote, later, refused}
use nn_friends.Database.Server.Rules.{After-query_row, After-remote_ok}
use nn_friends.Database.Rows.{first}
use nn_friends.Wiiu.Profiles.{
  ensure_profiles, get_user_mii, get_user_principal_basic_info, get_user_network_account_info,
  get_user_comment,
}
use nn_friends.Types.{ConnectedUser}
use nn_friends.Database.Server.Endings.{Ends-query_row}
use nn_friends.Wiiu.Profiles.Reads.{
  Kept, HasKept, kept_of, EndsWith, get_user_network_account_info-EndsWith,
  get_user_comment-EndsWith,
}
use nn_friends.Wiiu.Requests.Updates.{IsUpdated, set_friend_request-IsUpdated}
use nn_friends.Wiiu.Requests.{has_id, set_friend_request_accepted}
use nn_friends.Wiiu.Accepting.{
  FriendInfo, stamped, last_online_of, friend_info, accept_row,
  accept_friend_request_and_return_friend_info,
}

module _ (B : Backend) where
  pub get_user_principal_basic_info-pid :
      (pid : ℕ) (s : Server B.State)
      → After (λ info _. info.pid ≡ pid) (get_user_principal_basic_info B pid) s
  unfolding get_user_principal_basic_info
  get_user_principal_basic_info-pid pid s = After->>= (ensure_profiles B (pid ∷ [])) _ s (
      After-any (ensure_profiles B (pid ∷ [])) s λ _ t.
        After->>= (query_row (λ u. get u.principals pid) pid_not_found) _ t (
          After-any (query_row (λ u. get u.principals pid) pid_not_found) t λ row u.
            After->>= (get_user_mii B pid) _ u
              (After-any (get_user_mii B pid) u λ mii v. After-pure _ v refl)))

  pub get_user_network_account_info-pid :
      (pid : ℕ) (s : Server B.State)
      → After (λ info _. info.principal.pid ≡ pid) (get_user_network_account_info B pid) s
  unfolding get_user_network_account_info
  get_user_network_account_info-pid pid s =
      After->>= (query_row (λ t. get t.account_info pid) pid_not_found) _ s (
        After-any (query_row (λ t. get t.account_info pid) pid_not_found) s λ row t.
          After->>= (get_user_principal_basic_info B pid) _ t (
            After-mono (get_user_principal_basic_info B pid) t (λ info u same. After-pure _ u same)
              (get_user_principal_basic_info-pid pid t)))

  friend_info-pid :
      (pid accepted_time : ℕ) (s : Server B.State)
      → After
          (λ info _. (info.nna.principal.pid ≡ pid) × (info.became_friend ≡ accepted_time))
          (friend_info B pid accepted_time)
          s
  unfolding friend_info
  friend_info-pid pid accepted_time s = record {
    holds =
        (After->>=
          {P = λ (info : FriendInfo) _.
            (info.nna.principal.pid ≡ pid) × (info.became_friend ≡ accepted_time)}
          (get_user_network_account_info B pid) _ s
          (After-mono (get_user_network_account_info B pid) s
            (λ nna t same. After->>= (last_online_of B (get s.connected pid) pid) _ t (
              After-any (last_online_of B (get s.connected pid) pid) t λ last_online u.
                After->>= (get_user_comment B pid) _ u
                  (After-any (get_user_comment B pid) u λ status v. After-pure _ v (same, refl))))
            (get_user_network_account_info-pid pid s))).holds;
  }

  friend_info-EndsWith :
      (pid accepted_time : ℕ) (rs : Kept) (s : Server B.State)
      → HasKept rs s
      → EndsWith rs (friend_info B pid accepted_time) s
  unfolding friend_info last_online_of
  friend_info-EndsWith pid accepted_time rs s h = record {
    holds =
        (Ends->>= {P = λ (_ : FriendInfo) t. HasKept rs t} (get_user_network_account_info B pid) _ s
          (Ends-mono (get_user_network_account_info B pid) s
            (λ nna t same. Ends->>= (last_online_of B (get s.connected pid) pid) _ t (
              Ends-mono (last_online_of B (get s.connected pid) pid) t
                (λ last_online u same. Ends->>= (get_user_comment B pid) _ u (
                  Ends-mono (get_user_comment B pid) u (λ status v same. record { holds = same })
                    (get_user_comment-EndsWith B rs pid u same)))
                (go (get s.connected pid) t same)))
            (get_user_network_account_info-EndsWith B rs pid s h))).holds;
  }
    where
      go :
          (user : Option ConnectedUser) (t : Server B.State)
          → HasKept rs t
          → EndsWith rs (last_online_of B user pid) t
      go (some user) t same = record { holds = same }
      go none t same = Ends->>= (query_row (λ u. get u.user_data pid) pid_not_found) _ t (
          Ends-query_row (λ u. get u.user_data pid) pid_not_found t (λ row. record { holds = same })
            same)

  -- The request `id` was there; the core has accepted it for its sender and recipient; its row, and
  -- no other request, is marked as accepted; and what is told is of the sender, who became a friend
  -- at the time of the call.
  pub record IsAccepted (id : ℕ) (s : Server B.State) (info : FriendInfo) (t : Server B.State)
      : Type 0 where
    pub row : FriendRequest
    pub found : first (has_id id) s.tables.requests ≡ some row
    pub accepted : (B.accept_request "wiiu" row.recipient_pid row.sender_pid s.backend).0 ≡ ok tt
    pub marked : IsUpdated id (λ r. r.accepted ≡ true) s.tables.requests t.tables.requests
    pub sender : info.nna.principal.pid ≡ row.sender_pid
    pub time : info.became_friend ≡ stamped B s

  accept_row-IsAccepted :
      (id : ℕ) (row : FriendRequest) (s : Server B.State)
      → first (has_id id) s.tables.requests ≡ some row
      → After (IsAccepted id s) (accept_row B id row) (record s { faults = later s.faults })
  unfolding accept_row
  accept_row-IsAccepted id row s found = record {
    holds =
        (After->>= {P = IsAccepted id s}
          (remote (B.accept_request "wiiu" row.recipient_pid row.sender_pid)) _ start
          (After-remote_ok (B.accept_request "wiiu" row.recipient_pid row.sender_pid) start
            λ _ accepted. After->>= (set_friend_request_accepted B id) _ called (
              After-mono (set_friend_request_accepted B id) called
                (λ _ t marked.
                  After-mono (friend_info B row.sender_pid (stamped B s)) t
                    (λ info u told. record {
                      row = row;
                      found = found;
                      accepted = accepted;
                      marked =
                          subst (IsUpdated id (λ r. r.accepted ≡ true) s.tables.requests)
                            (sym told.1.0) marked;
                      sender = told.0.0;
                      time = told.0.1;
                    })
                    (After-and (friend_info B row.sender_pid (stamped B s)) t
                      (friend_info-pid row.sender_pid (stamped B s) t)
                      (friend_info-EndsWith row.sender_pid (stamped B s) (kept_of t) t
                        (refl, refl))))
                (set_friend_request-IsUpdated B id called).0))).holds;
  }
    where
      start : Server B.State
      start = record s { faults = later s.faults }

      called : Server B.State
      called = record start {
        backend = (B.accept_request "wiiu" row.recipient_pid row.sender_pid s.backend).1;
      }

  -- Where accepting a friend request succeeds, there was a request of that id, the core has accepted
  -- it for the request's sender and recipient, the row of that id is marked as accepted and no other
  -- request is changed, and the answer is about the sender, who became a friend at the time of the
  -- call.
  pub accept_friend_request-IsAccepted :
      (id : ℕ) (s : Server B.State)
      → After (IsAccepted id s) (accept_friend_request_and_return_friend_info B id) s
  unfolding accept_friend_request_and_return_friend_info
  accept_friend_request-IsAccepted id s =
      After->>= (query_row (λ t. first (has_id id) t.requests) friend_request_not_found)
        (accept_row B id) s
        (After-query_row (λ t. first (has_id id) t.requests) friend_request_not_found s
          λ row found. accept_row-IsAccepted id row s found)

  -- Where the core refuses to accept a request that is there, accepting it fails with the core's
  -- error, and no row of any table is changed.
  pub accept_refused :
      (id : ℕ) (row : FriendRequest) (s : Server B.State) (e : Error) (g : B.State)
      → first (has_id id) s.tables.requests ≡ some row
      → refused s.faults ≡ false
      → B.accept_request "wiiu" row.recipient_pid row.sender_pid s.backend ≡ (err e, g)
      → accept_friend_request_and_return_friend_info B id s
        ≡ (err e, record s { backend = g; faults = later s.faults })
  unfolding accept_friend_request_and_return_friend_info accept_row query_row statement remote
  accept_refused id row s e g found runs refusal = rw (runs, found, refusal) refl
