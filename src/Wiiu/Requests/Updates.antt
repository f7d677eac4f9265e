-- ===== src/Wiiu/Requests/Updates.antt =====
-- Updates of one friend request by its id: set_friend_request_accepted.go, set_friend_request_denied.go,
-- set_friend_request_received.go, delete_friend_request_and_return_friend_pid.go.
use nn_friends.Prelude.{
  ℕ, ◌≡◌, refl, sym, ap, Option, none, some, List, [], true, not, keep, All, After, After->>=,
  After-if, After-pure, After-fail, After-recover, After-mono, nat_beq, recover,
}
use nn_friends.Errors.{friend_request_not_found, is_unresolved}
use nn_friends.Database.Tables.{FriendRequest}
use nn_friends.Database.Backend.{Backend}
use nn_friends.Database.Server.{Server, statement, query_row, remote}
use nn_friends.Database.Server.Rules.{After-statement, After-query_row}
use nn_friends.Database.Rows.{delete, count, first}
use nn_friends.Database.Rows.Laws.{keep-not-alter, All-alter, keep-delete, keep-not-delete}
use nn_friends.Wiiu.Requests.{
  has_id, on_requests, update_by_id, set_friend_request_accepted, set_friend_request_denied,
  set_friend_request_received, delete_friend_request,
}

abbrev pub others : ℕ → List FriendRequest → List FriendRequest
others id = keep (λ r. not (has_id id r))

-- The rows with the id satisfy `Q`, and the other rows are as before.
pub record IsUpdated (id : ℕ) (Q : FriendRequest → Type 0) (rs ts : List FriendRequest)
    : Type 0 where
  pub updated : All Q (keep (has_id id) ts)
  pub untouched : others id ts ≡ others id rs

abbrev pub map_recipient : Option FriendRequest → Option ℕ
map_recipient none = none
map_recipient (some r) = some r.recipient_pid

module _ (B : Backend) (id : ℕ) where
  update_by_id-After :
      (s : Server B.State) (f : List FriendRequest → List FriendRequest)
      (P : List FriendRequest → Type 0)
      → P (f s.tables.requests)
      → After (λ _ t. P t.tables.requests) (update_by_id B id f) s
  unfolding update_by_id
  update_by_id-After s f P h =
      After->>= (statement (λ t. (count (has_id id) t.requests, on_requests f t))) _ s (
        After-statement (λ t. (count (has_id id) t.requests, on_requests f t)) s
          (After-if (nat_beq (count (has_id id) s.tables.requests) 0) _ _ _ (λ _. After-fail _ _)
            (λ _. After-pure tt _ h)))

module _ (B : Backend) (id : ℕ) (s : Server B.State) where
  -- When SetFriendRequestAccepted, SetFriendRequestDenied or SetFriendRequestReceived succeeds, the
  -- request with the id has the flag set, and all requests with other ids are as they were.
  pub set_friend_request-IsUpdated :
      After
        (λ _ t. IsUpdated id (λ r. r.accepted ≡ true) s.tables.requests t.tables.requests)
        (set_friend_request_accepted B id)
        s
      × After
          (λ _ t. IsUpdated id (λ r. r.denied ≡ true) s.tables.requests t.tables.requests)
          (set_friend_request_denied B id)
          s
      × After
          (λ _ t. IsUpdated id (λ r. r.received ≡ true) s.tables.requests t.tables.requests)
          (set_friend_request_received B id)
          s
  unfolding set_friend_request_accepted set_friend_request_denied set_friend_request_received
  set_friend_request-IsUpdated = (
    update_by_id-After B id s _ (IsUpdated id _ s.tables.requests) (record {
      updated = All-alter (has_id id) _ _ (λ r. refl) s.tables.requests;
      untouched = keep-not-alter (has_id id) _ (λ r. refl) s.tables.requests;
    }),
    update_by_id-After B id s _ (IsUpdated id _ s.tables.requests) (record {
      updated = All-alter (has_id id) _ _ (λ r. refl) s.tables.requests;
      untouched = keep-not-alter (has_id id) _ (λ r. refl) s.tables.requests;
    }),
    update_by_id-After B id s _ (IsUpdated id _ s.tables.requests) (record {
      updated = All-alter (has_id id) _ _ (λ r. refl) s.tables.requests;
      untouched = keep-not-alter (has_id id) _ (λ r. refl) s.tables.requests;
    }),
  )

  -- When denying or cancelling a request succeeds, the PID returned is the recipient of a row that
  -- had the id; no row with the id is left, and all requests with other ids are as they were.
  pub delete_friend_request-gone :
      After
        (λ recipient t.
          (Option.some recipient ≡ map_recipient (first (has_id id) s.tables.requests))
          × (keep (has_id id) t.tables.requests ≡ [])
          × (others id t.tables.requests ≡ others id s.tables.requests))
        (delete_friend_request B id)
        s
  unfolding delete_friend_request remote
  delete_friend_request-gone =
      After->>= (query_row (λ t. first (has_id id) t.requests) friend_request_not_found) _ s (
        After-query_row (λ t. first (has_id id) t.requests) friend_request_not_found s
          (λ row found.
            After->>=
              (recover (remote (B.remove "wiiu" row.sender_pid row.recipient_pid)) is_unresolved tt)
              _ _
              (After-recover (remote (B.remove "wiiu" row.sender_pid row.recipient_pid))
                is_unresolved tt _
                (λ _. After->>= (update_by_id B id (delete (has_id id))) _ _ (
                  After-mono (update_by_id B id (delete (has_id id))) _
                    (λ _ t h. After-pure row.recipient_pid t h)
                    (update_by_id-After B id _ _
                      (λ ts.
                        (Option.some row.recipient_pid
                          ≡ map_recipient (first (has_id id) s.tables.requests))
                        × (keep (has_id id) ts ≡ [])
                        × (others id ts ≡ others id s.tables.requests))
                      (
                        ap map_recipient (sym found),
                        keep-delete (has_id id) s.tables.requests,
                        keep-not-delete (has_id id) s.tables.requests,
                      )))))))
