-- ===== src/Wiiu/Requests.antt =====
-- database/wiiu: friend requests. The account core decides who asked whom; the rows here carry the
-- message, the times and the id that the console uses.
pub mod Updates
pub mod Saving
pub mod Success
use nn_friends.Prelude.{
  ℕ, ◌+◌, String, Option, none, some, List, [], ◌∷◌, ◌++◌, Bool, true, false, ◌&&◌, Exec, pure,
  fail, ◌>>=◌, ◌>>◌, recover, if◌then◌else◌, nat_beq, nat_eq,
}
use nn_friends.Errors.{Error, friend_request_not_found, is_unresolved}
use nn_friends.Coregraph.Social.{incomplete}
use nn_friends.Database.Tables.{Tables, FriendRequest}
use nn_friends.Database.Backend.{Backend}
use nn_friends.Database.Server.{Server, statement, query_row, remote}
use nn_friends.Database.Rows.{alter, delete, count, first}

abbrev pub has_id : ℕ → FriendRequest → Bool
has_id id r = nat_beq r.id id

-- sender_pid=$1 AND recipient_pid=$2
abbrev pub between : ℕ → ℕ → FriendRequest → Bool
between sender recipient r = nat_beq r.sender_pid sender && nat_beq r.recipient_pid recipient

abbrev pub on_requests : (List FriendRequest → List FriendRequest) → Tables → Tables
on_requests f t = record t { requests = f t.requests }

abbrev pub id_or_zero : Option FriendRequest → ℕ
id_or_zero none = 0
id_or_zero (some r) = r.id

-- A row that is neither received nor accepted; its id is given by the insert.
abbrev pub new_request : ℕ → ℕ → ℕ → ℕ → String → Bool → FriendRequest
new_request sender recipient sent expire message denied = record {
  id = 0;
  sender_pid = sender;
  recipient_pid = recipient;
  sent_on = sent;
  expires_on = expire;
  message = message;
  received = false;
  accepted = false;
  denied = denied;
}

-- INSERT INTO wiiu.friend_requests … RETURNING id
abbrev pub insert_request : FriendRequest → Tables → ℕ × Tables
insert_request r t = (
  t.next_id,
  record t { requests = t.requests ++ record r { id = t.next_id } ∷ []; next_id = t.next_id + 1 },
)

module _ (B : Backend) where
  -- An UPDATE or DELETE of one request by its id; no row is an error.
  unfoldable pub update_by_id :
      ℕ → (List FriendRequest → List FriendRequest) → Exec (Server B.State) Error (Unit {0})
  update_by_id id f = do
    affected ← statement (λ t. (count (has_id id) t.requests, on_requests f t))
    if nat_beq affected 0 then fail friend_request_not_found else pure tt

  unfoldable pub set_friend_request_accepted : ℕ → Exec (Server B.State) Error (Unit {0})
  unfolding update_by_id
  set_friend_request_accepted id =
      update_by_id id (alter (has_id id) (λ r. record r { accepted = true }))

  unfoldable pub set_friend_request_denied : ℕ → Exec (Server B.State) Error (Unit {0})
  unfolding update_by_id
  set_friend_request_denied id =
      update_by_id id (alter (has_id id) (λ r. record r { denied = true }))

  unfoldable pub set_friend_request_received : ℕ → Exec (Server B.State) Error (Unit {0})
  unfolding update_by_id
  set_friend_request_received id =
      update_by_id id (alter (has_id id) (λ r. record r { received = true }))

  -- The sender and the recipient.
  unfoldable pub get_pids_by_friend_request_id : ℕ → Exec (Server B.State) Error (ℕ × ℕ)
  get_pids_by_friend_request_id id = do
    row ← query_row (λ t. first (has_id id) t.requests) friend_request_not_found
    pure (row.sender_pid, row.recipient_pid)

  unfoldable pub is_friend_request_blocked : ℕ → ℕ → Exec (Server B.State) Error Bool
  is_friend_request_blocked recipient sender =
      recover (remote (B.is_blocked "wiiu" recipient sender)) is_unresolved false

  -- A request that is there already is sent again, unless the sender is blocked.
  unfoldable pub resend : Bool → ℕ → ℕ → ℕ → Exec (Server B.State) Error ℕ
  resend blocked id sent expire = if blocked then pure id else (do
    statement λ t. (
      tt,
      on_requests
          (alter (has_id id) (λ r. record r {
            denied = false;
            accepted = false;
            sent_on = sent;
            expires_on = expire;
          }))
          t,
    )
    pure id)

  unfoldable pub insert_new : Bool → ℕ → ℕ → ℕ → ℕ → String → Exec (Server B.State) Error ℕ
  insert_new blocked sender recipient sent expire message =
      statement (insert_request (new_request sender recipient sent expire message blocked))

  -- The part of SaveFriendRequest after the call of the core.
  unfoldable pub store_request : Bool → ℕ → ℕ → ℕ → ℕ → String → Exec (Server B.State) Error ℕ
  unfolding resend insert_new
  store_request blocked sender recipient sent expire message = do
    id ← statement (λ t. (id_or_zero (first (between sender recipient) t.requests), t))
    if nat_beq id 0
        then insert_new blocked sender recipient sent expire message
        else resend blocked id sent expire

  unfoldable pub save_friend_request : ℕ → ℕ → ℕ → ℕ → String → Exec (Server B.State) Error ℕ
  unfolding is_friend_request_blocked store_request
  save_friend_request sender recipient sent expire message = do
    blocked ← is_friend_request_blocked recipient sender
    recover (remote (B.request "wiiu" sender recipient)) is_unresolved incomplete
    store_request blocked sender recipient sent expire message

  -- Denying or cancelling: the core first, then the row; the recipient is returned.
  unfoldable pub delete_friend_request : ℕ → Exec (Server B.State) Error ℕ
  unfolding update_by_id
  delete_friend_request id = do
    row ← query_row (λ t. first (has_id id) t.requests) friend_request_not_found
    recover (remote (B.remove "wiiu" row.sender_pid row.recipient_pid)) is_unresolved tt
    update_by_id id (delete (has_id id))
    pure row.recipient_pid
