-- ===== src/Wiiu/Listing.antt =====
-- database/wiiu/get_user_friend_requests_in.go and get_user_friend_requests_out.go: the pending
-- requests of a user. The fields of a listed request that are constants are left out.
pub mod Pending
use nn_friends.Prelude.{
  ℕ, zero, suc, ◌+◌, ◌*◌, String, Option, none, some, List, [], ◌∷◌, ◌++◌, Bool, true, false, not,
  ◌&&◌, ◌||◌, Exec, Result, ok, err, pure, fail, ◌>>=◌, ◌>>◌, if◌then◌else◌, nat_beq, nat_eq, ltb,
  keep, take, contains,
}
use nn_friends.Prelude.Dict.{get}
use nn_friends.Errors.{Error}
use nn_friends.Database.Tables.{Tables, FriendRequest, PrincipalRow, MiiRow}
use nn_friends.Database.Backend.{Backend}
use nn_friends.Database.Server.{Server, statement, remote, gets}
use nn_friends.Database.Rows.{any}
use nn_friends.Wiiu.Profiles.{PrincipalInfo, ensure_profiles}
use nn_friends.Wiiu.Requests.{between, insert_request, new_request}

-- A request with the person at its other end.
pub record Listed : Type 0 where
  pub principal : PrincipalInfo
  pub id : ℕ
  pub received : Bool
  pub message : String
  pub expires_on : ℕ
  pub sent_on : ℕ

-- The two INNER JOINs.
abbrev pub join_rows : ℕ → FriendRequest → Option PrincipalRow → Option MiiRow → Option Listed
join_rows other r none mii = none
join_rows other r (some basic) none = none
join_rows other r (some basic) (some mii) = some (record {
  principal = record { pid = other; nnid = basic.username; unknown = basic.unknown; mii = mii };
  id = r.id;
  received = r.received;
  message = r.message;
  expires_on = r.expires_on;
  sent_on = r.sent_on;
})

abbrev pub join_row : Tables → ℕ → FriendRequest → Option Listed
join_row t other r = join_rows other r (get t.principals other) (get t.miis other)

abbrev pub joined : Tables → (FriendRequest → ℕ) → List FriendRequest → List Listed
joined t other [] = []
joined t other (r ∷ rs) = elim (join_row t (other r) r) [
  | none ↦ joined t other rs
  | some l ↦ l ∷ joined t other rs
]

-- recipient_pid=$1 AND accepted=false AND denied=false LIMIT 100
unfoldable pub select_in : ℕ → Tables → List Listed
select_in pid t = take 100 (
    joined t (λ r. r.sender_pid)
      (keep (λ r. nat_beq r.recipient_pid pid && (not r.accepted && not r.denied)) t.requests))

-- sender_pid=$1 AND accepted=false LIMIT 100
unfoldable pub select_out : ℕ → Tables → List Listed
select_out pid t = take 100 (
    joined t (λ r. r.recipient_pid)
      (keep (λ r. nat_beq r.sender_pid pid && not r.accepted) t.requests))

-- The source's `len(live) > 0 && !live[pid]` is a reason to skip.
unfoldable pub is_live : List ℕ → Listed → Bool
is_live [] l = true
is_live (p ∷ ps) l = contains l.principal.pid (p ∷ ps)

abbrev is_pending_between : ℕ → ℕ → FriendRequest → Bool
is_pending_between sender recipient r =
    between sender recipient r && (not r.accepted && not r.denied)

module _ (B : Backend) where
  -- INSERT … SELECT … WHERE NOT EXISTS; an error of it is ignored.
  unfoldable pub insert_missing : ℕ → ℕ → ℕ → ℕ → Server B.State → Server B.State
  insert_missing sender recipient sent expires s =
      (statement
        (λ t.
          if any (is_pending_between sender recipient) t.requests
          then (tt, t)
          else (tt, (insert_request (new_request sender recipient sent expires "" false) t).1))
        s).1

  unfoldable pub insert_each : List ℕ → ℕ → Bool → ℕ → ℕ → Server B.State → Server B.State
  unfolding insert_missing
  insert_each [] pid outgoing sent expires s = s
  insert_each (other ∷ others) pid outgoing sent expires s =
      insert_each others pid outgoing sent expires (
        if outgoing
        then insert_missing pid other sent expires s
        else insert_missing other pid sent expires s)

  unfoldable pub filled :
      List ℕ → ℕ → Bool → Result Error (Unit {0}) × Server B.State → Server B.State
  unfolding insert_each
  filled others pid outgoing (err e, s) = s
  filled others pid outgoing (ok _, s) =
      let now = B.now s.backend in
      insert_each others pid outgoing (B.stamp now) (B.stamp (now + 7 * 24 * 3600)) s

  unfoldable pub materialize_requests : List ℕ → ℕ → Bool → Server B.State → Server B.State
  unfolding filled
  materialize_requests [] pid outgoing s = s
  materialize_requests (p ∷ ps) pid outgoing s =
      filled (p ∷ ps) pid outgoing (ensure_profiles B (p ∷ ps) s)

  -- The PIDs that the core reports; an error of it leaves none.
  abbrev pub reported : ℕ → Bool → Result Error (List ℕ) × Server B.State → List ℕ × Server B.State
  reported pid outgoing (err e, s) = ([], s)
  reported pid outgoing (ok pids, s) = (pids, materialize_requests pids pid outgoing s)

  abbrev is_current : ℕ → Listed → Bool
  is_current now l = ltb now (B.standard l.expires_on)

  -- The rest of GetUserFriendRequestsIn, with the senders that are live.
  unfoldable pub list_in : ℕ → List ℕ → Exec (Server B.State) Error (List Listed)
  unfolding select_in is_live
  list_in pid live = do
    rows ← statement (λ t. (select_in pid t, t))
    now ← gets (λ s. B.now s.backend)
    pure (keep (λ l. is_live live l && is_current now l) rows)

  unfoldable pub get_user_friend_requests_in : ℕ → Exec (Server B.State) Error (List Listed)
  unfolding list_in
  get_user_friend_requests_in pid s =
      let (live, t) = reported pid false (remote (B.incoming_requester_pids "wiiu" pid) s) in
      list_in pid live t

  unfoldable pub list_out : ℕ → List ℕ → Exec (Server B.State) Error (List Listed)
  unfolding select_out is_live
  list_out pid live = do
    rows ← statement (λ t. (select_out pid t, t))
    pure (keep (is_live live) rows)

  unfoldable pub get_user_friend_requests_out : ℕ → Exec (Server B.State) Error (List Listed)
  unfolding list_out
  get_user_friend_requests_out pid s =
      let (live, t) = reported pid true (remote (B.outgoing_addressee_pids "wiiu" pid) s) in
      list_out pid live t
