-- ===== src/Desk/Wiiu/Silence.antt =====
-- What the handlers of nex/friends-wiiu answer where something is missing, and whom they tell.
use nn_friends.Prelude.{
  ℕ, ◌≡◌, refl, ◌⊎◌, inl, inr, Option, none, some, List, [], ◌∷◌, ◌++◌, Bool, false, err, ◌>>◌,
  pure, Ends, Ends->>=, Ends-any, Ends-mono, Exec, Ends-After, After-mono, After-and, OnBoth,
  Result, ok, true, subst, sym, keep, nat_eq, arith,
}
use nn_friends.Prelude.Dict.{get}
use nn_friends.Errors.{Error}
use nn_friends.Types.{ConnectedUser}
use nn_friends.Database.Backend.{Backend}
use nn_friends.Database.Server.{Server, statement, query_row, refused}
use nn_friends.Database.Rows.{count, first}
use nn_friends.Wiiu.Profiles.{Comment, get_user_network_account_info, get_user_comment}
use nn_friends.Wiiu.Requests.{
  has_id, update_by_id, delete_friend_request, set_friend_request_denied,
}
use nn_friends.Wiiu.Blocks
use nn_friends.Wiiu.Accepting.{FriendInfo, accept_friend_request_and_return_friend_info}
use nn_friends.Wiiu.Accepting.Laws.{
  get_user_network_account_info-pid, IsAccepted, accept_friend_request-IsAccepted,
}
use nn_friends.Wiiu.Profiles.Reads.{
  HasKept, kept_of, get_user_network_account_info-EndsWith, get_user_comment-EndsWith,
}
use nn_friends.Wiiu.Requests.Updates.{IsUpdated, map_recipient, delete_friend_request-gone}
use nn_friends.Desk.{
  Desk, invalid_argument, unknown, invalid_message_id, request_accepted, friendship_removed, db,
  notify, notice_for,
}
use nn_friends.Desk.Sending.{Ends-db, Ends-decoded}
use nn_friends.Desk.Wiiu.{
  or_unknown, request_error, friendship_error, comment_or_none, tell_accepted,
  accept_friend_request, deny_friend_request, cancel_friend_request, decline_friend_request,
  remove_friend,
}

count-none : {A : Type 0} (p : A → Bool) (xs : List A) → first p xs ≡ none → count p xs ≡ 0
count-none p [] h = refl
count-none p (x ∷ xs) h = ground (arith, count-none p xs)

module _ (B : Backend) where
  -- Where no request has the id and the first statement is not refused, accepting, cancelling and
  -- declining it answer InvalidMessageID; denying it, by the handler that also blocks, answers Unknown.
  pub unknown_request :
      (caller id : ℕ) (d : Desk B.State)
      → first (has_id id) d.server.tables.requests ≡ none
      → refused d.server.faults ≡ false
      → ((accept_friend_request B caller false id d).0 ≡ err invalid_message_id)
        × ((cancel_friend_request B caller false id d).0 ≡ err invalid_message_id)
        × ((decline_friend_request B caller false id d).0 ≡ err invalid_message_id)
        × ((deny_friend_request B caller false id d).0 ≡ err unknown)
  unfolding accept_friend_request accept_friend_request_and_return_friend_info cancel_friend_request
      delete_friend_request decline_friend_request deny_friend_request set_friend_request_denied
      update_by_id query_row statement db
  unknown_request caller id d missing runs = (
    rw (runs, missing) refl,
    rw (runs, missing) refl,
    rw (runs, count-none (has_id id) d.server.tables.requests missing) refl,
    rw (runs, count-none (has_id id) d.server.tables.requests missing) refl,
  )

  -- RemoveFriend tells nobody if it fails; if it succeeds, the friend, if connected, is told that
  -- their own PID was removed, and not the caller's.
  pub remove_friend-tells :
      (caller : ℕ) (malformed : Bool) (pid : ℕ) (d : Desk B.State)
      → Ends
          (λ _ e.
            e.sent ≡ d.sent ++ notice_for (get e.server.connected pid) (friendship_removed pid))
          (λ e. e.sent ≡ d.sent)
          (remove_friend B caller malformed pid)
          d
  unfolding remove_friend notify
  remove_friend-tells caller malformed pid d = Ends-decoded malformed invalid_argument _ d refl (
      Ends->>= (db friendship_error (Blocks.remove_friendship B caller pid)) _ d (
        Ends-db friendship_error (Blocks.remove_friendship B caller pid) d (
          Ends-any (Blocks.remove_friendship B caller pid) d.server (λ _ s. record { holds = refl })
            (λ s. refl))))

  -- Either nobody is told, or the friend is, once, of the caller.
  abbrev pub IsTold : ℕ → ℕ → Desk B.State → Desk B.State → Type 0
  IsTold caller friend d e =
      (e.sent ≡ d.sent)
      ⊎ ((told : FriendInfo) × (told.nna.principal.pid ≡ caller)
          × (e.sent ≡ d.sent ++ notice_for (get e.server.connected friend) (request_accepted told)))

  -- Telling the friend reads the database: the requests are as they were, whatever fails.
  tell_accepted-IsTold :
      (caller : ℕ) (info : FriendInfo) (friend user : Option ConnectedUser) (d : Desk B.State)
      → Ends
          (λ _ e.
            (e.server.tables.requests ≡ d.server.tables.requests)
            × IsTold caller info.nna.principal.pid d e)
          (λ e. e.sent ≡ d.sent)
          (tell_accepted B caller info friend user)
          d
  unfolding tell_accepted notify
  tell_accepted-IsTold caller info none user d = record { holds = (refl, inl refl) }
  tell_accepted-IsTold caller info (some f) none d = record { holds = (refl, inl refl) }
  tell_accepted-IsTold caller info (some f) (some u) d =
      Ends->>= (db or_unknown (get_user_network_account_info B caller)) _ d (
        Ends-db or_unknown (get_user_network_account_info B caller) d (
          Ends-After (get_user_network_account_info B caller) d.server
            (After-mono (get_user_network_account_info B caller) d.server
              (λ nna s read.
                Ends->>= (db or_unknown (λ v. comment_or_none B (get_user_comment B caller v))) _ _
                  (Ends-db or_unknown (λ v. comment_or_none B (get_user_comment B caller v)) _
                    (Ends-mono (λ v. comment_or_none B (get_user_comment B caller v)) s
                      (λ status v same. record {
                        holds = (
                          same.0,
                          inr (
                            record info { nna = nna; presence = u.presence_v2; status = status },
                            read.0,
                            refl,
                          ),
                        );
                      })
                      (comment_or_none-EndsWith caller d.server s read.1))))
              (After-and (get_user_network_account_info B caller) d.server
                (get_user_network_account_info-pid B caller d.server)
                (get_user_network_account_info-EndsWith B (kept_of d.server) caller d.server
                  (refl, refl))))
            (λ s. refl)))
    where
      comment_or_none-EndsWith :
          (pid : ℕ) (start s : Server B.State)
          → HasKept (kept_of start) s
          → Ends
              (λ _ v. HasKept (kept_of start) v)
              (λ v. d.sent ≡ d.sent)
              (λ v. comment_or_none B (get_user_comment B pid v))
              s
      comment_or_none-EndsWith pid start s same = record {
        holds =
            go (get_user_comment B pid s)
              (get_user_comment-EndsWith B (kept_of start) pid s same).holds;
      }
        where
          go :
              (p : Result Error Comment × Server B.State)
              → OnBoth (λ _ v. HasKept (kept_of start) v) (HasKept (kept_of start)) p
              → OnBoth {E = Error}
                  (λ _ v. HasKept (kept_of start) v)
                  (λ v. d.sent ≡ d.sent)
                  (comment_or_none B p)
          go (ok status, v) h = h
          go (err e, v) h = h

  IsAccepted-same :
      (id : ℕ) (s : Server B.State) (info : FriendInfo) (t u : Server B.State)
      → u.tables.requests ≡ t.tables.requests
      → IsAccepted B id s info t
      → IsAccepted B id s info u
  IsAccepted-same id s info t u same h = record {
    row = h.row;
    found = h.found;
    accepted = h.accepted;
    marked = subst (IsUpdated id (λ r. r.accepted ≡ true) s.tables.requests) (sym same) h.marked;
    sender = h.sender;
    time = h.time;
  }

  -- AcceptFriendRequest tells nobody if it fails; if it succeeds, the request has been accepted by
  -- the core, in the state that the handler leaves its row is marked as accepted and no other request
  -- is changed, and the one who had asked is told at most once, of the caller, and nobody else is
  -- told.
  pub accept_friend_request-IsTold :
      (caller : ℕ) (malformed : Bool) (id : ℕ) (d : Desk B.State)
      → Ends
          (λ info e.
            IsAccepted B id d.server info e.server × IsTold caller info.nna.principal.pid d e)
          (λ e. e.sent ≡ d.sent)
          (accept_friend_request B caller malformed id)
          d
  unfolding accept_friend_request
  accept_friend_request-IsTold caller malformed id d =
      Ends-decoded malformed invalid_argument _ d refl (
        Ends->>= (db request_error accept) _ d (
          Ends-db request_error accept d (
            Ends-After accept d.server
              (After-mono accept d.server
                (λ info t accepted. record { holds = (told info t accepted).holds })
                (accept_friend_request-IsAccepted B id d.server))
              (λ t. refl))))
    where
      accept : Exec (Server B.State) Error FriendInfo
      accept = accept_friend_request_and_return_friend_info B id

      told :
          (info : FriendInfo) (t : Server B.State)
          → IsAccepted B id d.server info t
          → Ends
              (λ i e. IsAccepted B id d.server i e.server × IsTold caller i.nna.principal.pid d e)
              (λ e. e.sent ≡ d.sent)
              (do
                tell_accepted B caller info
                    (get t.connected info.nna.principal.pid)
                    (get t.connected caller)
                pure info)
              (record d { server = t })
      told info t accepted =
          Ends->>=
            (tell_accepted B caller info (get t.connected info.nna.principal.pid)
              (get t.connected caller))
            _ _
            (Ends-mono _ _
              (λ _ e h. record {
                holds = (IsAccepted-same id d.server info t e.server h.0 accepted, h.1);
              })
              (tell_accepted-IsTold caller info (get t.connected info.nna.principal.pid)
                (get t.connected caller) (record d { server = t })))

  -- CancelFriendRequest tells nobody if it fails; if it succeeds, no request with the id is left, and
  -- the recipient of one that had it, if connected, is told that the caller is gone.
  pub cancel_friend_request-tells :
      (caller : ℕ) (malformed : Bool) (id : ℕ) (d : Desk B.State)
      → Ends
          (λ _ e.
            (keep (has_id id) e.server.tables.requests ≡ [])
            × ((recipient : ℕ) × (Option.some recipient
                  ≡ map_recipient (first (has_id id) d.server.tables.requests))
                × (e.sent
                    ≡ d.sent
                      ++ notice_for
                          (get e.server.connected recipient)
                          (friendship_removed caller))))
          (λ e. e.sent ≡ d.sent)
          (cancel_friend_request B caller malformed id)
          d
  unfolding cancel_friend_request notify
  cancel_friend_request-tells caller malformed id d =
      Ends-decoded malformed invalid_argument _ d refl (
        Ends->>= (db request_error (delete_friend_request B id)) _ d (
          Ends-db request_error (delete_friend_request B id) d (
            Ends-After (delete_friend_request B id) d.server
              (After-mono (delete_friend_request B id) d.server
                (λ recipient t gone. record { holds = (gone.1, (recipient, gone.0, refl)) })
                (delete_friend_request-gone B id d.server))
              (λ t. refl))))
