-- ===== src/Desk/Wiiu/Asking.antt =====
-- What asking for a friendship does: add_friend_request.go with save_friend_request.go.
use nn_friends.Prelude.{
  ℕ, ◌+◌, ◌≡◌, refl, subst, String, List, ◌++◌, Bool, Result, ok, err, ◌>>=◌, ◌>>◌, pure, fail,
  After, After-mono, After-same, After-fail, After-and, Ends, Ends->>=, Ends-After, >>=-err, nat_eq,
  recover,
}
use nn_friends.Prelude.Dict.{get}
use nn_friends.Errors.{Error, is_unresolved}
use nn_friends.Coregraph.Social.{incomplete}
use nn_friends.Database.Tables.{FriendRequest}
use nn_friends.Database.Backend.{Backend}
use nn_friends.Database.Server.{Server, remote}
use nn_friends.Wiiu.Profiles.{PrincipalInfo, get_user_principal_basic_info}
use nn_friends.Wiiu.Profiles.Reads.{Kept, HasKept, kept_of, get_user_principal_basic_info-EndsWith}
use nn_friends.Wiiu.Requests.{is_friend_request_blocked, store_request, save_friend_request}
use nn_friends.Wiiu.Requests.Saving.{IsSaved, save_friend_request-IsSaved}
use nn_friends.Wiiu.Listing.{Listed}
use nn_friends.Wiiu.Accepting.Laws.{get_user_principal_basic_info-pid}
use nn_friends.Desk.{Desk, friend_request, invalid_argument, db, notify, notice_for}
use nn_friends.Desk.Sending.{Ends-db, Ends-decoded}
use nn_friends.Desk.Wiiu.{
  add_friend_request, or_unknown, principal_error, request_lifetime, sent_request,
}

module _ (B : Backend) where
  -- The request stands in the table as SaveFriendRequest promises, the reply is about the person
  -- asked, and that person, if connected, is told once of the same request, from the caller.
  pub record IsAsked (caller pid : ℕ) (d : Desk B.State) (reply : Listed) (e : Desk B.State)
      : Type 0 where
    pub blocked : Bool
    pub saved :
        IsSaved blocked caller pid reply.sent_on reply.expires_on d.server.tables.requests reply.id
          e.server.tables.requests
    pub asked : reply.principal.pid ≡ pid
    pub news : Listed
    pub told : e.sent ≡ d.sent ++ notice_for (get e.server.connected pid) (friend_request news)
    pub same : news.id ≡ reply.id
    pub asker : news.principal.pid ≡ caller

  save_any :
      (sender recipient sent expire : ℕ) (message : String) (rs : List FriendRequest)
      (s : Server B.State)
      → s.tables.requests ≡ rs
      → After
          (λ id t.
            (blocked : Bool) × IsSaved blocked sender recipient sent expire rs id t.tables.requests)
          (save_friend_request B sender recipient sent expire message)
          s
  unfolding save_friend_request
  save_any sender recipient sent expire message rs s same =
      go (is_friend_request_blocked B recipient sender s) refl
    where
      Saved : ℕ → Server B.State → Type 0
      Saved id t =
          (blocked : Bool) × IsSaved blocked sender recipient sent expire rs id t.tables.requests

      go :
          (p : Result Error Bool × Server B.State)
          → is_friend_request_blocked B recipient sender s ≡ p
          → After Saved (save_friend_request B sender recipient sent expire message) s
      go (ok b, u) answer =
          After-mono (save_friend_request B sender recipient sent expire message) s
            (λ id t saved. (
              b,
              subst (λ l. IsSaved b sender recipient sent expire l id t.tables.requests) same saved,
            ))
            (save_friend_request-IsSaved B sender recipient sent expire message b s u answer)
      go (err x, u) answer =
          After-same (save_friend_request B sender recipient sent expire message) (fail x) s u
            (>>=-err (is_friend_request_blocked B recipient sender)
              (λ blocked.
                recover (remote (B.request "wiiu" sender recipient)) is_unresolved incomplete
                >> store_request B blocked sender recipient sent expire message)
              s answer)
            (After-fail x u)

  -- Reading the name of a person leaves the requests alone.
  principal_read :
      (pid : ℕ) (rs : Kept) (s : Server B.State)
      → HasKept rs s
      → After (λ i t. (i.pid ≡ pid) × HasKept rs t) (get_user_principal_basic_info B pid) s
  principal_read pid rs s same =
      After-and (get_user_principal_basic_info B pid) s (get_user_principal_basic_info-pid B pid s)
        (get_user_principal_basic_info-EndsWith B rs pid s same)

  -- AddFriendRequest either fails and tells nobody; or the request of the caller to `pid` is saved,
  -- no request with another id is changed, the reply names `pid` and the request's id, and `pid`, if
  -- connected, is sent one notification, of that id and from the caller, and nobody else is sent any.
  pub add_friend_request-IsAsked :
      (caller : ℕ) (malformed : Bool) (pid : ℕ) (message : String) (d : Desk B.State)
      → Ends
          (IsAsked caller pid d)
          (λ e. e.sent ≡ d.sent)
          (add_friend_request B caller malformed pid message)
          d
  unfolding add_friend_request notify
  add_friend_request-IsAsked caller malformed pid message d =
      Ends-decoded malformed invalid_argument _ d refl (
        Ends->>= (db or_unknown (get_user_principal_basic_info B caller)) _ d (
          Ends-db or_unknown (get_user_principal_basic_info B caller) d (
            Ends-After (get_user_principal_basic_info B caller) d.server
              (After-mono (get_user_principal_basic_info B caller) d.server
                (λ sender s from.
                  Ends->>= (db principal_error (get_user_principal_basic_info B pid)) _ _ (
                    Ends-db principal_error (get_user_principal_basic_info B pid) _ (
                      Ends-After (get_user_principal_basic_info B pid) s
                        (After-mono (get_user_principal_basic_info B pid) s
                          (λ recipient t to. record {
                            holds = (asked sender recipient t from.0 to).holds;
                          })
                          (principal_read pid rs s from.1))
                        (λ t. refl))))
                (principal_read caller rs d.server (refl, refl)))
              (λ t. refl))))
    where
      rs : Kept
      rs = kept_of d.server

      asked :
          (sender recipient : PrincipalInfo) (t : Server B.State)
          → sender.pid ≡ caller
          → (recipient.pid ≡ pid) × HasKept rs t
          → Ends
              (IsAsked caller pid d)
              (λ e. e.sent ≡ d.sent)
              (do
                id ← db or_unknown (
                    save_friend_request B caller pid
                      (B.stamp (B.now t.backend))
                      (B.stamp (B.now t.backend + request_lifetime))
                      message)
                notify pid (
                    friend_request (
                      sent_request sender id message
                        (B.stamp (B.now t.backend))
                        (B.stamp (B.now t.backend + request_lifetime))))
                pure (
                    sent_request recipient id message
                      (B.stamp (B.now t.backend))
                      (B.stamp (B.now t.backend + request_lifetime))))
              (record d { server = t })
      asked sender recipient t from (to, same) =
          Ends->>=
            (db or_unknown (
              save_friend_request B caller pid (B.stamp (B.now t.backend))
                (B.stamp (B.now t.backend + request_lifetime)) message))
            _ _
            (Ends-db or_unknown _ _ (
              Ends-After _ t
                (After-mono _ t
                  (λ id u (blocked, saved). record {
                    holds = record {
                      blocked = blocked;
                      saved = saved;
                      asked = to;
                      news =
                          sent_request sender id message (B.stamp (B.now t.backend))
                            (B.stamp (B.now t.backend + request_lifetime));
                      told = refl;
                      same = refl;
                      asker = from;
                    };
                  })
                  (save_any caller pid _ _ message rs.0 t same.0))
                (λ u. refl)))
