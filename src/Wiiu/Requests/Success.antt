-- ===== src/Wiiu/Requests/Success.antt =====
-- Saving a request of save_friend_request.go goes through where nothing is refused.
use nn_friends.Prelude.{
  ℕ, String, ◌≡◌, sym, ◌∙◌, subst, [], Bool, true, false, Result, ok, err, recover, >>=-ok, nat_beq,
  if◌then◌else◌, ◌>>◌,
}
use nn_friends.Errors.{is_unresolved}
use nn_friends.Coregraph.Social.{RequestState, incomplete}
use nn_friends.Database.Rows.{first}
use nn_friends.Database.Backend.{Backend}
use nn_friends.Database.Server.{Server, statement, remote}
use nn_friends.Wiiu.Requests.{
  between, id_or_zero, resend, insert_new, store_request, is_friend_request_blocked,
  save_friend_request,
}

abbrev pub IsOk : {E A : Type 0} → Result E A → Type 0
IsOk (ok a) = Unit
IsOk (err e) = ⊥

module _ (B : Backend) (blocked : Bool) (sender recipient sent expire : ℕ) (message : String) where
  stored-IsOk :
      (s : Server B.State)
      → IsOk
          (store_request B blocked sender recipient sent expire message
            (record s { faults = [] })).0
  unfolding store_request insert_new resend statement
  stored-IsOk s =
      go (nat_beq (id_or_zero (first (between sender recipient) s.tables.requests)) 0) blocked
    where
      id : ℕ
      id = id_or_zero (first (between sender recipient) s.tables.requests)

      go :
          (missing b : Bool)
          → IsOk
              ((if missing
                  then insert_new B blocked sender recipient sent expire message
                  else resend B b id sent expire)
                (record s { faults = [] })).0
      go true b = tt
      go false true = tt
      go false false = tt

  -- Where the core answers whether the sender is blocked and takes the request, or resolves neither,
  -- and no statement is refused, saving a request succeeds.
  pub save_friend_request-IsOk :
      (s u v : Server B.State) (state : RequestState)
      → is_friend_request_blocked B recipient sender s ≡ (ok blocked, u)
      → recover (remote (B.request "wiiu" sender recipient)) is_unresolved incomplete u
        ≡ (ok state, v)
      → v.faults ≡ []
      → IsOk (save_friend_request B sender recipient sent expire message s).0
  unfolding save_friend_request
  save_friend_request-IsOk s u v state answer asked none_left =
      subst (λ p. IsOk p.0)
        (sym (
          >>=-ok (is_friend_request_blocked B recipient sender)
            (λ b.
              recover (remote (B.request "wiiu" sender recipient)) is_unresolved incomplete
              >> store_request B b sender recipient sent expire message)
            s answer
          ∙ >>=-ok (recover (remote (B.request "wiiu" sender recipient)) is_unresolved incomplete)
              (λ _. store_request B blocked sender recipient sent expire message) u asked))
        (subst
          (λ l.
            IsOk
              (store_request B blocked sender recipient sent expire message
                (record v { faults = l })).0)
          (sym none_left) (stored-IsOk v))
