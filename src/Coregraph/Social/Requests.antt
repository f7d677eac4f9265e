-- ===== src/Coregraph/Social/Requests.antt =====
-- `Request` of coregraph/coregraph.go, on every answer that the core can give.
use nn_friends.Prelude.{
  ℕ, String, ◌≡◌, refl, Result, ok, err, ap, ◌∙◌, >>=-ok, ◌>>=◌, Result-cases, inl, inr,
}
use nn_friends.Errors.{
  Code, Error, rpc, failed_precondition, invalid_argument, unimplemented, other,
}
use nn_friends.Coregraph.Services.{Services, FriendState, accepted, pending}
use nn_friends.Coregraph.Client.{Client, call, account_of_pid}
use nn_friends.Coregraph.Social.{
  RequestState, incomplete, complete, request, request_between, request_answered, request_refused,
  request_pending, accept_request,
}

-- What a request comes to: `accepting` is the outcome of accepting the other side's request.
abbrev pub outcome : Result Code FriendState → Result Error (Unit {0}) → Result Error RequestState
outcome (ok accepted) accepting = ok complete
outcome (ok pending) accepting = ok incomplete
outcome (err failed_precondition) (ok _) = ok complete
outcome (err failed_precondition) (err _) = err (rpc failed_precondition)
outcome (err c) accepting = err (rpc c)

module _ (svc : Services) (ns : String) (from_pid to_pid : ℕ) where
  request_answered-outcome :
      (from to : String) (r : Result Code FriendState) (w : svc.World) (s : Client svc.World)
      → let s' = record s { world = w } in
        (request_answered svc ns from_pid to_pid from to (call svc (λ _. (r, w)) s)).0
        ≡ outcome r (accept_request svc ns from_pid to_pid s').0
  unfolding request_answered request_refused request_pending call
  request_answered-outcome from to (ok accepted) w s = refl
  request_answered-outcome from to (ok pending) w s = refl
  request_answered-outcome from to (err failed_precondition) w s =
      elim (Result-cases (accept_request svc ns from_pid to_pid (record s { world = w })).0) [
        | inl (u, e) ↦ rw e
        | inr (x, e) ↦ rw e
      ]
  request_answered-outcome from to (err invalid_argument) w s = refl
  request_answered-outcome from to (err unimplemented) w s = refl
  request_answered-outcome from to (err other) w s = refl

  -- Once both PIDs are resolved the outcome turns on the core's answer alone: ACCEPTED completes,
  -- PENDING is incomplete, a refused precondition completes exactly when the other side's request
  -- can be accepted and is the error otherwise, and any other failure is passed on.
  pub request-outcome :
      (from to : String) (s t u : Client svc.World)
      → account_of_pid svc ns from_pid s ≡ (ok from, t)
      → account_of_pid svc ns to_pid t ≡ (ok to, u)
      → let (r, w) = svc.request_friend from to (ns, from_pid, to_pid) u.world in
        (request svc ns from_pid to_pid s).0
        ≡ outcome r (accept_request svc ns from_pid to_pid (record u { world = w })).0
  unfolding request call
  request-outcome from to s t u e f =
      ap (λ (p : Result Error RequestState × Client svc.World). p.0)
        (>>=-ok (account_of_pid svc ns from_pid)
            (λ a. account_of_pid svc ns to_pid >>= request_between svc ns from_pid to_pid a) s e
          ∙ >>=-ok (account_of_pid svc ns to_pid) (request_between svc ns from_pid to_pid from) t f)
      ∙ request_answered-outcome from to
          (svc.request_friend from to (ns, from_pid, to_pid) u.world).0
          (svc.request_friend from to (ns, from_pid, to_pid) u.world).1 u
