-- ===== src/Coregraph/Social/Lists.antt =====
-- The lists of PIDs of coregraph/coregraph.go: who is skipped and who is not.
use nn_friends.Prelude.{
  ℕ, String, ◌≡◌, refl, ap, ◌∙◌, Option, none, some, List, [], ◌∷◌, Result, ok, err, ◌>>=◌, >>=-ok,
  Result-cases, inl, inr,
}
use nn_friends.Errors.{Error}
use nn_friends.Coregraph.Services.{Services}
use nn_friends.Coregraph.Client.{Client, account_of_pid, pid_of_account, answer_of}
use nn_friends.Coregraph.Client.Reverse.{
  IsCoherent, call-IsCoherent, account_of_pid-IsCoherent, AlwaysAnswers, always-PidsFromTable,
  pid_of_account-FromTable, pid_of_account_answer,
}
use nn_friends.Coregraph.Social.{pids_of, push_pid, friend_accounts, friend_pids}

-- The PIDs of the accounts that resolve, in the order of the accounts.
abbrev pub resolvable : (String → String → Option ℕ) → String → List String → List ℕ
resolvable table ns [] = []
resolvable table ns (a ∷ as') = elim (table ns a) [
  | none ↦ resolvable table ns as'
  | some p ↦ p ∷ resolvable table ns as'
]

push_pid-ok :
    (svc : Services) (p : ℕ) (r : Result Error (List ℕ) × Client svc.World) {ps : List ℕ}
    → r.0 ≡ ok ps
    → (push_pid svc p r).0 ≡ ok (p ∷ ps)
unfolding push_pid
push_pid-ok svc p (ok qs, s) e = cc
push_pid-ok svc p (err x, s) e = cc

module _ (svc : Services) (table : String → String → Option ℕ)
    (answers : AlwaysAnswers svc table) where
  pids_of-step :
      (ns a : String) (as' : List String) (s : Client svc.World) (o : Option ℕ)
      → (pid_of_account svc ns a s).0 ≡ answer_of o
      → table ns a ≡ o
      → (pids_of svc ns as' (pid_of_account svc ns a s).1).0 ≡ ok (resolvable table ns as')
      → (pids_of svc ns (a ∷ as') s).0 ≡ ok (resolvable table ns (a ∷ as'))
  unfolding pids_of
  pids_of-step ns a as' s none e t ih = rw (e, pids_of) (rw (t, resolvable) ih)
  pids_of-step ns a as' s (some p) e t ih =
      rw (e, pids_of) (rw (t, resolvable) (push_pid-ok svc p _ ih))

  pids_of-resolvable :
      (ns : String) (accounts : List String) (s : Client svc.World)
      → IsCoherent svc table s
      → (pids_of svc ns accounts s).0 ≡ ok (resolvable table ns accounts)
  unfolding pids_of push_pid
  pids_of-resolvable ns [] s h = refl
  pids_of-resolvable ns (a ∷ as') s h =
      let (_, t) =
        pid_of_account-FromTable svc table (always-PidsFromTable svc table answers) ns a s h in
      let ih = pids_of-resolvable ns as' (pid_of_account svc ns a s).1 t in
      let here = pid_of_account_answer svc table answers ns a s h in
      pids_of-step ns a as' s (table ns a) here refl ih

  friend_accounts-IsCoherent :
      (ns : String) (pid : ℕ) (s : Client svc.World)
      → IsCoherent svc table s
      → IsCoherent svc table (friend_accounts svc ns pid s).1
  unfolding friend_accounts
  friend_accounts-IsCoherent ns pid s h = elim (Result-cases (account_of_pid svc ns pid s).0) [
    | inl (a, e) ↦
        rw (e, ◌>>=◌)
          (call-IsCoherent svc table (svc.list_friends a) _
            (account_of_pid-IsCoherent svc table ns pid s h))
    | inr (x, e) ↦ rw (e, ◌>>=◌) (account_of_pid-IsCoherent svc table ns pid s h)
  ]

  -- With an adapter that answers from a table, the friend list is the core's list of accounts with
  -- every account that has no PID left out, in the core's order.
  pub friend_pids-resolvable :
      (ns : String) (pid : ℕ) (s : Client svc.World) {friends : List String}
      → IsCoherent svc table s
      → (friend_accounts svc ns pid s).0 ≡ ok friends
      → (friend_pids svc ns pid s).0 ≡ ok (resolvable table ns friends)
  unfolding friend_pids
  friend_pids-resolvable ns pid s {friends} h e =
      ap (λ (p : Result Error (List ℕ) × Client svc.World). p.0)
        (>>=-ok (friend_accounts svc ns pid) (pids_of svc ns) s
          {t = (friend_accounts svc ns pid s).1} (λ i. (e i, (friend_accounts svc ns pid s).1)))
      ∙ pids_of-resolvable ns friends (friend_accounts svc ns pid s).1
          (friend_accounts-IsCoherent ns pid s h)
