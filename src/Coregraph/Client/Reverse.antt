-- ===== src/Coregraph/Client/Reverse.antt =====
-- The cache from accounts to PIDs of coregraph/coregraph.go, as Client/Caching has the other one.
use nn_friends.Prelude.{
  ℕ, String, ◌≡◌, inl, inr, refl, Option, none, some, true, Exec, Result, ok, err, nat_eq,
  string_eq, pair_eq, Bool-cases, Option-cases, Result-cases, ◌∙◌, ap,
}
use nn_friends.Prelude.Dict.{get, get-put_cases, get-put_self}
use nn_friends.Errors.{Code}
use nn_friends.Coregraph.Services.{Services}
use nn_friends.Coregraph.Client.Caching.{
  fresh-entry_for, answer-entry_for, fresh-some, IsAnswer, Says, FromTable,
}
use nn_friends.Coregraph.Client.{
  Client, CacheEntry, fresh, entry_for, answer_of, learn_pid, call, learn_account, account_of_pid,
  learn_pid, pid_of_account,
}

module _ (svc : Services) where
  fresh_hit :
      (ns account : String) (s : Client svc.World) (e : CacheEntry ℕ)
      → s.configured ≡ true
      → fresh (get s.rev (ns, account)) (svc.now s.world) ≡ some e
      → pid_of_account svc ns account s ≡ (answer_of e.answer, s)
  unfolding pid_of_account
  fresh_hit ns account s e c h = simp (c, h)

  fresh_miss :
      (ns account : String) (s : Client svc.World)
      → s.configured ≡ true
      → fresh (get s.rev (ns, account)) (svc.now s.world) ≡ none
      → pid_of_account svc ns account s
        ≡ learn_pid svc ns account (svc.resolve_account ns account s.world) s
  unfolding pid_of_account
  fresh_miss ns account s c h = simp (c, h)

  pid_learned :
      (ns account : String) (a : Result Code (Option ℕ) × svc.World) (s : Client svc.World)
      → s.configured ≡ true
      → IsAnswer (learn_pid svc ns account a s).0
      → pid_of_account svc ns account (learn_pid svc ns account a s).1
        ≡ learn_pid svc ns account a s
  unfolding learn_pid
  pid_learned ns account (ok found, w) s c h =
      fresh_hit ns account _ (entry_for found (svc.now w)) c
        (rw get-put_self (fresh-entry_for found (svc.now w)))
      ∙ rw (answer-entry_for found (svc.now w)) refl
  pid_learned ns account (err x, w) s c h = absurd h

  -- Asking again at once gives the same answer and changes nothing, so it calls nobody.
  pub pid_of_account_again :
      (ns account : String) (s : Client svc.World)
      → IsAnswer (pid_of_account svc ns account s).0
      → pid_of_account svc ns account (pid_of_account svc ns account s).1
        ≡ pid_of_account svc ns account s
  pid_of_account_again ns account s h = elim (Bool-cases s.configured) [
    | inr off ↦ unfold pid_of_account in simp off
    | inl on ↦ elim (Option-cases (fresh (get s.rev (ns, account)) (svc.now s.world))) [
      | inr (e, hit) ↦ simp (fresh_hit ns account s e on hit)
      | inl miss ↦
          let step = fresh_miss ns account s on miss in
          rw step
            (pid_learned ns account (svc.resolve_account ns account s.world) s on (rw step at h))
    ]
  ]

module _ (svc : Services) (table : String → String → Option ℕ) where
  -- nn-account knows one PID of an account in a namespace: ResolveAccount answers from a fixed table.
  abbrev pub PidsFromTable : Type 0
  PidsFromTable =
      (ns account : String) (w : svc.World)
      → Says (table ns account) (svc.resolve_account ns account w).0

  -- The client is configured, and every cached answer, expired or not, is the table's.
  pub record IsCoherent (s : Client svc.World) : Type 0 where
    pub on : s.configured ≡ true
    pub cached :
        (ns account : String) (e : CacheEntry ℕ)
        → get s.rev (ns, account) ≡ some e
        → e.answer ≡ table ns account

  learn_pid-FromTable :
      (ns account : String) (a : Result Code (Option ℕ) × svc.World) (s : Client svc.World)
      → Says (table ns account) a.0
      → IsCoherent s
      → FromTable (table ns account) (learn_pid svc ns account a s).0
        × IsCoherent (learn_pid svc ns account a s).1
  unfolding learn_pid
  learn_pid-FromTable ns account (ok found, w) s says h = (
    inl (rw says),
    record {
      on = h.on;
      cached = λ ns' account' e g.
          elim (get-put_cases s.rev (ns, account) (ns', account') (entry_for found (svc.now w)) g) [
            | inl (at, is) ↦ rw (← is) (
                answer-entry_for found (svc.now w)
                ∙ says
                ∙ ap (λ (k : String × String). table k.0 k.1) at)
            | inr old ↦ h.cached ns' account' e old
          ];
    },
  )
  learn_pid-FromTable ns account (err c, w) s says h =
      (inr (c, refl), record { on = h.on; cached = h.cached })

  pub pid_of_account-FromTable :
      PidsFromTable
      → (ns account : String) (s : Client svc.World) → IsCoherent s
      → FromTable (table ns account) (pid_of_account svc ns account s).0
        × IsCoherent (pid_of_account svc ns account s).1
  pid_of_account-FromTable answers ns account s h =
      elim (Option-cases (fresh (get s.rev (ns, account)) (svc.now s.world))) [
        | inr (e, hit) ↦
            rw (fresh_hit svc ns account s e h.on hit)
              (inl (ap answer_of (h.cached ns account e (fresh-some _ _ e hit))), h)
        | inl miss ↦
            rw (fresh_miss svc ns account s h.on miss)
              (learn_pid-FromTable ns account _ s (answers ns account s.world) h)
      ]

  -- nn-account always answers, and from the table.
  abbrev pub AlwaysAnswers : Type 0
  AlwaysAnswers =
      (ns account : String) (w : svc.World)
      → (svc.resolve_account ns account w).0 ≡ ok (table ns account)

  pub always-PidsFromTable : AlwaysAnswers → PidsFromTable
  always-PidsFromTable answers ns account w = rw (answers ns account w) refl

  learned_answer :
      (ns account : String) (a : Result Code (Option ℕ) × svc.World) (s : Client svc.World)
      → a.0 ≡ ok (table ns account)
      → (learn_pid svc ns account a s).0 ≡ answer_of (table ns account)
  unfolding learn_pid
  learned_answer ns account (ok found, w) s e = ap answer_of (cc)
  learned_answer ns account (err c, w) s e = cc

  pub pid_of_account_answer :
      AlwaysAnswers
      → (ns account : String) (s : Client svc.World) → IsCoherent s
      → (pid_of_account svc ns account s).0 ≡ answer_of (table ns account)
  pid_of_account_answer answers ns account s h =
      elim (Option-cases (fresh (get s.rev (ns, account)) (svc.now s.world))) [
        | inr (e, hit) ↦
            rw (fresh_hit svc ns account s e h.on hit)
              (ap answer_of (h.cached ns account e (fresh-some _ _ e hit)))
        | inl miss ↦
            rw (fresh_miss svc ns account s h.on miss)
              (learned_answer ns account _ s (answers ns account s.world))
      ]

  pub call-IsCoherent :
      {A : Type 0} (m : Exec svc.World Code A) (s : Client svc.World)
      → IsCoherent s
      → IsCoherent (call svc m s).1
  unfolding call
  call-IsCoherent m s h = elim (Result-cases (m s.world).0) [
    | inl (a, e) ↦ rw (e, call) (record { on = h.on; cached = h.cached })
    | inr (c, e) ↦ rw (e, call) (record { on = h.on; cached = h.cached })
  ]

  learn_account-IsCoherent :
      (ns : String) (pid : ℕ) (a : Result Code (Option String) × svc.World) (s : Client svc.World)
      → IsCoherent s
      → IsCoherent (learn_account svc ns pid a s).1
  unfolding learn_account
  learn_account-IsCoherent ns pid (ok found, w) s h = record { on = h.on; cached = h.cached }
  learn_account-IsCoherent ns pid (err c, w) s h = record { on = h.on; cached = h.cached }

  pub account_of_pid-IsCoherent :
      (ns : String) (pid : ℕ) (s : Client svc.World)
      → IsCoherent s
      → IsCoherent (account_of_pid svc ns pid s).1
  unfolding account_of_pid
  account_of_pid-IsCoherent ns pid s h =
      elim (Option-cases (fresh (get s.fwd (ns, pid)) (svc.now s.world))) [
        | inr (e, hit) ↦ simp (h.on, hit) h
        | inl miss ↦
            simp (h.on, miss) (learn_account-IsCoherent ns pid (svc.resolve_pid ns pid s.world) s h)
      ]
