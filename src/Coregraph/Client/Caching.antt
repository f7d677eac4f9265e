-- ===== src/Coregraph/Client/Caching.antt =====
-- The resolution caches of coregraph/coregraph.go change no answer and save calls.
use nn_friends.Prelude.{
  ℕ, String, ◌≡◌, ◌⊎◌, inl, inr, refl, Option, none, some, true, Result, ok, err, arith, nat_eq,
  string_eq, pair_eq, Bool-cases, Option-cases, ◌∙◌, ap,
}
use nn_friends.Prelude.Dict.{get, get-put_cases, get-put_self}
use nn_friends.Errors.{Code, Error, rpc}
use nn_friends.Coregraph.Services.{Services}
use nn_friends.Coregraph.Client.{
  Client, CacheEntry, fresh, entry_for, answer_of, learn_account, account_of_pid,
}

pub fresh-entry_for :
    {A : Type 0} (o : Option A) (now : ℕ)
    → fresh (some (entry_for o now)) now ≡ some (entry_for o now)
unfolding fresh entry_for
fresh-entry_for none now = ground arith
fresh-entry_for (some a) now = ground arith

pub answer-entry_for : {A : Type 0} (o : Option A) (now : ℕ) → (entry_for o now).answer ≡ o
unfolding entry_for
answer-entry_for none now = refl
answer-entry_for (some a) now = refl

pub fresh-some :
    {A : Type 0} (o : Option (CacheEntry A)) (now : ℕ) (e : CacheEntry A)
    → fresh o now ≡ some e
    → o ≡ some e
unfolding fresh
fresh-some none now e h = cc
fresh-some (some x) now e h = ground arith

-- The adapter or the core answered, with a value or with "not resolvable".
abbrev pub IsAnswer : {A : Type 0} → Result Error A → Type 0
IsAnswer (ok a) = Unit
IsAnswer (err (rpc c)) = ⊥
IsAnswer (err _) = Unit

-- A response of the adapter, if there is one, is what the table of bindings says.
abbrev pub Says : {A : Type 0} → Option A → Result Code (Option A) → Type 0
Says o (ok a) = a ≡ o
Says o (err c) = Unit

-- The answer of the table, or a gRPC error.
abbrev pub FromTable : {A : Type 0} → Option A → Result Error A → Type 0
FromTable o r = (r ≡ answer_of o) ⊎ ((c : Code) × (r ≡ err (rpc c)))

module _ (svc : Services) where
  fresh_hit :
      (ns : String) (pid : ℕ) (s : Client svc.World) (e : CacheEntry String)
      → s.configured ≡ true
      → fresh (get s.fwd (ns, pid)) (svc.now s.world) ≡ some e
      → account_of_pid svc ns pid s ≡ (answer_of e.answer, s)
  unfolding account_of_pid
  fresh_hit ns pid s e c h = simp (c, h)

  fresh_miss :
      (ns : String) (pid : ℕ) (s : Client svc.World)
      → s.configured ≡ true
      → fresh (get s.fwd (ns, pid)) (svc.now s.world) ≡ none
      → account_of_pid svc ns pid s ≡ learn_account svc ns pid (svc.resolve_pid ns pid s.world) s
  unfolding account_of_pid
  fresh_miss ns pid s c h = simp (c, h)

  account_learned :
      (ns : String) (pid : ℕ) (a : Result Code (Option String) × svc.World) (s : Client svc.World)
      → s.configured ≡ true
      → IsAnswer (learn_account svc ns pid a s).0
      → account_of_pid svc ns pid (learn_account svc ns pid a s).1 ≡ learn_account svc ns pid a s
  unfolding learn_account
  account_learned ns pid (ok found, w) s c h =
      fresh_hit ns pid _ (entry_for found (svc.now w)) c
        (rw get-put_self (fresh-entry_for found (svc.now w)))
      ∙ rw (answer-entry_for found (svc.now w)) refl
  account_learned ns pid (err x, w) s c h = absurd h

  -- Asking again at once gives the same answer and changes nothing, so it calls nobody.
  pub account_of_pid_again :
      (ns : String) (pid : ℕ) (s : Client svc.World)
      → IsAnswer (account_of_pid svc ns pid s).0
      → account_of_pid svc ns pid (account_of_pid svc ns pid s).1 ≡ account_of_pid svc ns pid s
  account_of_pid_again ns pid s h = elim (Bool-cases s.configured) [
    | inr off ↦ unfold account_of_pid in simp off
    | inl on ↦ elim (Option-cases (fresh (get s.fwd (ns, pid)) (svc.now s.world))) [
      | inr (e, hit) ↦ simp (fresh_hit ns pid s e on hit)
      | inl miss ↦
          let step = fresh_miss ns pid s on miss in
          rw step (account_learned ns pid (svc.resolve_pid ns pid s.world) s on (rw step at h))
    ]
  ]

module _ (svc : Services) (table : String → ℕ → Option String) where
  -- nn-account binds a PID to one account: ResolvePid answers from a fixed table.
  abbrev pub AccountsFromTable : Type 0
  AccountsFromTable =
      (ns : String) (pid : ℕ) (w : svc.World) → Says (table ns pid) (svc.resolve_pid ns pid w).0

  -- The client is configured, and every cached answer, expired or not, is the table's.
  pub record IsCoherent (s : Client svc.World) : Type 0 where
    pub on : s.configured ≡ true
    pub cached :
        (ns : String) (pid : ℕ) (e : CacheEntry String)
        → get s.fwd (ns, pid) ≡ some e
        → e.answer ≡ table ns pid

  learn_account-FromTable :
      (ns : String) (pid : ℕ) (a : Result Code (Option String) × svc.World) (s : Client svc.World)
      → Says (table ns pid) a.0
      → IsCoherent s
      → FromTable (table ns pid) (learn_account svc ns pid a s).0
        × IsCoherent (learn_account svc ns pid a s).1
  unfolding learn_account
  learn_account-FromTable ns pid (ok found, w) s says h = (
    inl (rw says),
    record {
      on = h.on;
      cached = λ ns' pid' e g.
          elim (get-put_cases s.fwd (ns, pid) (ns', pid') (entry_for found (svc.now w)) g) [
            | inl (at, is) ↦ rw (← is) (
                answer-entry_for found (svc.now w)
                ∙ says
                ∙ ap (λ (k : String × ℕ). table k.0 k.1) at)
            | inr old ↦ h.cached ns' pid' e old
          ];
    },
  )
  learn_account-FromTable ns pid (err c, w) s says h =
      (inr (c, refl), record { on = h.on; cached = h.cached })

  -- If nn-account answers from a fixed table and the client is in step with it, the answer is the
  -- table's or a gRPC error, cached or not, and the client stays in step.
  pub account_of_pid-FromTable :
      AccountsFromTable
      → (ns : String) (pid : ℕ) (s : Client svc.World) → IsCoherent s
      → FromTable (table ns pid) (account_of_pid svc ns pid s).0
        × IsCoherent (account_of_pid svc ns pid s).1
  account_of_pid-FromTable answers ns pid s h =
      elim (Option-cases (fresh (get s.fwd (ns, pid)) (svc.now s.world))) [
        | inr (e, hit) ↦
            rw (fresh_hit svc ns pid s e h.on hit)
              (inl (ap answer_of (h.cached ns pid e (fresh-some _ _ e hit))), h)
        | inl miss ↦
            rw (fresh_miss svc ns pid s h.on miss)
              (learn_account-FromTable ns pid _ s (answers ns pid s.world) h)
      ]
