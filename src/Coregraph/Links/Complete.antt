-- ===== src/Coregraph/Links/Complete.antt =====
-- PIDsOfAccount of coregraph/coregraph.go misses no PID that nn-account resolves.
use nn_friends.Prelude.{
  ℕ, String, ◌≡◌, ◌≢◌, Option, none, some, sym, ◌⊎◌, List, [], ◌∷◌, ◌++◌, true, arith, contains,
  nat_beq, nat_eq, string_eq, pair_eq, OnOk, OnOk->>=, OnOk-and, OnOk-map, OnOk-any, subst,
  nat_beq_iff, ==_false, ap, ◌∙◌, Bool-cases, Option-cases, inl, inr, Result-cases,
}
use nn_friends.Errors.{is_unresolved}
use nn_friends.Coregraph.Services.{Services}
use nn_friends.Coregraph.Client.{Client, call, pid_of_account, answer_of}
use nn_friends.Coregraph.Client.Reverse.{
  PidsFromTable, IsCoherent, call-IsCoherent, pid_of_account-FromTable,
}
use nn_friends.Coregraph.Links.{add, add_links, add_resolved, pids_of_account}

contains-append_left :
    (q : ℕ) (ps : List ℕ) (p : ℕ) → contains q ps ≡ true → contains q (ps ++ p ∷ []) ≡ true
contains-append_left q [] p h = cc
contains-append_left q (x ∷ ps) p h = ground (arith, contains-append_left q ps p)

contains-append_last : (p : ℕ) (ps : List ℕ) → contains p (ps ++ p ∷ []) ≡ true
contains-append_last p [] = ground arith
contains-append_last p (x ∷ ps) = ground (arith, contains-append_last p ps)

contains-add_old : (q p : ℕ) (out : List ℕ) → contains q out ≡ true → contains q (add p out) ≡ true
unfolding add
contains-add_old q p out h = ground (arith, contains-append_left q out p)

contains-add_new : (p : ℕ) (out : List ℕ) → p ≢ 0 → contains p (add p out) ≡ true
unfolding add
contains-add_new p out h = ground (arith, contains-append_last p out)

-- A PID that the table has is listed, unless it is 0.
abbrev pub Listed : Option ℕ → List ℕ → Type 0
Listed none ps = Unit
Listed (some p) ps = (p ≡ 0) ⊎ (contains p ps ≡ true)

-- Every PID but 0 that the table has for one of the namespaces is listed.
abbrev pub Covers : (String → String → Option ℕ) → List String → String → List ℕ → Type 0
Covers table [] account ps = Unit
Covers table (ns ∷ nss) account ps = Listed (table ns account) ps × Covers table nss account ps

module _ (svc : Services) where
  add_resolved-keeps :
      (nss : List String) (account : String) (out : List ℕ) (s : Client svc.World) (q : ℕ)
      → contains q out ≡ true
      → OnOk (λ ps. contains q ps ≡ true) (add_resolved svc nss account out s).0
  unfolding add_resolved
  add_resolved-keeps [] account out s q h = h
  add_resolved-keeps (ns ∷ nss) account out s q h =
      elim (Result-cases (pid_of_account svc ns account s).0) [
        | inl (p, e) ↦
            rw (e, add_resolved)
              (add_resolved-keeps nss account (add p out) _ q (contains-add_old q p out h))
        | inr (x, e) ↦ elim (Bool-cases (is_unresolved x)) [
          | inl skip ↦ rw (e, skip, add_resolved) (add_resolved-keeps nss account out _ q h)
          | inr stop ↦ rw (e, stop, add_resolved) tt
        ]
      ]

  kept :
      (p : ℕ) (nss : List String) (account : String) (out : List ℕ) (s : Client svc.World)
      → OnOk (Listed (some p)) (add_resolved svc nss account (add p out) s).0
  kept p nss account out s = elim (Bool-cases (nat_beq p 0)) [
    | inl zero_pid ↦
        OnOk-map {P = λ _. Unit {0}} {R = Listed (some p)}
          (add_resolved svc nss account (add p out) s).0
          (λ ps _. inl ((nat_beq_iff p 0).0 zero_pid))
          (OnOk-any (add_resolved svc nss account (add p out) s).0)
    | inr other ↦
        OnOk-map {P = λ ps. contains p ps ≡ true} {R = Listed (some p)}
          (add_resolved svc nss account (add p out) s).0 (λ ps there. inr there)
          (add_resolved-keeps nss account (add p out) s p
            (contains-add_new p out (==_false p 0 other)))
  ]

module _ (svc : Services) (table : String → String → Option ℕ)
    (answers : PidsFromTable svc table) where
  add_resolved-Covers :
      (nss : List String) (account : String) (out : List ℕ) (s : Client svc.World)
      → IsCoherent svc table s
      → OnOk (Covers table nss account) (add_resolved svc nss account out s).0
  unfolding add_resolved
  add_resolved-Covers [] account out s h = tt
  add_resolved-Covers (ns ∷ nss) account out s h =
      let (says, t) = pid_of_account-FromTable svc table answers ns account s h in
      elim says [
        | inr (c, e) ↦ rw (e, add_resolved) tt
        | inl e ↦ elim (Option-cases (table ns account)) [
          | inl unknown ↦
              rw (e ∙ ap answer_of unknown, add_resolved)
                (OnOk-map {P = Covers table nss account}
                  (add_resolved svc nss account out (pid_of_account svc ns account s).1).0
                  (λ ps rest. (subst (λ o. Listed o ps) (sym unknown) tt, rest))
                  (add_resolved-Covers nss account out _ t))
          | inr (p, known) ↦
              rw (e ∙ ap answer_of known, add_resolved)
                (OnOk-and {P = Listed (some p)} {Q = Covers table nss account}
                  (add_resolved svc nss account (add p out) (pid_of_account svc ns account s).1).0
                  (λ ps here rest. (subst (λ o. Listed o ps) (sym known) here, rest))
                  (kept svc p nss account out _) (add_resolved-Covers nss account (add p out) _ t))
        ]
      ]

  -- If nn-account answers from a fixed table and the client is in step with it, a successful answer
  -- has every PID but 0 that the table gives the account on either console.
  pub pids_of_account-Covers :
      (account : String) (s : Client svc.World)
      → IsCoherent svc table s
      → OnOk (Covers table ("wiiu" ∷ "3ds" ∷ []) account) (pids_of_account svc account s).0
  unfolding pids_of_account
  pids_of_account-Covers account s h = simp h.on (
      OnOk->>= (Covers table ("wiiu" ∷ "3ds" ∷ []) account)
        (call svc (svc.list_account_links account))
        (λ links. add_resolved svc ("wiiu" ∷ "3ds" ∷ []) account (add_links links [])) s
        (λ links _.
          add_resolved-Covers ("wiiu" ∷ "3ds" ∷ []) account (add_links links []) _
            (call-IsCoherent svc table (svc.list_account_links account) s h)))
