-- ===== src/Presence/Publisher/Reconciled.antt =====
-- What a pass of the publisher leaves.
use nn_friends.Prelude.{
  ℕ, String, ◌≡◌, ◌≢◌, refl, sym, ◌∙◌, subst, Option, none, some, List, [], ◌∷◌, true, false, not,
  ◌&&◌, Result, ok, err, All, arith, if◌then◌else◌, ◌==◌, Distinct, nat_eq, string_eq, contains,
  nat_beq, nat_beq_iff, Bool-cases, inl, inr,
}
use nn_friends.Prelude.Dict.{get, remove, keys, get-remove, get-put, get-put_self, get_no_key}
use nn_friends.Errors.{Error}
use nn_friends.Presence.Publisher.{
  Online, Published, Core, Publisher, matches, publish, registered, resolved, register_locked,
  expired, expire_locked, beaten, updated, update_all, sweep, pids_of, reconcile,
}

module _ {W : Type 0} (core : Core W) where
  -- What is published for a PID, if anything, is what `o` says.
  abbrev pub Agrees : Online → Option Published → Type 0
  Agrees o none = Unit
  Agrees o (some cur) =
      (cur.namespace ≡ o.namespace)
      × (cur.title ≡ o.title_id)
      × (cur.client ≡ o.client)
      × (cur.os ≡ o.os)

  matches-Agrees : (cur : Published) (o : Online) → matches cur o ≡ true → Agrees o (some cur)
  matches-Agrees cur o same = ground (
    arith,
    same,
    string_eq.beq_iff cur.namespace o.namespace,
    string_eq.beq_iff cur.title o.title_id,
    string_eq.beq_iff cur.client o.client,
    string_eq.beq_iff cur.os o.os,
  )

  expire_locked-live :
      (pid q : ℕ) (p : Publisher W)
      → get (expire_locked core pid p).live q ≡ (if nat_beq pid q then none else get p.live q)
  unfolding expire_locked
  expire_locked-live pid q p = go (get p.live pid) refl
    where
      go :
          (o : Option Published)
          → get p.live pid ≡ o
          → get (expired core pid o p).live q ≡ (if nat_beq pid q then none else get p.live q)
      go none e = ground (arith, e, nat_beq_iff pid q)
      go (some cur) e = ground (arith, get-remove p.live pid q, nat_beq_iff pid q)

  sweep-live :
      (seen pids : List ℕ) (p : Publisher W) (q : ℕ)
      → get (sweep core seen pids p).live q
        ≡ (if contains q pids && not (contains q seen) then none else get p.live q)
  unfolding sweep
  sweep-live seen [] p q = refl
  sweep-live seen (pid ∷ pids) p q = elim (Bool-cases (contains pid seen)) [
    | inl here ↦
        simp (here)
          (ground (arith, sweep-live seen pids p q, nat_beq_iff pid q, nat_beq_iff q pid, here))
    | inr gone ↦ simp (gone) (
        ground (
          arith,
          sweep-live seen pids (expire_locked core pid p) q,
          expire_locked-live pid q p,
          nat_beq_iff pid q,
          nat_beq_iff q pid,
          gone,
        ))
  ]

  -- After a pass, nothing is published for a PID that is not connected.
  pub reconcile-gone :
      (online : List Online) (p : Publisher W) (q : ℕ)
      → contains q (pids_of online) ≡ false
      → get (reconcile core online p).live q ≡ none
  unfolding reconcile
  reconcile-gone online p q gone = go (update_all core online p)
    where
      go : (r : Publisher W) → get (sweep core (pids_of online) (keys r.live) r).live q ≡ none
      go r =
          ground (arith, sweep-live (pids_of online) (keys r.live) r q, get_no_key r.live q, gone)

  register_locked-live :
      (o : Online) (q : ℕ) (p : Publisher W)
      → o.pid ≢ q
      → get (register_locked core o p).live q ≡ get p.live q
  unfolding register_locked
  register_locked-live o q p differ = answered (core.account_of o.namespace o.pid p.world)
    where
      given :
          (account : String) (r : Result Error String × W)
          → get (registered core account o r p.live).live q ≡ get p.live q
      given account (err e, w) = refl
      given account (ok session, w) =
          ground
            (arith, get-put p.live o.pid q (publish session account o), nat_beq_iff o.pid q, differ)

      answered :
          (r : Result Error String × W) → get (resolved core o r p.live).live q ≡ get p.live q
      answered (err e, w) = refl
      answered (ok account, w) = elim (Bool-cases (account == "")) [
        | inl nobody ↦ simp (nobody) refl
        | inr somebody ↦ simp (somebody) (given account (core.register_session account o w))
      ]

  updated-other :
      (o : Online) (q : ℕ) (p : Publisher W)
      → o.pid ≢ q
      → get (updated core o (get p.live o.pid) p).live q ≡ get p.live q
  updated-other o q p differ = go (get p.live o.pid)
    where
      beat : (r : Result Error (Unit {0}) × W) → get (beaten core o r p).live q ≡ get p.live q
      beat (ok _, w) = refl
      beat (err e, w) =
          register_locked-live o q (record { live = remove p.live o.pid; world = w }) differ
          ∙ ground (arith, get-remove p.live o.pid q, nat_beq_iff o.pid q, differ)

      go : (cur : Option Published) → get (updated core o cur p).live q ≡ get p.live q
      go none = register_locked-live o q p differ
      go (some cur) = elim (Bool-cases (matches cur o)) [
        | inl same ↦ simp (same) (beat (core.heartbeat cur.session_id p.world))
        | inr new ↦ simp (new) (
            register_locked-live o q (expire_locked core o.pid p) differ
            ∙ ground (arith, expire_locked-live o.pid q p, nat_beq_iff o.pid q, differ))
      ]

  -- Registering where nothing is published publishes what is asked, or nothing.
  register_locked-Agrees :
      (o : Online) (p : Publisher W)
      → get p.live o.pid ≡ none
      → Agrees o (get (register_locked core o p).live o.pid)
  unfolding register_locked
  register_locked-Agrees o p absent = answered (core.account_of o.namespace o.pid p.world)
    where
      published : (account session : String) → Agrees o (some (publish session account o))
      published account session = (refl, refl, refl, refl)

      nothing : Agrees o (get p.live o.pid)
      nothing = subst (Agrees o) (sym absent) tt

      given :
          (account : String) (r : Result Error String × W)
          → Agrees o (get (registered core account o r p.live).live o.pid)
      given account (err e, w) = nothing
      given account (ok session, w) =
          subst (Agrees o) (sym (get-put_self p.live o.pid (publish session account o)))
            (published account session)

      answered :
          (r : Result Error String × W) → Agrees o (get (resolved core o r p.live).live o.pid)
      answered (err e, w) = nothing
      answered (ok account, w) = elim (Bool-cases (account == "")) [
        | inl nobody ↦ simp (nobody) nothing
        | inr somebody ↦ simp (somebody) (given account (core.register_session account o w))
      ]

  updated-Agrees :
      (o : Online) (p : Publisher W)
      → Agrees o (get (updated core o (get p.live o.pid) p).live o.pid)
  updated-Agrees o p = go (get p.live o.pid) refl
    where
      beat :
          (cur : Published)
          → get p.live o.pid ≡ some cur
          → matches cur o ≡ true
          → (r : Result Error (Unit {0}) × W) → Agrees o (get (beaten core o r p).live o.pid)
      beat cur found same (ok _, w) = subst (Agrees o) (sym found) (matches-Agrees cur o same)
      beat cur found same (err e, w) =
          register_locked-Agrees o (record { live = remove p.live o.pid; world = w })
            (ground (arith, get-remove p.live o.pid o.pid, nat_beq_iff o.pid o.pid))

      go :
          (cur : Option Published)
          → get p.live o.pid ≡ cur
          → Agrees o (get (updated core o cur p).live o.pid)
      go none absent = register_locked-Agrees o p absent
      go (some cur) found = elim (Bool-cases (matches cur o)) [
        | inl same ↦ simp (same) (beat cur found same (core.heartbeat cur.session_id p.world))
        | inr new ↦ simp (new) (
            register_locked-Agrees o (expire_locked core o.pid p)
              (ground (arith, expire_locked-live o.pid o.pid p, nat_beq_iff o.pid o.pid)))
      ]

  update_all-other :
      (os : List Online) (q : ℕ) (p : Publisher W)
      → contains q (pids_of os) ≡ false
      → get (update_all core os p).live q ≡ get p.live q
  unfolding update_all
  update_all-other [] q p absent = refl
  update_all-other (o ∷ os) q p absent =
      update_all-other os q (updated core o (get p.live o.pid) p) (ground (arith, absent))
      ∙ updated-other o q p (λ same. ground (arith, absent, same, nat_beq_iff q o.pid))

  update_all-Agrees :
      (os : List Online) (p : Publisher W)
      → Distinct (pids_of os)
      → All (λ o. Agrees o (get (update_all core os p).live o.pid)) os
  unfolding update_all
  update_all-Agrees [] p distinct = tt
  update_all-Agrees (o ∷ os) p (fresh, distinct) = (
    subst (Agrees o) (sym (update_all-other os o.pid (updated core o (get p.live o.pid) p) fresh))
        (updated-Agrees o p),
    update_all-Agrees os (updated core o (get p.live o.pid) p) distinct,
  )

  -- After a pass over people whose PIDs are distinct, what is published for each of them, if
  -- anything, has their namespace, title, client and OS of this pass.
  pub reconcile-Agrees :
      (online : List Online) (p : Publisher W)
      → Distinct (pids_of online)
      → All (λ o. Agrees o (get (reconcile core online p).live o.pid)) online
  unfolding reconcile
  reconcile-Agrees online p distinct =
      go online (λ o here. here) (update_all-Agrees online p distinct)
    where
      q : Publisher W
      q = update_all core online p

      go :
          (os : List Online)
          → ((x : ℕ) → contains x (pids_of os) ≡ true → contains x (pids_of online) ≡ true)
          → All (λ o. Agrees o (get q.live o.pid)) os
          → All (λ o. Agrees o (get (sweep core (pids_of online) (keys q.live) q).live o.pid)) os
      go [] within h = tt
      go (o ∷ os) within (agrees, h) = (
        subst (Agrees o)
            (sym (
              ground (
                arith,
                sweep-live (pids_of online) (keys q.live) q o.pid,
                within o.pid (ground (arith, nat_beq_iff o.pid o.pid)),
              )))
            agrees,
        go os (λ x here. within x (ground (arith, here))) h,
      )
