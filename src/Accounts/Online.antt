-- ===== src/Accounts/Online.antt =====
-- What the two lookups of globals/connected_accounts.go tell of the marks made before.
use nn_friends.Prelude.{
  ℕ, String, ◌≡◌, ◌≢◌, ◌⊎◌, inl, inr, refl, Option, none, some, [], ◌∷◌, true, false, ok, ◌==◌,
  nat_eq, string_eq, nat_beq_iff, arith, contains, sym, subst, Option-cases, Bool-cases,
}
use nn_friends.Prelude.Dict.{Dict, get, remove, get-remove, get-put}
use nn_friends.Accounts.{
  Accounts, learn_online, mark_account_offline, with_account, online_pids_of_account,
  online_pid_of_account, forget, taken_offline,
}

-- The PID that an account is found with is recorded with that account.
pub record IsLinked (a : Accounts) : Type 0 where
  pub linked :
      (account : String) (pid : ℕ)
      → get a.accounts account ≡ some pid
      → get a.pids pid ≡ some account

-- A PID is marked with the account it has, if it has one.
abbrev pub KeepsAccount : String → ℕ → Accounts → Type 0
KeepsAccount account pid a = (get a.pids pid ≡ none) ⊎ (get a.pids pid ≡ some account)

learn_online-IsLinked :
    (account : String) (pid : ℕ) (a : Accounts)
    → KeepsAccount account pid a
    → IsLinked a
    → IsLinked (learn_online (ok account) pid a)
unfolding learn_online
learn_online-IsLinked account pid a keeps h = elim (Bool-cases (account == "")) [
  | inl e ↦ simp (e) h
  | inr e ↦ simp (e) (record {
    linked = λ x q found. ground (
      arith,
      get-put a.accounts account x pid,
      get-put a.pids pid q account,
      h.linked x q,
      string_eq.beq_iff account x,
      nat_beq_iff pid q,
      keeps,
    );
  })
]

-- What is still found after the deletion was there before, and is not the deleted pair.
forget_found :
    (d : Dict String ℕ) (account : String) (pid : ℕ) (x : String) (q : ℕ)
    → get (forget (get d account) account pid d) x ≡ some q
    → (get d x ≡ some q) × ((x ≡ account) → q ≢ pid)
forget_found d account pid x q found = elim (Option-cases (get d account)) [
  | inl e ↦ ground (arith, forget, string_eq.beq_iff account x, e)
  | inr (p, e) ↦
      ground (arith, forget, get-remove d account x, string_eq.beq_iff account x, nat_beq_iff p pid)
]

mark_account_offline-IsLinked :
    (pid : ℕ) (a : Accounts) → IsLinked a → IsLinked (mark_account_offline pid a)
unfolding mark_account_offline
mark_account_offline-IsLinked pid a h = go (get a.pids pid) refl
  where
    go : (o : Option String) → get a.pids pid ≡ o → IsLinked (taken_offline o pid a)
    go none e = h
    go (some account) e = record {
      linked = λ x q found. ground (
        arith,
        forget_found a.accounts account pid x q found,
        h.linked x q,
        get-remove a.pids pid q,
        nat_beq_iff pid q,
      );
    }

pub offline_pids : (pid : ℕ) (a : Accounts) → get (mark_account_offline pid a).pids pid ≡ none
unfolding mark_account_offline
offline_pids pid a = go (get a.pids pid) refl
  where
    go : (o : Option String) → get a.pids pid ≡ o → get (taken_offline o pid a).pids pid ≡ none
    go none e = e
    go (some account) e = ground (arith, get-remove a.pids pid pid, nat_beq_iff pid pid)

contains-with_account_no_pid :
    (d : Dict ℕ String) (pid : ℕ) (account : String)
    → get d pid ≡ none
    → contains pid (with_account account d) ≡ false
contains-with_account_no_pid [] pid account h = refl
contains-with_account_no_pid ((q, id) ∷ d) pid account h =
    ground (arith, contains-with_account_no_pid d pid account, nat_beq_iff q pid, nat_beq_iff pid q)

-- Taken offline, a PID is listed for no account.
pub mark_account_offline-unlisted :
    (account : String) (pid : ℕ) (a : Accounts)
    → contains pid (online_pids_of_account account (mark_account_offline pid a)) ≡ false
unfolding online_pids_of_account
mark_account_offline-unlisted account pid a =
    contains-with_account_no_pid (mark_account_offline pid a).pids pid account (offline_pids pid a)

-- The account that a PID is marked with, if it is, is not found with that PID.
abbrev pub IsNotFound : Option String → ℕ → Accounts → Type 0
IsNotFound none pid a = Unit {0}
IsNotFound (some account) pid a = online_pid_of_account account a ≢ some pid

-- Taken offline, a PID is not the answer for the account that it was marked with.
pub mark_account_offline-IsNotFound :
    (pid : ℕ) (a : Accounts) → IsNotFound (get a.pids pid) pid (mark_account_offline pid a)
unfolding mark_account_offline online_pid_of_account
mark_account_offline-IsNotFound pid a = go (get a.pids pid)
  where
    go : (o : Option String) → IsNotFound o pid (taken_offline o pid a)
    go none = tt
    go (some account) = λ found. (forget_found a.accounts account pid account pid found).1 refl refl

-- The other PIDs are marked with the accounts that they were marked with.
pub mark_account_offline-others :
    (pid q : ℕ) (a : Accounts) → q ≢ pid → get (mark_account_offline pid a).pids q ≡ get a.pids q
unfolding mark_account_offline
mark_account_offline-others pid q a differ = go (get a.pids pid)
  where
    go : (o : Option String) → get (taken_offline o pid a).pids q ≡ get a.pids q
    go none = refl
    go (some account) = ground (arith, get-remove a.pids pid q, nat_beq_iff pid q)

-- Taken offline, a PID is not the answer for any account.
pub mark_account_offline-gone :
    (account : String) (pid : ℕ) (a : Accounts)
    → IsLinked a
    → online_pid_of_account account (mark_account_offline pid a) ≢ some pid
unfolding online_pid_of_account
mark_account_offline-gone account pid a h found =
    cc (offline_pids pid a, (mark_account_offline-IsLinked pid a h).linked account pid found)

contains-with_account :
    (d : Dict ℕ String) (pid : ℕ) (account : String)
    → get d pid ≡ some account
    → contains pid (with_account account d) ≡ true
contains-with_account [] pid account h = cc
contains-with_account ((q, id) ∷ d) pid account h = ground (
  arith,
  contains-with_account d pid account,
  string_eq.beq_iff id account,
  nat_beq_iff q pid,
  nat_beq_iff pid q,
)

contains-remove :
    (d : Dict ℕ String) (pid q : ℕ) (account : String)
    → pid ≢ q
    → get d pid ≡ some account
    → contains pid (with_account account (remove d q)) ≡ true
contains-remove d pid q account differ h =
    contains-with_account (remove d q) pid account
      (ground (arith, get-remove d q pid, nat_beq_iff q pid))

-- Two PIDs of one account are online and the one that the account is found with goes offline: the
-- account is not found any more, although the other PID is still listed for it.
pub mark_account_offline-other :
    (account : String) (p q : ℕ) (a : Accounts)
    → p ≢ q
    → get a.pids p ≡ some account
    → get a.pids q ≡ some account
    → online_pid_of_account account a ≡ some q
    → (online_pid_of_account account (mark_account_offline q a) ≡ none)
      × (contains p (online_pids_of_account account (mark_account_offline q a)) ≡ true)
unfolding mark_account_offline online_pid_of_account online_pids_of_account
mark_account_offline-other account p q a differ hp hq found =
    subst
      (λ o.
        (get (taken_offline o q a).accounts account ≡ none)
        × (contains p (with_account account (taken_offline o q a).pids) ≡ true))
      (sym hq)
      (
        ground (
          arith,
          found,
          forget,
          get-remove a.accounts account account,
          string_eq.beq_iff account account,
          nat_beq_iff q q,
        ),
        contains-remove a.pids p q account differ hp,
      )
