-- ===== src/Coregraph/Links/Distinct.antt =====
-- PIDsOfAccount of coregraph/coregraph.go lists each PID once, and never the PID 0.
use nn_friends.Prelude.{
  ℕ, String, ◌≡◌, ◌≢◌, refl, Option, none, some, List, [], ◌∷◌, ◌++◌, Bool, true, false, arith,
  contains, nat_beq, nat_eq, string_eq, OnOk, OnOk->>=, Bool-cases, inl, inr, ◌||◌, if◌then◌else◌,
  Result-cases,
}
use nn_friends.Errors.{is_unresolved}
use nn_friends.Coregraph.Services.{Services, Link}
use nn_friends.Coregraph.Client.{Client, call, pid_of_account}
use nn_friends.Coregraph.Links.{
  add, add_scanned, add_links, add_resolved, pids_of_account, scan_pid, codes,
}

-- No zero, and no PID twice.
abbrev pub IsPidSet : List ℕ → Type 0
IsPidSet [] = Unit
IsPidSet (p ∷ ps) = (p ≢ 0) × (contains p ps ≡ false) × IsPidSet ps

contains-append :
    (q : ℕ) (ps : List ℕ) (p : ℕ) → contains q (ps ++ p ∷ []) ≡ (contains q ps || nat_beq q p)
contains-append q [] p = ground arith
contains-append q (x ∷ ps) p = ground (arith, contains-append q ps p)

append-IsPidSet :
    (p : ℕ) (ps : List ℕ) → p ≢ 0 → contains p ps ≡ false → IsPidSet ps → IsPidSet (ps ++ p ∷ [])
append-IsPidSet p [] nz new h = (nz, refl, tt)
append-IsPidSet p (x ∷ ps) nz new h =
    ground (arith, contains-append x ps p, append-IsPidSet p ps nz)

add-IsPidSet : (p : ℕ) (out : List ℕ) → IsPidSet out → IsPidSet (add p out)
unfolding add
add-IsPidSet p out h = ground (arith, append-IsPidSet p out)

add_scanned-IsPidSet : (o : Option ℕ) (out : List ℕ) → IsPidSet out → IsPidSet (add_scanned o out)
unfolding add_scanned
add_scanned-IsPidSet none out h = h
add_scanned-IsPidSet (some p) out h = add-IsPidSet p out h

if-IsPidSet :
    (b : Bool) (xs ys : List ℕ) → IsPidSet xs → IsPidSet ys → IsPidSet (if b then xs else ys)
if-IsPidSet true xs ys h k = h
if-IsPidSet false xs ys h k = k

add_links-IsPidSet : (ls : List Link) (out : List ℕ) → IsPidSet out → IsPidSet (add_links ls out)
unfolding add_links
add_links-IsPidSet [] out h = h
add_links-IsPidSet (l ∷ ls) out h =
    add_links-IsPidSet ls _
      (if-IsPidSet _ _ _ (add_scanned-IsPidSet (scan_pid (codes l.subject_id)) out h) h)

module _ (svc : Services) where
  add_resolved-IsPidSet :
      (nss : List String) (account : String) (out : List ℕ) (s : Client svc.World)
      → IsPidSet out
      → OnOk IsPidSet (add_resolved svc nss account out s).0
  unfolding add_resolved
  add_resolved-IsPidSet [] account out s h = h
  add_resolved-IsPidSet (ns ∷ nss) account out s h =
      elim (Result-cases (pid_of_account svc ns account s).0) [
        | inl (p, e) ↦
            rw (e, add_resolved)
              (add_resolved-IsPidSet nss account (add p out) _ (add-IsPidSet p out h))
        | inr (x, e) ↦ elim (Bool-cases (is_unresolved x)) [
          | inl skip ↦ rw (e, skip, add_resolved) (add_resolved-IsPidSet nss account out _ h)
          | inr stop ↦ rw (e, stop, add_resolved) tt
        ]
      ]

  -- Whatever the core's links and the adapter say, a successful answer has no zero and no duplicate.
  pub pids_of_account-IsPidSet :
      (account : String) (s : Client svc.World) → OnOk IsPidSet (pids_of_account svc account s).0
  unfolding pids_of_account
  pids_of_account-IsPidSet account s = elim (Bool-cases s.configured) [
    | inr off ↦ rw off tt
    | inl on ↦ simp on (
        OnOk->>= IsPidSet (call svc (svc.list_account_links account))
          (λ links. add_resolved svc ("wiiu" ∷ "3ds" ∷ []) account (add_links links [])) s
          (λ links _.
            add_resolved-IsPidSet ("wiiu" ∷ "3ds" ∷ []) account (add_links links []) _
              (add_links-IsPidSet links [] tt)))
  ]
