-- ===== src/Coregraph/Client.antt =====
-- coregraph/coregraph.go: the process-wide client with its two resolution caches, and the lookups
-- that go through them. A cache key is the pair of which the source joins the parts by "|".
pub mod Caching
pub mod Reverse
use nn_friends.Prelude.{
  ℕ, ◌+◌, String, Option, none, some, Bool, not, Exec, Result, ok, err, ltb, if◌then◌else◌, nat_eq,
  string_eq, pair_eq,
}
use nn_friends.Prelude.Dict.{Dict, get, put}
use nn_friends.Errors.{Code, Error, not_configured, resolution_not_found, rpc}
use nn_friends.Coregraph.Services.{Services}

-- 5 minutes and 30 seconds.
abbrev pub cache_ttl : ℕ
cache_ttl = 300

abbrev pub negative_ttl : ℕ
negative_ttl = 30

-- `answer` is `none` where the source has `load: false`.
pub record CacheEntry (A : Type 0) : Type 0 where
  pub answer : Option A
  pub exp : ℕ

-- The client is `nil` until `Init`.
pub record Client (W : Type 0) : Type 0 where
  pub configured : Bool
  pub fwd : Dict (String × ℕ) (CacheEntry String)
  pub rev : Dict (String × String) (CacheEntry ℕ)
  pub world : W

-- An entry that is there and has not expired.
unfoldable pub fresh : {A : Type 0} → Option (CacheEntry A) → ℕ → Option (CacheEntry A)
fresh none now = none
fresh (some e) now = if ltb now e.exp then some e else none

abbrev pub answer_of : {A : Type 0} → Option A → Result Error A
answer_of none = err resolution_not_found
answer_of (some a) = ok a

-- The entry that a response leaves behind.
unfoldable pub entry_for : {A : Type 0} → Option A → ℕ → CacheEntry A
entry_for none now = record { answer = none; exp = now + negative_ttl }
entry_for (some a) now = record { answer = some a; exp = now + cache_ttl }

module _ (svc : Services) where
  -- A call of the core or the adapter; its failures are gRPC errors.
  unfoldable pub call : {A : Type 0} → Exec svc.World Code A → Exec (Client svc.World) Error A
  call m s =
      let (r, w) = m s.world in
      elim r [
        | ok a ↦ (ok a, record s { world = w })
        | err c ↦ (err (rpc c), record s { world = w })
      ]

  learn_account :
      String
      → ℕ
      → Result Code (Option String) × svc.World
      → Client svc.World
      → Result Error String × Client svc.World
  learn_account ns pid (ok found, w) s = (
    answer_of found,
    record s { fwd = put s.fwd (ns, pid) (entry_for found (svc.now w)); world = w },
  )
  learn_account ns pid (err c, w) s = (err (rpc c), record s { world = w })

  unfoldable pub account_of_pid : String → ℕ → Exec (Client svc.World) Error String
  unfolding fresh entry_for learn_account
  account_of_pid ns pid s =
      if not s.configured
      then (err not_configured, s)
      else elim (fresh (get s.fwd (ns, pid)) (svc.now s.world)) [
        | some e ↦ (answer_of e.answer, s)
        | none ↦ learn_account ns pid (svc.resolve_pid ns pid s.world) s
      ]

  learn_pid :
      String
      → String
      → Result Code (Option ℕ) × svc.World
      → Client svc.World
      → Result Error ℕ × Client svc.World
  learn_pid ns account (ok found, w) s = (
    answer_of found,
    record s { rev = put s.rev (ns, account) (entry_for found (svc.now w)); world = w },
  )
  learn_pid ns account (err c, w) s = (err (rpc c), record s { world = w })

  unfoldable pub pid_of_account : String → String → Exec (Client svc.World) Error ℕ
  unfolding fresh entry_for learn_pid
  pid_of_account ns account s =
      if not s.configured
      then (err not_configured, s)
      else elim (fresh (get s.rev (ns, account)) (svc.now s.world)) [
        | some e ↦ (answer_of e.answer, s)
        | none ↦ learn_pid ns account (svc.resolve_account ns account s.world) s
      ]
