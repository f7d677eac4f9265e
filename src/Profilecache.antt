-- ===== src/Profilecache.antt =====
-- profilecache/profilecache.go: until when the cached profile of each PID is trusted.
pub mod History
use nn_friends.Prelude.{ℕ, ◌+◌, none, some, Bool, false, ltb, nat_eq}
use nn_friends.Prelude.Dict.{Dict, get, put, remove}

-- TTL, 5 minutes, and RetryAfter, 30 seconds.
abbrev pub ttl : ℕ
ttl = 300

abbrev pub retry_after : ℕ
retry_after = 30

-- `expires`
abbrev pub Expiries : Type 0
Expiries = Dict ℕ ℕ

unfoldable pub fresh : Expiries → ℕ → ℕ → Bool
fresh expires now pid = elim (get expires pid) [ none ↦ false | some exp ↦ ltb now exp ]

-- `set`
unfoldable pub set_expiry : ℕ → ℕ → ℕ → Expiries → Expiries
set_expiry now d pid expires = put expires pid (now + d)

unfoldable pub mark : ℕ → ℕ → Expiries → Expiries
unfolding set_expiry
mark now pid expires = set_expiry now ttl pid expires

unfoldable pub mark_failed : ℕ → ℕ → Expiries → Expiries
unfolding set_expiry
mark_failed now pid expires = set_expiry now retry_after pid expires

unfoldable pub invalidate : ℕ → Expiries → Expiries
invalidate pid expires = remove expires pid
