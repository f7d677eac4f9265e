-- ===== src/Profilecache/History.antt =====
-- profilecache/profilecache.go against the history of what was reported: only the last report of a
-- PID counts.
use nn_friends.Prelude.{
  ℕ, ◌+◌, ◌≡◌, refl, List, [], ◌∷◌, Bool, false, ltb, nat_beq, nat_eq, if◌then◌else◌, arith,
}
use nn_friends.Prelude.Dict.{get-put, get-remove}
use nn_friends.Profilecache.{Expiries, fresh, mark, mark_failed, invalidate}

-- What the callers report, with the time of the report.
pub data Report : Type 0 where
  refreshed failed : ℕ → ℕ → Report
  updated : ℕ → Report

-- The calls in order, the newest report first.
abbrev pub replay : List Report → Expiries
replay [] = []
replay (refreshed t pid ∷ rs) = mark t pid (replay rs)
replay (failed t pid ∷ rs) = mark_failed t pid (replay rs)
replay (updated pid ∷ rs) = invalidate pid (replay rs)

-- A PID is trusted for 5 minutes after a refresh, for 30 seconds after a failed one, and not at all
-- after a profile_updated event or before any report.
abbrev pub trusted : List Report → ℕ → ℕ → Bool
trusted [] now pid = false
trusted (refreshed t p ∷ rs) now pid =
    if nat_beq p pid then ltb now (t + 300) else trusted rs now pid
trusted (failed t p ∷ rs) now pid = if nat_beq p pid then ltb now (t + 30) else trusted rs now pid
trusted (updated p ∷ rs) now pid = if nat_beq p pid then false else trusted rs now pid

-- At any time `Fresh` answers what the last report of the PID implies.
pub fresh-replay : (rs : List Report) (now pid : ℕ) → fresh (replay rs) now pid ≡ trusted rs now pid
unfolding fresh mark mark_failed invalidate
fresh-replay [] now pid = refl
fresh-replay (refreshed t p ∷ rs) now pid =
    ground (arith, get-put (replay rs) p pid (t + 300), fresh-replay rs now pid)
fresh-replay (failed t p ∷ rs) now pid =
    ground (arith, get-put (replay rs) p pid (t + 30), fresh-replay rs now pid)
fresh-replay (updated p ∷ rs) now pid =
    ground (arith, get-remove (replay rs) p pid, fresh-replay rs now pid)
