-- ===== src/Orphans.antt =====
-- coreevents/profile.go: PurgeOrphans, which deletes the rows of PIDs that nn-account does not know.
-- Waiting between the attempts is left out.
pub mod Rows
pub mod Keeping
use nn_friends.Prelude.{
  ℕ, zero, suc, ◌+◌, String, List, [], ◌∷◌, ◌++◌, Bool, true, false, ◌&&◌, Exec, Result, ok, err,
  if◌then◌else◌, ◌==◌, contains, nat_eq, string_eq,
}
use nn_friends.Prelude.Dict.{keys}
use nn_friends.Errors.{Code, Error, rpc, invalid_argument}
use nn_friends.Coregraph.Services.{Profile}
use nn_friends.Database.Tables.{Tables}
use nn_friends.Database.Rows.{count}
use nn_friends.Database.Server.{Server, statement}
use nn_friends.Erase.{Statement, remove_all, row_of}

-- UNION: each PID once.
abbrev union : List ℕ → List ℕ → List ℕ
union out [] = out
union out (p ∷ ps) = union (if contains p out then out else out ++ p ∷ []) ps

unfoldable pub cached_pids : Tables → List ℕ
cached_pids t =
    union
      (union (union (union (union [] (keys t.user_data)) (keys t.principals)) (keys t.miis))
        (keys t.account_info))
      (keys t.user_data_3ds)

abbrev is_invalid_argument : Code → Bool
is_invalid_argument invalid_argument = true
is_invalid_argument _ = false

-- isOrphan on the reply of GetUserData, whose error has a code and a message.
abbrev pub judge : {G : Type 0} → Result (Code × String) Profile × G → Result Error Bool × G
judge (ok user, g) = (ok user.deleted, g)
judge (err (c, message), g) =
    if is_invalid_argument c && message == "No PNID found" then (ok true, g) else (err (rpc c), g)

abbrev pub orphan_statements : List Statement
orphan_statements =
    (λ pids t.
      (count (row_of pids) t.user_data, record t { user_data = remove_all pids t.user_data }))
    ∷ (λ pids t. (
      count (row_of pids) t.account_info,
      record t { account_info = remove_all pids t.account_info },
    ))
    ∷ (λ pids t.
        (count (row_of pids) t.principals, record t { principals = remove_all pids t.principals }))
    ∷ (λ pids t. (count (row_of pids) t.miis, record t { miis = remove_all pids t.miis }))
    ∷ (λ pids t. (
      count (row_of pids) t.user_data_3ds,
      record t { user_data_3ds = remove_all pids t.user_data_3ds },
    ))
    ∷ []

module _ {G : Type 0} where
  -- The loop of deleteRows on the outcome of one statement; there is no transaction.
  abbrev pub deleted_some :
      (ℕ → Server G → Result Error ℕ × Server G)
      → ℕ
      → Result Error ℕ × Server G
      → Result Error ℕ × Server G
  deleted_some rest total (err e, s) = (err e, s)
  deleted_some rest total (ok n, s) = rest (total + n) s

  unfoldable pub delete_each : List Statement → List ℕ → ℕ → Server G → Result Error ℕ × Server G
  delete_each [] pids total s = (ok total, s)
  delete_each (stmt ∷ stmts) pids total s =
      deleted_some (delete_each stmts pids) total (statement (stmt pids) s)

  unfoldable pub delete_rows : List ℕ → Server G → Result Error ℕ × Server G
  unfolding delete_each
  delete_rows [] s = (ok 0, s)
  delete_rows (p ∷ ps) s = delete_each orphan_statements (p ∷ ps) 0 s

  abbrev pub searched :
      (List ℕ → G → Result Error (List ℕ) × G)
      → ℕ
      → List ℕ
      → Result Error Bool × G
      → Result Error (List ℕ) × G
  searched rest pid found (err e, g) = (err e, g)
  searched rest pid found (ok true, g) = rest (found ++ pid ∷ []) g
  searched rest pid found (ok false, g) = rest found g

  -- The PIDs that are orphans; the first error ends the search.
  unfoldable pub find_orphans :
      (ℕ → Exec G Error Bool) → List ℕ → List ℕ → G → Result Error (List ℕ) × G
  find_orphans is_orphan [] found g = (ok found, g)
  find_orphans is_orphan (pid ∷ pids) found g =
      searched (find_orphans is_orphan pids) pid found (is_orphan pid g)

  abbrev pub finished : Result Error ℕ × Server G → Bool × Server G
  finished (ok n, s) = (true, s)
  finished (err e, s) = (false, s)

  abbrev pub judged : Result Error (List ℕ) × G → Server G → Bool × Server G
  judged (err e, g) s = (false, record s { backend = g })
  judged (ok orphans, g) s = finished (delete_rows orphans (record s { backend = g }))

  abbrev pub listed_pids :
      (ℕ → Exec G Error Bool) → Result Error (List ℕ) × Server G → Bool × Server G
  listed_pids is_orphan (err e, s) = (false, s)
  listed_pids is_orphan (ok pids, s) = judged (find_orphans is_orphan pids [] s.backend) s

  -- One attempt; whether it was the last.
  unfoldable pub purge_attempt : (ℕ → Exec G Error Bool) → Server G → Bool × Server G
  unfolding cached_pids find_orphans delete_rows
  purge_attempt is_orphan s = listed_pids is_orphan (statement (λ t. (cached_pids t, t)) s)

  unfoldable pub purge : ℕ → (ℕ → Exec G Error Bool) → Server G → Server G
  unfolding purge_attempt
  purge zero is_orphan s = s
  purge (suc attempts) is_orphan s =
      let (done, t) = purge_attempt is_orphan s in
      let rest = purge attempts is_orphan t in if done then t else rest

  -- PurgeOrphans: at most 60 attempts.
  unfoldable pub purge_orphans : (ℕ → Exec G (Code × String) Profile) → Server G → Server G
  unfolding purge
  purge_orphans user_data s = purge 60 (λ pid g. judge (user_data pid g)) s
