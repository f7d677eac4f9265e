-- ===== src/Coregraph/Links.antt =====
-- coregraph/coregraph.go: PIDsOfAccount, every PID of an account, and the decimal scan of a link's
-- subject (`fmt.Sscanf(subject, "%d", &p)` into a uint32, over ASCII text).
pub mod Distinct
pub mod Complete
use Prim.Native.Char.{code}
use nn_friends.Prelude.{
  ℕ, ◌+◌, ◌-◌, ◌*◌, ◌^◌, String, Option, none, some, List, [], ◌∷◌, ◌++◌, Bool, true, false, ◌&&◌,
  ◌||◌, Exec, Result, ok, err, fail, ◌>>=◌, if◌then◌else◌, ltb, leb, nat_beq, contains, nat_eq,
  string_eq, ◌==◌,
}
use nn_friends.Errors.{Error, is_unresolved, not_configured}
use nn_friends.Coregraph.Services.{Services, Link}
use nn_friends.Coregraph.Client.{Client, call, pid_of_account}

abbrev pub codes : String → List ℕ
codes String.[] = []
codes (String.◌∷◌ c s) = code c ∷ codes s

is_digit : ℕ → Bool
is_digit c = leb b'0' c && leb c b'9'

-- The value of the digits in front.
scan_number : ℕ → List ℕ → ℕ
unfolding is_digit
scan_number acc [] = acc
scan_number acc (c ∷ cs) = if is_digit c then scan_number (acc * 10 + (c - b'0')) cs else acc

-- A value that does not fit a uint32 is an error.
scan_token : List ℕ → Option ℕ
unfolding is_digit scan_number
scan_token [] = none
scan_token (c ∷ cs) =
    let n = scan_number (c - b'0') cs in if is_digit c && ltb n (2 ^ 32) then some n else none

-- Blanks in front are skipped; a newline among them is an error.
scan_pid : List ℕ → Option ℕ
unfolding scan_token
scan_pid [] = none
scan_pid (c ∷ cs) =
    if nat_beq c 10
    then none
    else if nat_beq c 32 || leb 9 c && leb c 13
    then scan_pid cs
    else scan_token (c ∷ cs)

-- The closure `add`; `seen` holds exactly what is in `out`.
unfoldable pub add : ℕ → List ℕ → List ℕ
add p out = if nat_beq p 0 || contains p out then out else out ++ p ∷ []

add_scanned : Option ℕ → List ℕ → List ℕ
unfolding add
add_scanned none out = out
add_scanned (some p) out = add p out

unfoldable pub add_links : List Link → List ℕ → List ℕ
unfolding add_scanned scan_pid
add_links [] out = out
add_links (l ∷ ls) out = add_links ls (
    if l.namespace == "wiiu" || l.namespace == "3ds"
    then add_scanned (scan_pid (codes l.subject_id)) out
    else out)

module _ (svc : Services) where
  -- The second loop, over the namespaces: "not resolvable" is skipped, any other error returned.
  unfoldable pub add_resolved :
      List String → String → List ℕ → Exec (Client svc.World) Error (List ℕ)
  unfolding add
  add_resolved [] account out s = (ok out, s)
  add_resolved (ns ∷ nss) account out s =
      let (r, t) = pid_of_account svc ns account s in
      elim r [
        | ok p ↦ add_resolved nss account (add p out) t
        | err e ↦ if is_unresolved e then add_resolved nss account out t else (err e, t)
      ]

  unfoldable pub pids_of_account : String → Exec (Client svc.World) Error (List ℕ)
  unfolding add_links add_resolved
  pids_of_account account s =
      if s.configured
      then (do
        links ← call svc (svc.list_account_links account)
        add_resolved ("wiiu" ∷ "3ds" ∷ []) account (add_links links []))
          s
      else (err not_configured, s)
