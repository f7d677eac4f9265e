-- ===== src/Presence/Foreign/Elsewhere.antt =====
-- Whom ForeignFor shows: crosspresence/foreign.go and ForeignFor of crosspresence/glue.go.
use mathlib.Core.List.{Memᴰ}
use nn_friends.Prelude.{
  ℕ, ◌≡◌, refl, sym, ap, ◌∙◌, ◌⊎◌, inl, inr, String, Option, none, some, List, [], ◌∷◌, Bool, true,
  false, Result, ok, err, if◌then◌else◌, nat_eq, string_eq, take, arith,
}
use nn_friends.Prelude.Text.{equal_fold}
use nn_friends.Prelude.Dict.{Dict, get, put, get-put_cases}
use nn_friends.Errors.{Error}
use nn_friends.Coregraph.Services.{LivePresence}
use nn_friends.Database.Backend.{Backend}
use nn_friends.Database.Server.{Server, remote}
use nn_friends.Presence.Foreign.{
  Live, Rendering, elsewhere, max_accounts, accounts_away, lines_of, foreign, live_answer,
  foreign_for,
}

abbrev pub live_of : LivePresence → Live
live_of p = record { namespace = p.namespace; title_id = p.title_id; client = p.client }

-- One of the answers is about the account, on another platform.
pub record IsAnswer (ns : String) (ps : List LivePresence) (account : String) (l : Live)
    : Type 0 where
  pub answer : LivePresence
  pub given : Memᴰ answer ps
  pub account_same : answer.account_id ≡ account
  pub away : equal_fold answer.namespace ns ≡ false
  pub shown : live_of answer ≡ l

IsAnswer-later :
    (ns : String) (p : LivePresence) (ps : List LivePresence) (account : String) (l : Live)
    → IsAnswer ns ps account l
    → IsAnswer ns (p ∷ ps) account l
IsAnswer-later ns p ps account l h = record {
  answer = h.answer;
  given = Memᴰ.tail h.given;
  account_same = h.account_same;
  away = h.away;
  shown = h.shown;
}

elsewhere_lem :
    (ns : String) (ps : List LivePresence) (out : Dict String Live) (account : String) (l : Live)
    → get (elsewhere ns ps out) account ≡ some l
    → (get out account ≡ some l) ⊎ IsAnswer ns ps account l
unfolding elsewhere
elsewhere_lem ns [] out account l h = inl h
elsewhere_lem ns (p ∷ ps) out account l h = elim (elsewhere_lem ns ps _ account l h) [
  | inr found ↦ inr (IsAnswer-later ns p ps account l found)
  | inl before ↦ by_namespace (equal_fold p.namespace ns) refl before
]
  where
    by_namespace :
        (b : Bool)
        → equal_fold p.namespace ns ≡ b
        → get (if b then out else put out p.account_id (live_of p)) account ≡ some l
        → (get out account ≡ some l) ⊎ IsAnswer ns (p ∷ ps) account l
    by_namespace true same before = inl before
    by_namespace false other before =
        elim (get-put_cases out p.account_id account (live_of p) before) [
          | inl (same, shown) ↦ inr (record {
            answer = p;
            given = Memᴰ.head refl;
            account_same = same;
            away = other;
            shown = shown;
          })
          | inr there ↦ inl there
        ]

-- What the second loop shows.
record IsLine (R : Rendering) (connected : ℕ → Bool) (live : Dict String Live) (d : Dict ℕ String)
    (pid : ℕ) (line : String) : Type 0 where
  account : String
  listed : Memᴰ (pid, account) d
  l : Live
  found : get live account ≡ some l
  away : connected pid ≡ false
  shown : R.description l ≡ line

IsLine-later :
    (R : Rendering) (connected : ℕ → Bool) (live : Dict String Live) (e : ℕ × String)
    (d : Dict ℕ String) (pid : ℕ) (line : String)
    → IsLine R connected live d pid line
    → IsLine R connected live (e ∷ d) pid line
IsLine-later R connected live e d pid line h = record {
  account = h.account;
  listed = Memᴰ.tail h.listed;
  l = h.l;
  found = h.found;
  away = h.away;
  shown = h.shown;
}

lines_of_lem :
    (R : Rendering) (connected : ℕ → Bool) (live : Dict String Live) (d out : Dict ℕ String)
    (pid : ℕ) (line : String)
    → get (lines_of R connected live d out) pid ≡ some line
    → (get out pid ≡ some line) ⊎ IsLine R connected live d pid line
unfolding lines_of
lines_of_lem R connected live [] out pid line h = inl h
lines_of_lem R connected live ((q, account) ∷ d) out pid line h =
    elim (lines_of_lem R connected live d _ pid line h) [
      | inr found ↦ inr (IsLine-later R connected live (q, account) d pid line found)
      | inl before ↦ by_answer (get live account) refl before
    ]
  where
    Found : Type 0
    Found = (get out pid ≡ some line) ⊎ IsLine R connected live ((q, account) ∷ d) pid line

    by_answer :
        (o : Option Live)
        → get live account ≡ o
        → get
            (elim o [
              | none ↦ out
              | some l ↦ if connected q then out else put out q (R.description l)
            ])
            pid
          ≡ some line
        → Found
    by_answer none is before = inl before
    by_answer (some l) is before = by_connection (connected q) refl before
      where
        by_connection :
            (b : Bool)
            → connected q ≡ b
            → get (if b then out else put out q (R.description l)) pid ≡ some line
            → Found
        by_connection true here before = inl before
        by_connection false away before = elim (get-put_cases out q pid (R.description l) before) [
          | inl (same, shown) ↦ inr (record {
            account = account;
            listed = Memᴰ.head (ap (λ p. (p, account)) (sym same));
            l = l;
            found = is;
            away = ap connected (sym same) ∙ away;
            shown = shown;
          })
          | inr there ↦ inl there
        ]

foreign_lem :
    (B : Backend) (R : Rendering) (ns : String) (accounts : List String) (s : Server B.State)
    (account : String) (l : Live)
    → get (foreign B R ns accounts s).0 account ≡ some l
    → (ps : List LivePresence) × ((B.get_presence (take max_accounts accounts) s.backend).0 ≡ ok ps)
      × IsAnswer ns ps account l
unfolding foreign remote
foreign_lem B R ns [] s account l h = ground (arith, h)
foreign_lem B R ns (a ∷ as') s account l h =
    by_result (B.get_presence (take max_accounts (a ∷ as')) s.backend) h
  where
    by_result :
        (p : Result Error (List LivePresence) × B.State)
        → get (live_answer B R ns (p.0, record s { backend = p.1 })).0 account ≡ some l
        → (ps : List LivePresence) × (p.0 ≡ ok ps) × IsAnswer ns ps account l
    by_result (err e, g) found = ground (arith, found)
    by_result (ok ps, g) found = elim (elsewhere_lem ns ps [] account l found) [
      | inl nothing ↦ ground (arith, nothing)
      | inr answered ↦ (ps, refl, answered)
    ]

-- `line` is what Description makes of what the core answers, for the account of `pid`, of a
-- platform other than `ns`; and `pid` is not connected here.
pub record IsElsewhere (B : Backend) (R : Rendering) (ns : String) (by_pid : Dict ℕ String)
    (connected : ℕ → Bool) (g : B.State) (pid : ℕ) (line : String) : Type 0 where
  pub away : connected pid ≡ false
  pub account : String
  pub listed : Memᴰ (pid, account) by_pid
  pub answers : List LivePresence
  pub given : (B.get_presence (take max_accounts (accounts_away connected by_pid)) g).0 ≡ ok answers
  pub l : Live
  pub answer : IsAnswer ns answers account l
  pub shown : R.description l ≡ line

-- ForeignFor shows nobody by guessing: every PID in what it answers is one of the given, is not
-- connected here, and its line describes an answer of the core, about that PID's account, on a
-- platform other than the viewer's.
pub foreign_for-IsElsewhere :
    (B : Backend) (R : Rendering) (ns : String) (by_pid : Dict ℕ String) (connected : ℕ → Bool)
    (s : Server B.State) (pid : ℕ) (line : String)
    → get (foreign_for B R ns by_pid connected s).0 pid ≡ some line
    → IsElsewhere B R ns by_pid connected s.backend pid line
unfolding foreign_for
foreign_for-IsElsewhere B R ns by_pid connected s pid line h =
    elim (lines_of_lem R connected (foreign B R ns (accounts_away connected by_pid) s).0 by_pid []
      pid line h) [
        | inl nothing ↦ ground (arith, nothing)
        | inr shown ↦ answered shown (foreign_lem B R ns _ s shown.account shown.l shown.found)
      ]
  where
    answered :
        (shown : IsLine R connected
          (foreign B R ns (accounts_away connected by_pid) s).0
          by_pid
          pid
          line)
        → (ps : List LivePresence) × ((B.get_presence
              (take max_accounts (accounts_away connected by_pid))
              s.backend).0
            ≡ ok ps)
          × IsAnswer ns ps shown.account shown.l
        → IsElsewhere B R ns by_pid connected s.backend pid line
    answered shown (ps, given, answer) = record {
      away = shown.away;
      account = shown.account;
      listed = shown.listed;
      answers = ps;
      given = given;
      l = shown.l;
      answer = answer;
      shown = shown.shown;
    }
