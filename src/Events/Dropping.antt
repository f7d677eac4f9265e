-- ===== src/Events/Dropping.antt =====
-- What a ban or a started deletion does to the sessions: dropAccount of coreevents/poller.go.
use nn_friends.Prelude.{
  ℕ, ◌≡◌, ◌≢◌, refl, sym, ◌∙◌, subst, String, Option, none, some, List, [], ◌∷◌, false, All,
  contains, nat_beq, nat_beq_iff, nat_eq, Bool-cases, arith, inl, inr,
}
use nn_friends.Prelude.Dict.{get}
use nn_friends.Types.{ConnectedUser}
use nn_friends.Accounts.{online_pids_of_account}
use nn_friends.Database.Backend.{Backend}
use nn_friends.Desk.{Desk}
use nn_friends.Desk.Connections.{connection_ended}
use nn_friends.Desk.Connections.Going.{connection_ended-IsGone}
use nn_friends.Events.{ending, kind_of, dropped, drop_pids, drop_account, handle, handle_kind}

-- Nobody, or somebody without a connection.
abbrev pub IsIdle : Option ConnectedUser → Type 0
IsIdle none = Unit {0}
IsIdle (some user) = user.connection ≡ none

module _ (B : Backend) where
  -- No session of `pids` is left, and everybody else is connected as before.
  pub record IsDropped (pids : List ℕ) (d e : Desk B.State) : Type 0 where
    pub idle : All (λ pid. IsIdle (get e.server.connected pid)) pids
    pub others :
        (q : ℕ) → contains q pids ≡ false → get e.server.connected q ≡ get d.server.connected q

  record IsStep (pid : ℕ) (d e : Desk B.State) : Type 0 where
    idle : IsIdle (get e.server.connected pid)
    others : (q : ℕ) → q ≢ pid → get e.server.connected q ≡ get d.server.connected q

  dropped-IsStep :
      (o : Option ConnectedUser) (pid : ℕ) (d : Desk B.State)
      → get d.server.connected pid ≡ o
      → IsStep pid d (dropped B o pid d)
  dropped-IsStep none pid d there = record {
    idle = subst IsIdle (sym there) tt;
    others = λ q differ. refl;
  }
  dropped-IsStep (some user) pid d there = by_connection user.connection refl
    where
      by_connection :
          (c : Option ℕ)
          → user.connection ≡ c
          → IsStep pid d (elim c [ none ↦ d | some n ↦ connection_ended B pid d ])
      by_connection none same = record {
        idle = subst IsIdle (sym there) same;
        others = λ q differ. refl;
      }
      by_connection (some n) same =
          let gone = connection_ended-IsGone B pid user d there in
          record { idle = subst IsIdle (sym gone.gone) tt; others = gone.others }

  -- Who has no session gets none.
  drop_pids-IsIdle :
      (pids : List ℕ) (q : ℕ) (d : Desk B.State)
      → IsIdle (get d.server.connected q)
      → IsIdle (get (drop_pids B pids d).server.connected q)
  unfolding drop_pids
  drop_pids-IsIdle [] q d h = h
  drop_pids-IsIdle (pid ∷ pids) q d h =
      drop_pids-IsIdle pids q (dropped B (get d.server.connected pid) pid d)
        (elim (Bool-cases (nat_beq q pid)) [
          | inl same ↦
              subst
                (λ p.
                  IsIdle (get (dropped B (get d.server.connected pid) pid d).server.connected p))
                (sym ((nat_beq_iff q pid).0 same)) step.idle
          | inr other ↦
              subst IsIdle (sym (step.others q (λ e. ground (arith, nat_beq_iff q pid, e, other))))
                h
        ])
    where
      step : IsStep pid d (dropped B (get d.server.connected pid) pid d)
      step = dropped-IsStep (get d.server.connected pid) pid d refl

  drop_pids-IsDropped : (pids : List ℕ) (d : Desk B.State) → IsDropped pids d (drop_pids B pids d)
  unfolding drop_pids
  drop_pids-IsDropped [] d = record { idle = tt; others = λ q absent. refl }
  drop_pids-IsDropped (pid ∷ pids) d =
      let step = dropped-IsStep (get d.server.connected pid) pid d refl in
      let rest = drop_pids-IsDropped pids (dropped B (get d.server.connected pid) pid d) in
      record {
        idle = (
          drop_pids-IsIdle pids pid (dropped B (get d.server.connected pid) pid d) step.idle,
          rest.idle,
        );
        others = λ q absent.
            rest.others q (ground (arith, absent))
            ∙ step.others q (λ e. ground (arith, nat_beq_iff q pid, e, absent));
      }

  -- When the core says that an account is banned, or that its deletion has started, every PID that is
  -- online with the account loses its session, whatever fails in the database on the way; nobody else
  -- loses theirs.
  pub handle-IsDropped :
      (typ account subject : String) (d : Desk B.State)
      → kind_of typ ≡ ending
      → IsDropped (online_pids_of_account account d.accounts) d (handle B typ account subject d)
  unfolding handle drop_account
  handle-IsDropped typ account subject d banned =
      subst
        (λ k.
          IsDropped (online_pids_of_account account d.accounts) d
            (handle_kind B k account subject d))
        (sym banned) (drop_pids-IsDropped (online_pids_of_account account d.accounts) d)
