-- ===== src/Desk/Keeping.antt =====
-- The calls of the database packages that leave the requests and the people connected alone:
-- get_user_friend_list.go, update_user_last_online_time.go of both consoles, get_user_friends.go.
use nn_friends.Prelude.{
  ℕ, ◌≡◌, List, [], ◌∷◌, ◌++◌, Bool, true, false, Exec, Result, ok, err, recover, recovered,
  Ends->>=, Ends-mono, OnBoth, if◌then◌else◌, nat_eq,
}
use nn_friends.Prelude.Dict.{get}
use nn_friends.Errors.{Error, is_unresolved}
use nn_friends.Database.Backend.{Backend}
use nn_friends.Database.Server.{Server, statement, remote}
use nn_friends.Database.Server.Endings.{Ends-statement, Ends-remote}
use nn_friends.Wiiu.Profiles.{ensure_profiles}
use nn_friends.Wiiu.Profiles.Reads.{Kept, HasKept, kept_of, EndsWith, ensure_profiles-EndsWith}
use nn_friends.Wiiu.Friends.{
  select_friends, read_friends, friend_infos_for_pids, get_user_friend_list,
}
use nn_friends.Wiiu.Updates.{set_user_data}
use nn_friends.Wiiu.Updates
use nn_friends.Ctr.Friends.{
  FriendRelationship, relate, complete, incomplete, nonempty, get_user_friends,
}
use nn_friends.Ctr.Settings.{shows_online, write_last_online}
use nn_friends.Ctr.Settings

module _ (B : Backend) (kept : Kept) where
  pub friend_infos_for_pids-EndsWith :
      (viewer : ℕ) (pids : List ℕ) (s : Server B.State)
      → HasKept kept s
      → EndsWith kept (friend_infos_for_pids B viewer pids) s
  unfolding friend_infos_for_pids read_friends
  friend_infos_for_pids-EndsWith viewer [] s h = record { holds = h }
  friend_infos_for_pids-EndsWith viewer (p ∷ ps) s h = Ends->>= (ensure_profiles B (p ∷ ps)) _ s (
      Ends-mono (ensure_profiles B (p ∷ ps)) s
        (λ _ t same. Ends->>= (statement (λ u. (select_friends viewer (p ∷ ps) u, u))) _ t (
          Ends-statement (λ u. (select_friends viewer (p ∷ ps) u, u)) t (record { holds = same })
            same))
        (ensure_profiles-EndsWith B kept (p ∷ ps) s h))

  pub get_user_friend_list-EndsWith :
      (pid : ℕ) (s : Server B.State) → HasKept kept s → EndsWith kept (get_user_friend_list B pid) s
  unfolding get_user_friend_list
  get_user_friend_list-EndsWith pid s h = Ends->>= (remote (B.friend_pids "wiiu" pid)) _ s (
      Ends-remote (B.friend_pids "wiiu" pid) s (λ pids. friend_infos_for_pids-EndsWith pid pids _ h)
        h)

  pub update_user_last_online_time-EndsWith :
      (pid time : ℕ) (s : Server B.State)
      → HasKept kept s
      → EndsWith kept (Updates.update_user_last_online_time B pid time) s
  unfolding Updates.update_user_last_online_time
  update_user_last_online_time-EndsWith pid time s h = Ends-statement _ s h h

  write_last_online-EndsWith :
      (pid time : ℕ) (show : Bool) (s : Server B.State)
      → HasKept kept s
      → EndsWith kept (write_last_online B pid time show) s
  unfolding write_last_online
  write_last_online-EndsWith pid time true s h = Ends-statement _ s h h
  write_last_online-EndsWith pid time false s h = record { holds = h }

  pub update_last_online_3ds-EndsWith :
      (pid time : ℕ) (s : Server B.State)
      → HasKept kept s
      → EndsWith kept (Settings.update_user_last_online_time B pid time) s
  unfolding Settings.update_user_last_online_time
  update_last_online_3ds-EndsWith pid time s h =
      Ends->>= (statement (λ t. (shows_online (get t.user_data_3ds pid), t))) _ s (
        Ends-statement (λ t. (shows_online (get t.user_data_3ds pid), t)) s
          (write_last_online-EndsWith pid time _ _ h) h)

  recover-EndsWith :
      {A : Type 0} (m : Exec B.State Error A) (is_kind : Error → Bool) (a : A) (s : Server B.State)
      → HasKept kept s
      → EndsWith kept (recover (remote m) is_kind a) s
  unfolding recover remote
  recover-EndsWith {A} m is_kind a s h = record { holds = go (m s.backend).0 }
    where
      t : Server B.State
      t = record s { backend = (m s.backend).1 }

      by_kind :
          (b : Bool) (e : Error)
          → OnBoth {E = Error} {A = A}
              (λ _ u. HasKept kept u)
              (HasKept kept)
              (if b then ok a else err e, t)
      by_kind true e = h
      by_kind false e = h

      go :
          (r : Result Error A)
          → OnBoth (λ _ u. HasKept kept u) (HasKept kept) (recovered is_kind a (r, t))
      go (ok b) = h
      go (err e) = by_kind (is_kind e) e

  pub get_user_friends-EndsWith :
      (pid : ℕ) (s : Server B.State) → HasKept kept s → EndsWith kept (get_user_friends B pid) s
  unfolding get_user_friends
  get_user_friends-EndsWith pid s h =
      Ends->>= (recover (remote (B.friend_pids "3ds" pid)) is_unresolved []) _ s (
        Ends-mono (recover (remote (B.friend_pids "3ds" pid)) is_unresolved []) s
          (λ friends t same.
            Ends->>= (recover (remote (B.outgoing_addressee_pids "3ds" pid)) is_unresolved []) _ t (
              Ends-mono (recover (remote (B.outgoing_addressee_pids "3ds" pid)) is_unresolved []) t
                (λ outgoing u still.
                  some_or_none (relate complete friends ++ relate incomplete outgoing) u still)
                (recover-EndsWith (B.outgoing_addressee_pids "3ds" pid) is_unresolved [] t same)))
          (recover-EndsWith (B.friend_pids "3ds" pid) is_unresolved [] s h))
    where
      some_or_none :
          (rs : List FriendRelationship) (u : Server B.State)
          → HasKept kept u
          → EndsWith kept (nonempty rs) u
      some_or_none [] u same = record { holds = same }
      some_or_none (r ∷ rs) u same = record { holds = same }

-- The state after such a call.
pub EndsWith-connected :
    {G A : Type 0} (m : Exec (Server G) Error A) (s : Server G)
    → EndsWith (kept_of s) m s
    → (m s).1.connected ≡ s.connected
EndsWith-connected {G} {A} m s h = go (m s) h.holds
  where
    go :
        (p : Result Error A × Server G)
        → OnBoth (λ _ t. HasKept (kept_of s) t) (HasKept (kept_of s)) p
        → p.1.connected ≡ s.connected
    go (ok a, t) kept = kept.1
    go (err e, t) kept = kept.1
