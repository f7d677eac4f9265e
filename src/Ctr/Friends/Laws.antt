-- ===== src/Ctr/Friends/Laws.antt =====
-- What the friend list of a 3DS answers where it is empty, and what a saved friendship names.
use nn_friends.Prelude.{
  ℕ, ◌≡◌, refl, ap, ◌∙◌, List, [], ◌++◌, Exec, ok, err, After, After->>=, After-pure, After-recover,
  recover, recovered, nat_eq, >>=-ok,
}
use nn_friends.Errors.{Error, empty_list, is_unresolved}
use nn_friends.Database.Backend.{Backend}
use nn_friends.Database.Server.{Server, remote}
use nn_friends.Ctr.Friends.{
  complete, incomplete, relate, nonempty, get_user_friends, save_friendship,
}

module _ (B : Backend) where
  pub save_friendship-pid :
      (me p : ℕ) (s : Server B.State) → After (λ r _. r.pid ≡ p) (save_friendship B me p) s
  unfolding save_friendship
  save_friendship-pid me p s =
      After->>= _ _ s (After-recover _ is_unresolved _ s (λ k. After-pure _ _ refl))

  asked :
      (m : Exec B.State Error (List ℕ)) (s : Server B.State) (g : B.State)
      → m s.backend ≡ (ok [], g)
      → recover (remote m) is_unresolved [] s ≡ (ok [], record s { backend = g })
  unfolding recover remote
  asked m s g answer = ap (λ r. recovered is_unresolved [] (r.0, record s { backend = r.1 })) answer

  -- Where the core knows neither a friend nor an outgoing request of a user, their list is an error.
  pub no_friends :
      (me : ℕ) (s : Server B.State) (g h : B.State)
      → B.friend_pids "3ds" me s.backend ≡ (ok [], g)
      → B.outgoing_addressee_pids "3ds" me g ≡ (ok [], h)
      → get_user_friends B me s ≡ (err empty_list, record s { backend = h })
  unfolding get_user_friends
  no_friends me s g h none_in none_out =
      >>=-ok (recover (remote (B.friend_pids "3ds" me)) is_unresolved []) _ s
        (asked (B.friend_pids "3ds" me) s g none_in)
      ∙ >>=-ok (recover (remote (B.outgoing_addressee_pids "3ds" me)) is_unresolved [])
          (λ outgoing. nonempty (relate complete [] ++ relate incomplete outgoing))
          (record s { backend = g })
          (asked (B.outgoing_addressee_pids "3ds" me) (record s { backend = g }) h none_out)
