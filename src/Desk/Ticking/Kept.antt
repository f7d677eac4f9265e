-- ===== src/Desk/Ticking/Kept.antt =====
-- What Tick of crossnotify/crossnotify.go keeps between two passes.
use nn_friends.Prelude.{
  ℕ, ◌≡◌, refl, sym, ap, ◌∙◌, String, Option, none, some, List, [], ◌∷◌, contains, nat_beq_iff,
  nat_eq, arith, inl, inr, if◌then◌else◌, All, All_map, Exists, ◌||◌, ◌++◌,
}
use nn_friends.Prelude.Dict.{Dict, get, keys, get-put, has}
use nn_friends.Types.{ConnectedUser, namespace_of}
use nn_friends.Database.Backend.{Backend}
use nn_friends.Presence.Foreign.{Rendering, foreign_friends}
use nn_friends.Presence.Notify.{Change, diff}
use nn_friends.Database.Server.{Server}
use nn_friends.Database.Rows.Laws.{append_nothing}
use nn_friends.Desk.{Notice, News}
use nn_friends.Desk.Ticking.{
  Ticker, lines_or_none, viewers, keep_live, event_to, news_of, notices_of, tick_viewer, tick_all,
  tick,
}

-- Only the lines of live viewers are kept, and those are kept.
keep_live_lem :
    (live : List (ℕ × ConnectedUser)) (d : Dict ℕ (Dict ℕ String)) (pid : ℕ)
    → get (keep_live live d) pid ≡ (if contains pid (keys live) then get d pid else none)
keep_live_lem live [] pid = ground arith
keep_live_lem live ((q, lines) ∷ d) pid =
    ground (arith, keep_live_lem live d pid, nat_beq_iff q pid)

-- The notice goes to the connection of one of the viewers.
abbrev pub IsToViewer : List (ℕ × ConnectedUser) → Notice → Type 0
IsToViewer vs n = Exists (λ v. v.1.connection ≡ n.to) vs

-- What was sent since is to viewers.
abbrev pub IsSentTo : List (ℕ × ConnectedUser) → List Notice → List Notice → Type 0
IsSentTo vs before after =
    (notices : List Notice) × (after ≡ before ++ notices) × All (IsToViewer vs) notices

All-append : {A : Type 0} (P : A → Type 0) (xs ys : List A) → All P xs → All P ys → All P (xs ++ ys)
All-append P [] ys h k = k
All-append P (x ∷ xs) ys (p, h) k = (p, All-append P xs ys h k)

append_assoc : {A : Type 0} (xs ys zs : List A) → (xs ++ ys) ++ zs ≡ xs ++ (ys ++ zs)
append_assoc [] ys zs = refl
append_assoc (x ∷ xs) ys zs = ap (λ l. x ∷ l) (append_assoc xs ys zs)

event_to-IsTo : (c : Option ℕ) (news : News) → All (λ n. c ≡ n.to) (event_to c news)
event_to-IsTo none news = tt
event_to-IsTo (some c) news = (refl, tt)

module _ (B : Backend) (R : Rendering) where
  notices_of-IsTo :
      (user : ConnectedUser) (cs : List Change)
      → All (λ n. user.connection ≡ n.to) (notices_of B R user cs)
  notices_of-IsTo user [] = tt
  notices_of-IsTo user (c ∷ cs) =
      All-append _ (event_to user.connection (news_of B R user.platform c)) _
        (event_to-IsTo user.connection (news_of B R user.platform c)) (notices_of-IsTo user cs)

  -- Of every viewer, and of nobody else beside those known before, lines are known.
  tick_all-lines :
      (vs : List (ℕ × ConnectedUser)) (t : Ticker B.State) (pid : ℕ)
      → has (tick_all B R vs t).lines pid ≡ (contains pid (keys vs) || has t.lines pid)
  unfolding tick_viewer
  tick_all-lines [] t pid = ground arith
  tick_all-lines ((q, user) ∷ vs) t pid =
      tick_all-lines vs (tick_viewer B R (q, user) t) pid
      ∙ ground (
        arith,
        get-put t.lines q pid (foreign_friends B R (namespace_of user.platform) q t.desk.server).0,
        nat_beq_iff q pid,
      )

  changes : ℕ × ConnectedUser → Ticker B.State → List Change
  changes (q, user) t = diff (lines_or_none (get t.lines q)) answer.0 (has answer.1.connected)
    where
      answer : Dict ℕ String × Server B.State
      answer = foreign_friends B R (namespace_of user.platform) q t.desk.server

  tick_all-sent :
      (vs : List (ℕ × ConnectedUser)) (t : Ticker B.State)
      → IsSentTo vs t.desk.sent (tick_all B R vs t).desk.sent
  unfolding tick_viewer changes
  tick_all-sent [] t = ([], sym (append_nothing t.desk.sent), tt)
  tick_all-sent ((q, user) ∷ vs) t =
      let own = notices_of-IsTo user (changes (q, user) t) in
      let (rest, same, all) = tick_all-sent vs (tick_viewer B R (q, user) t) in
      (
        notices_of B R user (changes (q, user) t) ++ rest,
        same ∙ append_assoc t.desk.sent (notices_of B R user (changes (q, user) t)) rest,
        All-append (IsToViewer ((q, user) ∷ vs)) (notices_of B R user (changes (q, user) t)) rest
            (All_map (λ n. user.connection ≡ n.to) (IsToViewer ((q, user) ∷ vs)) _ (λ n to. inl to)
              own)
            (All_map (IsToViewer vs) (IsToViewer ((q, user) ∷ vs)) rest (λ n to. inr to) all),
      )

  -- After a pass: whose lines are remembered, and to whom something was sent.
  pub record IsTicked (t u : Ticker B.State) : Type 0 where
    pub remembered :
        (pid : ℕ) → has u.lines pid ≡ contains pid (keys (viewers t.desk.server.connected))
    pub told : IsSentTo (viewers t.desk.server.connected) t.desk.sent u.desk.sent

  -- After Tick, the viewers whose lines are remembered are exactly those who are connected (but for the
  -- PID 0), whoever was remembered before; and every notification sent by it goes to the connection of
  -- one of them.
  pub tick-IsTicked : (t : Ticker B.State) → IsTicked t (tick B R t)
  unfolding tick
  tick-IsTicked t = record {
    remembered = λ pid.
        ground (arith, keep_live_lem vs (tick_all B R vs t).lines pid, tick_all-lines vs t pid);
    told = tick_all-sent vs t;
  }
    where
      vs : List (ℕ × ConnectedUser)
      vs = viewers t.desk.server.connected
