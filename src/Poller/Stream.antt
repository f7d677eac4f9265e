-- ===== src/Poller/Stream.antt =====
-- stream and the cursor of coreevents/poller.go.
use nn_friends.Prelude.{
  ℕ, zero, suc, ◌≤◌, ◌<◌, ◌≡◌, refl, sym, ap, subst, Option, none, some, List, [], ◌∷◌, ltb, leb,
  arith, Result, ok, err, if◌then◌else◌, Bool-cases, inl, inr, length,
}
use nn_friends.Errors.{Code}
use nn_friends.Database.Server.{refused, later}
use nn_friends.Poller.{
  Event, page_size, Feed, Follower, last_version, handle_all, save_cursor, take_page, drain,
  drain_page, chosen, choose_cursor, receive,
}

-- `Delivers v received fresh`: a subscription opened at `v` delivers the events `fresh`, each of
-- them newer than those before, with replays of earlier ones in between.
pub data Delivers : ℕ → List Event → List Event → Type 0 where
  nothing : (v : ℕ) → Delivers v [] []
  newer :
      (v : ℕ) (e : Event) (es fs : List Event)
      → v < e.version
      → Delivers e.version es fs
      → Delivers v (e ∷ es) (e ∷ fs)
  replay :
      (v : ℕ) (e : Event) (es fs : List Event)
      → e.version ≤ v
      → Delivers v es fs
      → Delivers v (e ∷ es) fs

-- The cursor is saved as `v`, and no write is going to be refused.
pub record Tracks {W : Type 0} (v : ℕ) (s : Follower W) : Type 0 where
  pub saved : s.cursor ≡ some v
  pub faultless : s.faults ≡ []

module _ {W : Type 0} (feed : Feed W) where
  -- Of a delivery with replays, the events that are new are handled once, in their order, and
  -- nothing else is; the version reached is that of the last of them.
  pub receive-once :
      (v : ℕ) (es fs : List Event) (s : Follower W)
      → Delivers v es fs
      → ((receive feed es v s).0 ≡ last_version v fs)
        × ((receive feed es v s).1.world ≡ handle_all feed.handle fs s.world)
  unfolding receive save_cursor
  receive-once _ _ _ s (nothing v) = (refl, refl)
  receive-once _ _ _ s (newer v e es fs lt h) = elim (Bool-cases (leb e.version v)) [
    | inl old ↦ ground (arith, lt, old)
    | inr new ↦ simp (new) (receive-once e.version es fs _ h)
  ]
  receive-once _ _ _ s (replay v e es fs le h) = elim (Bool-cases (leb e.version v)) [
    | inl old ↦ simp (old) (receive-once v es fs s h)
    | inr new ↦ ground (arith, le, new)
  ]

  save_cursor-Tracks : (v : ℕ) (s : Follower W) → s.faults ≡ [] → Tracks v (save_cursor v s)
  unfolding save_cursor
  save_cursor-Tracks v s none_left = record {
    saved = ap (λ l. if refused l then s.cursor else some v) none_left;
    faultless = ap later none_left;
  }

  -- From a state in which the cursor is saved, what a subscription delivers leaves the cursor saved
  -- as the version reached, so a restart takes up the events where they broke off.
  pub receive-Tracks :
      (es : List Event) (v : ℕ) (s : Follower W)
      → Tracks v s
      → Tracks (receive feed es v s).0 (receive feed es v s).1
  unfolding receive save_cursor
  receive-Tracks [] v s h = h
  receive-Tracks (e ∷ es) v s h = elim (Bool-cases (leb e.version v)) [
    | inl old ↦ simp (old) (receive-Tracks es v s h)
    | inr new ↦ simp (new) (
        receive-Tracks es e.version _
          (save_cursor-Tracks e.version (record s { world = feed.handle e s.world }) h.faultless))
  ]

  take_page-Tracks :
      (page : List Event) (v : ℕ) (s : Follower W)
      → Tracks v s
      → Tracks (last_version v page) (take_page feed.handle page v s)
  unfolding take_page
  take_page-Tracks [] v s h = h
  take_page-Tracks (e ∷ es) v s h =
      save_cursor-Tracks (last_version v (e ∷ es))
        (record s { world = handle_all feed.handle (e ∷ es) s.world }) h.faultless

  abbrev pub TracksSome : Option (ℕ × Follower W) → Type 0
  TracksSome none = Unit
  TracksSome (some (v, s)) = Tracks v s

  -- Whatever the polls answer, a drain that starts with its version saved as the cursor ends with
  -- the version that it returns saved.
  pub drain-Tracks : (fuel v : ℕ) (s : Follower W) → Tracks v s → TracksSome (drain feed fuel v s)
  unfolding drain
  drain-Tracks zero v s h = tt
  drain-Tracks (suc fuel) v s h = page_Tracks (drain-Tracks fuel) (feed.poll v s.world)
    where
      page_Tracks :
          ((u : ℕ) (t : Follower W) → Tracks u t → TracksSome (drain feed fuel u t))
          → (p : Result Code (List Event) × W)
          → TracksSome (drain_page feed (drain feed fuel) v s p)
      page_Tracks again (err c, w) =
          again v (record s { world = w }) (record { saved = h.saved; faultless = h.faultless })
      page_Tracks again (ok page, w) = elim (Bool-cases (ltb (length page) page_size)) [
        | inl short ↦
            simp (short)
              (take_page-Tracks page v _ (record { saved = h.saved; faultless = h.faultless }))
        | inr full ↦ simp (full) (
            again _ _
              (take_page-Tracks page v _ (record { saved = h.saved; faultless = h.faultless })))
      ]

  -- A head that is known bounds the version that following starts from; the cursor is saved as that
  -- version, whatever it was before, if writes are not refused.
  pub choose_cursor_known :
      (head : ℕ) (s : Follower W)
      → s.faults ≡ []
      → let (v, t) = choose_cursor feed (ok head) s in (v ≤ head) × Tracks v t × (t.world ≡ s.world)
  unfolding choose_cursor save_cursor
  choose_cursor_known head s none_left =
      subst
        (λ l.
          let (v, t) =
            chosen feed (ok head) (if refused l then none else s.cursor)
              (record s { faults = later l }) in
          (v ≤ head) × Tracks v t × (t.world ≡ s.world))
        (sym none_left) (go s.cursor refl)
    where
      u : Follower W
      u = record s { faults = [] }

      go :
          (row : Option ℕ)
          → s.cursor ≡ row
          → let (v, t) = chosen feed (ok head) row u in
            (v ≤ head) × Tracks v t × (t.world ≡ s.world)
      go none same = (omega arith, save_cursor-Tracks head u refl, refl)
      go (some v) same = elim (Bool-cases (ltb head v)) [
        | inl past ↦ simp (past) (omega arith, save_cursor-Tracks head u refl, refl)
        | inr fine ↦
            simp (fine) (ground (arith, fine), record { saved = same; faultless = refl }, refl)
      ]
