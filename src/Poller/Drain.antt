-- ===== src/Poller/Drain.antt =====
-- drain, headVersion and loadCursor of coreevents/poller.go against a log that the core serves.
use nn_friends.Prelude.{
  ℕ, zero, suc, ◌+◌, ◌≤◌, ◌<◌, ◌≡◌, refl, sym, ap, ◌∙◌, subst, Option, none, some, List, [], ◌∷◌,
  ◌++◌, take, length, ltb, arith, ok, Bool-cases, inl, inr,
}
use nn_friends.Poller.{
  Event, page_size, Feed, Follower, last_version, handle_all, save_cursor, take_page, drain,
  drain_page, head_page, head_version,
}
use nn_friends.Poller.Pages.{
  IsAscending, after, next_page, handle_all-append, last_version-append, take-drop, full_page,
  last_page, not_last_page,
}

-- PollEvents answers with the first 500 events of the log after the version given.
pub record Serves {W : Type 0} (feed : Feed W) (log : List Event) : Type 0 where
  pub polled : (v : ℕ) (w : W) → feed.poll v w ≡ (ok (take page_size (after v log)), w)

module _ {W : Type 0} where
  take_page_world :
      (f : Event → W → W) (es : List Event) (v : ℕ) (s : Follower W)
      → (take_page f es v s).world ≡ handle_all f es s.world
  unfolding take_page save_cursor
  take_page_world f [] v s = refl
  take_page_world f (e ∷ es) v s = refl

module _ {W : Type 0} (feed : Feed W) (log : List Event) (served : Serves feed log) (u : ℕ)
    (asc : IsAscending u log) where
  abbrev pub IsDrained : ℕ → W → Option (ℕ × Follower W) → Type 0
  IsDrained v w none = ⊥
  IsDrained v w (some (last, t)) =
      (last ≡ last_version v (after v log)) × (t.world ≡ handle_all feed.handle (after v log) w)

  IsDrained-from :
      (v v2 : ℕ) (w w2 : W) (o : Option (ℕ × Follower W))
      → last_version v (after v log) ≡ last_version v2 (after v2 log)
      → handle_all feed.handle (after v log) w ≡ handle_all feed.handle (after v2 log) w2
      → IsDrained v2 w2 o
      → IsDrained v w o
  IsDrained-from v v2 w w2 none versions worlds h = h
  IsDrained-from v v2 w w2 (some (last, t)) versions worlds (same, handled) =
      (same ∙ sym versions, handled ∙ sym worlds)

  -- A page and what comes after it are all that comes after `v`.
  page_split :
      (v : ℕ)
      → (take page_size (after v log)) ++ after (last_version v (take page_size (after v log))) log
        ≡ after v log
  page_split v =
      ap (λ l. take page_size (after v log) ++ l) (next_page u v page_size log asc)
      ∙ take-drop page_size (after v log)

  rest_length :
      (v : ℕ)
      → page_size ≤ length (take page_size (after v log))
      → length (after v log)
        ≡ page_size + length (after (last_version v (take page_size (after v log))) log)
  rest_length v full =
      full_page page_size (after v log) full
      ∙ ap (λ l. page_size + length l) (sym (next_page u v page_size log asc))

  -- Where the core serves a log whose versions ascend, draining it from any version, with more fuel
  -- than there are events after that version, ends: the version returned is that of the last event,
  -- and every event after the version has been handled once, in the order of the log, whatever the
  -- number of pages and whether or not the cursor could be written.
  pub drain-IsDrained :
      (fuel v : ℕ) (s : Follower W)
      → length (after v log) < fuel
      → IsDrained v s.world (drain feed fuel v s)
  unfolding drain
  drain-IsDrained zero v s enough = absurd (omega (arith, enough))
  drain-IsDrained (suc fuel) v s enough =
      subst (λ p. IsDrained v s.world (drain_page feed (drain feed fuel) v s p))
        (sym (served.polled v s.world))
        (elim (Bool-cases (ltb (length page) page_size)) [
          | inl short ↦ simp (short) (ended (last_page page_size (after v log) short).0)
          | inr full ↦ simp (full) (
              IsDrained-from v next s.world t.world (drain feed fuel next t)
                (ap (last_version v) (sym (page_split v))
                  ∙ last_version-append v page (after next log))
                (ap (λ l. handle_all feed.handle l s.world) (sym (page_split v))
                  ∙ handle_all-append feed.handle page (after next log) s.world
                  ∙ ap (handle_all feed.handle (after next log))
                      (sym (take_page_world feed.handle page v s)))
                (drain-IsDrained fuel next t (
                  omega
                    (arith, enough, rest_length v (not_last_page page_size (after v log) full)))))
        ])
    where
      page : List Event
      page = take page_size (after v log)

      next : ℕ
      next = last_version v page

      t : Follower W
      t = take_page feed.handle page v s

      ended :
          page ≡ after v log
          → (last_version v page ≡ last_version v (after v log))
            × (t.world ≡ handle_all feed.handle (after v log) s.world)
      ended same = (
        ap (last_version v) same,
        take_page_world feed.handle page v s ∙ ap (λ l. handle_all feed.handle l s.world) same,
      )

  -- Where the core serves a log whose versions ascend, paging it from any version, with more fuel
  -- than there are events after that version, finds the version of its last event.
  pub head_version_last :
      (fuel v : ℕ) (w : W)
      → length (after v log) < fuel
      → head_version feed fuel v w ≡ some (ok (last_version v (after v log)), w)
  unfolding head_version
  head_version_last zero v w enough = absurd (omega (arith, enough))
  head_version_last (suc fuel) v w enough =
      ap (head_page feed (head_version feed fuel) v) (served.polled v w)
      ∙ elim (Bool-cases (ltb (length page) page_size)) [
        | inl short ↦
            simp (short) (
              ap (λ l. some (ok (last_version v l), w)) (last_page page_size (after v log) short).0)
        | inr full ↦ simp (full) (
            head_version_last fuel next w
              (omega (arith, enough, rest_length v (not_last_page page_size (after v log) full)))
            ∙ ap (λ x. some (ok x, w))
                (sym (last_version-append v page (after next log))
                  ∙ ap (last_version v) (page_split v)))
      ]
    where
      page : List Event
      page = take page_size (after v log)

      next : ℕ
      next = last_version v page
