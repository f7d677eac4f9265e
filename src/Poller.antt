-- ===== src/Poller.antt =====
-- coreevents/poller.go: the loop that takes the core's events. What an event does (`handle`) is a
-- parameter here. A failed write of the cursor is ignored, as in the source.
pub mod Pages
pub mod Drain
pub mod Stream
use nn_friends.Prelude.{
  ℕ, zero, suc, String, Option, none, some, List, [], ◌∷◌, Bool, true, false, Exec, Result, ok, err,
  ltb, leb, if◌then◌else◌, length,
}
use nn_friends.Errors.{Code, unimplemented}
use nn_friends.Database.Server.{refused, later}

pub record Event : Type 0 where
  pub version : ℕ
  pub kind : String
  pub account : String
  pub subject : String

-- `page_size` of the core: a shorter page is the last one.
abbrev pub page_size : ℕ
page_size = 500

-- The events after `since`, and what was received on a subscription before it broke.
pub record Feed (W : Type 0) : Type 0 where
  pub poll : ℕ → Exec W Code (List Event)
  pub subscribe : ℕ → Exec W Code (List Event)
  pub handle : Event → W → W

-- `cursor` is the row of core_events_cursor.
pub record Follower (W : Type 0) : Type 0 where
  pub world : W
  pub cursor : Option ℕ
  pub faults : List Bool

abbrev pub last_version : ℕ → List Event → ℕ
last_version v [] = v
last_version v (e ∷ es) = last_version e.version es

abbrev pub handle_all : {W : Type 0} → (Event → W → W) → List Event → W → W
handle_all f [] w = w
handle_all f (e ∷ es) w = handle_all f es (f e w)

module _ {W : Type 0} where
  unfoldable pub save_cursor : ℕ → Follower W → Follower W
  save_cursor v s = record s {
    cursor = (if refused s.faults then s.cursor else some v);
    faults = later s.faults;
  }

  -- One page of drain.
  unfoldable pub take_page : (Event → W → W) → List Event → ℕ → Follower W → Follower W
  unfolding save_cursor
  take_page f [] v s = s
  take_page f (e ∷ es) v s =
      save_cursor (last_version v (e ∷ es)) (record s { world = handle_all f (e ∷ es) s.world })

module _ {W : Type 0} (feed : Feed W) where
  -- The body of the loop of drain, on the answer of PollEvents; a failed poll is tried again.
  abbrev pub drain_page :
      (ℕ → Follower W → Option (ℕ × Follower W))
      → ℕ
      → Follower W
      → Result Code (List Event) × W
      → Option (ℕ × Follower W)
  drain_page again v s (err c, w) = again v (record s { world = w })
  drain_page again v s (ok page, w) =
      let u = last_version v page in
      let t = take_page feed.handle page v (record s { world = w }) in
      if ltb (length page) page_size then some (u, t) else again u t

  -- `none` where the fuel does not reach the end.
  unfoldable pub drain : ℕ → ℕ → Follower W → Option (ℕ × Follower W)
  drain zero v s = none
  drain (suc fuel) v s = drain_page (drain fuel) v s (feed.poll v s.world)

  abbrev pub head_page :
      (ℕ → W → Option (Result Code ℕ × W))
      → ℕ
      → Result Code (List Event) × W
      → Option (Result Code ℕ × W)
  head_page again v (err c, w) = some (err c, w)
  head_page again v (ok page, w) =
      let u = last_version v page in
      if ltb (length page) page_size then some (ok u, w) else again u w

  -- `none` for fuel that runs out.
  unfoldable pub head_version : ℕ → ℕ → W → Option (Result Code ℕ × W)
  head_version zero v w = none
  head_version (suc fuel) v w = head_page (head_version fuel) v (feed.poll v w)

  -- loadCursor on the row that was read.
  abbrev pub chosen : Result Code ℕ → Option ℕ → Follower W → ℕ × Follower W
  chosen (ok head) (some v) s = if ltb head v then (head, save_cursor head s) else (v, s)
  chosen (err c) (some v) s = (v, s)
  chosen (ok head) none s = (head, save_cursor head s)
  chosen (err c) none s = (0, s)

  -- An error of QueryRow or of Scan is the same as no row.
  unfoldable pub choose_cursor : Result Code ℕ → Follower W → ℕ × Follower W
  choose_cursor head s =
      chosen head (if refused s.faults then none else s.cursor)
        (record s { faults = later s.faults })

  unfoldable pub load_cursor : ℕ → Follower W → Option (ℕ × Follower W)
  unfolding head_version choose_cursor
  load_cursor fuel s = elim (head_version fuel 0 s.world) [
    | none ↦ none
    | some (head, w) ↦ some (choose_cursor head (record s { world = w }))
  ]

  -- The events received, in order; one that is not newer than the version reached is a replay.
  unfoldable pub receive : List Event → ℕ → Follower W → ℕ × Follower W
  unfolding save_cursor
  receive [] v s = (v, s)
  receive (e ∷ es) v s =
      let skipped = receive es v s in
      let taken =
        receive es e.version (save_cursor e.version (record s { world = feed.handle e s.world })) in
      if leb e.version v then skipped else taken

  abbrev is_unimplemented : Code → Bool
  is_unimplemented Code.unimplemented = true
  is_unimplemented _ = false

  -- (legacy, ok)
  unfoldable pub stream : ℕ → Follower W → (Bool × Bool) × Follower W
  unfolding receive
  stream v s =
      let (r, w) = feed.subscribe v s.world in
      elim r [
        | err c ↦
            ((if is_unimplemented c then (true, true) else (false, false)), record s { world = w })
        | ok events ↦ ((false, false), (receive events v (record s { world = w })).1)
      ]

  -- The fallback poll, as often as it ticks before the deadline.
  poll_on : ℕ → ℕ → ℕ → Follower W → Option (ℕ × Follower W)
  unfolding drain
  poll_on fuel zero v s = some (v, s)
  poll_on fuel (suc ticks) v s = elim (drain fuel v s) [
    | none ↦ none
    | some (u, t) ↦ poll_on fuel ticks u t
  ]

  abbrev state_of : Option (ℕ × Follower W) → Option (Follower W)
  state_of none = none
  state_of (some (v, s)) = some s

  -- One round of the loop of Start.
  unfoldable pub round : ℕ → ℕ → Follower W → Option (Follower W)
  unfolding load_cursor drain stream poll_on
  round fuel ticks s = elim (load_cursor fuel s) [
    | none ↦ none
    | some (v, t) ↦ elim (drain fuel v t) [
      | none ↦ none
      | some (u, t2) ↦
          let ((legacy, fine), t3) = stream u t2 in
          if legacy then state_of (poll_on fuel ticks u t3) else some t3
    ]
  ]
