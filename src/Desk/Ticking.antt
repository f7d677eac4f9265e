-- ===== src/Desk/Ticking.antt =====
-- Tick of crossnotify/crossnotify.go, with SendPresenceTo and SendWentOfflineTo of
-- notifications/wiiu/send_cross_presence.go and notifications/3ds/send_cross_presence.go.
pub mod Kept
use nn_friends.Prelude.{
  ℕ, String, Option, none, some, List, [], ◌∷◌, ◌++◌, Bool, true, false, ◌==◌, string_eq,
  if◌then◌else◌, nat_beq, nat_eq, contains,
}
use nn_friends.Prelude.Dict.{Dict, get, put, has, keys}
use nn_friends.Types.{ConnectedUser, ConnectedUsers, Platform, wup, ctr, namespace_of}
use nn_friends.Database.Backend.{Backend}
use nn_friends.Presence.Foreign.{Rendering, wiiu_presence, three_ds_presence, foreign_friends}
use nn_friends.Presence.Notify.{Change, diff}
use nn_friends.Desk.{Desk, Notice, News, presence_wiiu, presence_3ds, friend_offline}

-- `lines` is `sent`: for each viewer, the lines last sent.
pub record Ticker (G : Type 0) : Type 0 where
  pub desk : Desk G
  pub lines : Dict ℕ (Dict ℕ String)

-- The viewers: everybody connected but the PID 0.
abbrev pub viewers : ConnectedUsers → List (ℕ × ConnectedUser)
viewers [] = []
viewers ((pid, user) ∷ users) = if nat_beq pid 0 then viewers users else (pid, user) ∷ viewers users

abbrev pub lines_or_none : Option (Dict ℕ String) → Dict ℕ String
lines_or_none none = []
lines_or_none (some lines) = lines

-- `delete(sent, pid)` for the viewers who are gone.
abbrev pub keep_live : List (ℕ × ConnectedUser) → Dict ℕ (Dict ℕ String) → Dict ℕ (Dict ℕ String)
keep_live live [] = []
keep_live live ((pid, lines) ∷ d) =
    if contains pid (keys live) then (pid, lines) ∷ keep_live live d else keep_live live d

-- sendEventTo
abbrev pub event_to : Option ℕ → News → List Notice
event_to none news = []
event_to (some c) news = record { to = some c; news = news } ∷ []

module _ (B : Backend) (R : Rendering) where
  abbrev pub news_of : Platform → Change → News
  news_of ctr c =
      if c.line == ""
      then friend_offline c.friend_pid
      else presence_3ds c.friend_pid (three_ds_presence c.line)
  news_of wup c =
      if c.line == ""
      then friend_offline c.friend_pid
      else presence_wiiu (wiiu_presence R c.friend_pid c.line)

  abbrev pub notices_of : ConnectedUser → List Change → List Notice
  notices_of user [] = []
  notices_of user (c ∷ cs) =
      event_to user.connection (news_of user.platform c) ++ notices_of user cs

  -- One viewer, with the lines of this pass.
  unfoldable pub tick_viewer : ℕ × ConnectedUser → Ticker B.State → Ticker B.State
  tick_viewer (pid, user) t =
      let (now, s) = foreign_friends B R (namespace_of user.platform) pid t.desk.server in
      record {
        desk = record t.desk {
          server = s;
          sent =
              t.desk.sent
              ++ notices_of user (diff (lines_or_none (get t.lines pid)) now (has s.connected));
        };
        lines = put t.lines pid now;
      }

  abbrev pub tick_all : List (ℕ × ConnectedUser) → Ticker B.State → Ticker B.State
  tick_all [] t = t
  tick_all (v ∷ vs) t = tick_all vs (tick_viewer v t)

  unfoldable pub tick : Ticker B.State → Ticker B.State
  unfolding tick_viewer
  tick t =
      let u = tick_all (viewers t.desk.server.connected) t in
      record u { lines = keep_live (viewers t.desk.server.connected) u.lines }
