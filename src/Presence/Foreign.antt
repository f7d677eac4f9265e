-- ===== src/Presence/Foreign.antt =====
-- crosspresence/foreign.go, ForeignFor and ForeignFriends of crosspresence/glue.go, and
-- crosspresence/render.go: the friends who are live on another platform, and how they are shown.
pub mod Elsewhere
use nn_friends.Prelude.{
  ℕ, String, Option, none, some, List, [], ◌∷◌, Bool, true, false, not, ◌&&◌, Exec, Result, ok, err,
  if◌then◌else◌, nat_eq, string_eq, take,
}
use nn_friends.Prelude.Text.{equal_fold}
use nn_friends.Prelude.Dict.{Dict, get, put, has}
use nn_friends.Errors.{Error}
use nn_friends.Types.{Presence, PresenceV2, new_presence, new_presence_v2}
use nn_friends.Coregraph.Services.{LivePresence}
use nn_friends.Database.Backend.{Backend}
use nn_friends.Database.Server.{Server, remote}

-- Live
pub record Live : Type 0 where
  pub namespace : String
  pub title_id : String
  pub client : String

-- What is shown of a friend elsewhere: the line that Description makes, and the changed flags that
-- WiiUPresence sets, of the constants of nex-protocols-go.
pub record Rendering : Type 0 where
  pub description : Live → String
  pub wiiu_flags : ℕ

abbrev pub all_flags_3ds : ℕ
all_flags_3ds = 0xFFFFFFFF

abbrev pub wiiu_presence : Rendering → ℕ → String → PresenceV2
wiiu_presence R pid message = record new_presence_v2 {
  changed_flags = R.wiiu_flags;
  online = true;
  message = message;
  pid = pid;
  application_data = 0 ∷ [];
}

abbrev pub three_ds_presence : String → Presence
three_ds_presence message = record new_presence { changed_flags = all_flags_3ds; message = message }

-- The answers of the core, without those on the viewer's own platform.
unfoldable pub elsewhere : String → List LivePresence → Dict String Live → Dict String Live
elsewhere ns [] out = out
elsewhere ns (p ∷ ps) out = elsewhere ns ps (
    if equal_fold p.namespace ns
    then out
    else put out p.account_id
        (record { namespace = p.namespace; title_id = p.title_id; client = p.client }))

-- The core's cap.
abbrev pub max_accounts : ℕ
max_accounts = 200

abbrev pub accounts_away : (ℕ → Bool) → Dict ℕ String → List String
accounts_away connected [] = []
accounts_away connected ((pid, account) ∷ d) =
    if connected pid then accounts_away connected d else account ∷ accounts_away connected d

-- The second loop of ForeignFor; Go's map of the result is built in the order of `by_pid`.
unfoldable pub lines_of :
    Rendering → (ℕ → Bool) → Dict String Live → Dict ℕ String → Dict ℕ String → Dict ℕ String
lines_of R connected live [] out = out
lines_of R connected live ((pid, account) ∷ d) out =
    lines_of R connected live d (elim (get live account) [
      | none ↦ out
      | some l ↦ if connected pid then out else put out pid (R.description l)
    ])

module _ (B : Backend) (R : Rendering) where
  abbrev pub live_answer :
      String → Result Error (List LivePresence) × Server B.State → Dict String Live × Server B.State
  live_answer ns (err e, s) = ([], s)
  live_answer ns (ok ps, s) = (elsewhere ns ps [], s)

  -- A core that cannot answer means nobody.
  unfoldable pub foreign : String → List String → Server B.State → Dict String Live × Server B.State
  unfolding elsewhere
  foreign ns [] s = ([], s)
  foreign ns (a ∷ as') s = live_answer ns (remote (B.get_presence (take max_accounts (a ∷ as'))) s)

  unfoldable pub foreign_for :
      String → Dict ℕ String → (ℕ → Bool) → Server B.State → Dict ℕ String × Server B.State
  unfolding lines_of foreign
  foreign_for ns by_pid connected s =
      let (live, t) = foreign ns (accounts_away connected by_pid) s in
      (lines_of R connected live by_pid [], t)

  abbrev pub foreign_of :
      String → Result Error (Dict ℕ String) × Server B.State → Dict ℕ String × Server B.State
  foreign_of ns (err e, s) = ([], s)
  foreign_of ns (ok by_pid, s) = foreign_for ns by_pid (has s.connected) s

  unfoldable pub foreign_friends : String → ℕ → Server B.State → Dict ℕ String × Server B.State
  unfolding foreign_for
  foreign_friends ns viewer s =
      if B.configured s.backend
      then foreign_of ns (remote (B.friend_accounts_by_pid ns viewer) s)
      else ([], s)
