-- ===== src/Presence/Notify.antt =====
-- crossnotify/crossnotify.go: what a viewer is told about friends on other platforms.
pub mod Told
use nn_friends.Prelude.{
  ℕ, String, Option, none, some, List, [], ◌∷◌, ◌++◌, Bool, true, false, not, ◌&&◌, ◌||◌,
  if◌then◌else◌, ◌==◌, nat_eq, string_eq,
}
use nn_friends.Prelude.Dict.{Dict, get, has}

-- An empty line says that the friend went offline.
pub record Change : Type 0 where
  pub friend_pid : ℕ
  pub line : String

-- A missing key of a Go map reads as "".
abbrev pub line_at : Dict ℕ String → ℕ → String
line_at d pid = elim (get d pid) [ none ↦ "" | some l ↦ l ]

abbrev pub change : ℕ → String → Change
change pid line = record { friend_pid = pid; line = line }

abbrev pub appeared : Dict ℕ String → Dict ℕ String → List Change
appeared prev [] = []
appeared prev ((pid, line) ∷ now) =
    if line_at prev pid == line then appeared prev now else change pid line ∷ appeared prev now

abbrev pub left : (ℕ → Bool) → Dict ℕ String → Dict ℕ String → List Change
left connected now [] = []
left connected now ((pid, line) ∷ prev) =
    if has now pid || connected pid
    then left connected now prev
    else change pid "" ∷ left connected now prev

unfoldable pub diff : Dict ℕ String → Dict ℕ String → (ℕ → Bool) → List Change
diff prev now connected = appeared prev now ++ left connected now prev
