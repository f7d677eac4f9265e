-- ===== src/Wiiu/Friends.antt =====
-- database/wiiu: the friend list (get_user_friend_list.go, get_user_friend_pids.go) and what is
-- known of one user (get_user_data.go). The core says who the friends are.
pub mod Shown
use nn_friends.Prelude.{
  ℕ, String, Option, none, some, List, [], ◌∷◌, Bool, true, false, ◌&&◌, ◌||◌, Exec, Result, ok,
  err, pure, fail, ◌>>=◌, ◌>>◌, if◌then◌else◌, contains, take, nat_beq, nat_eq,
}
use nn_friends.Prelude.Dict.{Dict, get}
use nn_friends.Errors.{Error, empty_list, no_rows, is_unresolved}
use nn_friends.Types.{ConnectedUser}
use nn_friends.Database.Tables.{
  Tables, UserData, AccountInfo, PrincipalRow, MiiRow, Friendship, FriendRequest,
}
use nn_friends.Database.Backend.{Backend}
use nn_friends.Database.Server.{Server, statement, query_row, remote, gets}
use nn_friends.Database.Rows.{first}
use nn_friends.Wiiu.Profiles.{PrincipalInfo, NnaInfo, Comment, ensure_profiles, or_default}
use nn_friends.Wiiu.Accepting.{FriendInfo, presence_of, stamped}

-- One row of the SELECT of FriendInfosForPIDs.
pub record FriendRow : Type 0 where
  pub nna : NnaInfo
  pub date : ℕ
  pub comment : Comment
  pub last_online : ℕ

-- The two subselects and the 0 of the first COALESCE.
abbrev is_active_friendship : ℕ → ℕ → Friendship → Bool
is_active_friendship viewer pid f =
    nat_beq f.user1_pid viewer && (nat_beq f.user2_pid pid && f.active)

abbrev is_accepted_request : ℕ → ℕ → FriendRequest → Bool
is_accepted_request viewer pid r =
    r.accepted
    && ((nat_beq r.sender_pid viewer && nat_beq r.recipient_pid pid)
        || (nat_beq r.sender_pid pid && nat_beq r.recipient_pid viewer))

abbrev date_of : Option Friendship → Option FriendRequest → ℕ
date_of (some f) r = f.date
date_of none (some r) = r.sent_on
date_of none none = 0

unfoldable pub became_friends : ℕ → ℕ → Tables → ℕ
became_friends viewer pid t =
    date_of (first (is_active_friendship viewer pid) t.friendships)
      (first (is_accepted_request viewer pid) t.requests)

abbrev pub comment_of : Option UserData → Comment
comment_of none = record { contents = ""; last_changed = 0 }
comment_of (some u) = record { contents = u.comment; last_changed = u.comment_changed }

abbrev pub last_online_in : Option UserData → ℕ
last_online_in none = 0
last_online_in (some u) = u.last_online

abbrev pub no_mii : MiiRow
no_mii = record { name = ""; unknown1 = 0; unknown2 = 0; mii_bytes = []; unknown_datetime = 0 }

abbrev pub no_account_info : AccountInfo
no_account_info = record { unknown1 = 0; unknown2 = 0; birthday = 0 }

abbrev pub nna_of : ℕ → PrincipalRow → AccountInfo → MiiRow → NnaInfo
nna_of pid row info mii = record {
  unknown1 = info.unknown1;
  unknown2 = info.unknown2;
  principal = record { pid = pid; nnid = row.username; unknown = row.unknown; mii = mii };
}

-- A row with its three LEFT JOINs.
unfoldable pub friend_row : ℕ → Tables → ℕ × PrincipalRow → FriendRow
friend_row viewer t (pid, row) = record {
  nna =
      nna_of pid row (or_default no_account_info (get t.account_info pid))
        (or_default no_mii (get t.miis pid));
  date = became_friends viewer pid t;
  comment = comment_of (get t.user_data pid);
  last_online = last_online_in (get t.user_data pid);
}

-- WHERE bi.pid = ANY($2)
abbrev pub friend_rows : ℕ → List ℕ → Tables → Dict ℕ PrincipalRow → List FriendRow
friend_rows viewer pids t [] = []
friend_rows viewer pids t (p ∷ ps) =
    if contains p.0 pids
    then friend_row viewer t p ∷ friend_rows viewer pids t ps
    else friend_rows viewer pids t ps

-- LIMIT 100
unfoldable pub select_friends : ℕ → List ℕ → Tables → List FriendRow
select_friends viewer pids t = take 100 (friend_rows viewer pids t t.principals)

-- Who is online is so now; for another the stored time is told.
abbrev pub last_seen : Option ConnectedUser → ℕ → ℕ → ℕ
last_seen (some user) now stored = now
last_seen none now stored = stored

-- The core keeps no time of acceptance: where nothing is known, now is shown.
abbrev pub date_or_now : ℕ → ℕ → ℕ
date_or_now date now = if nat_beq date 0 then now else date

unfoldable pub friend_of_row : Option ConnectedUser → ℕ → FriendRow → FriendInfo
friend_of_row user now row = record {
  nna = row.nna;
  presence = presence_of user;
  status = row.comment;
  became_friend = date_or_now row.date now;
  last_online = last_seen user now row.last_online;
}

module _ (B : Backend) where
  abbrev pub infos_of : Server B.State → List FriendRow → List FriendInfo
  infos_of s [] = []
  infos_of s (row ∷ rows) =
      friend_of_row (get s.connected row.nna.principal.pid) (stamped B s) row ∷ infos_of s rows

  -- The query, and the loop over its rows.
  unfoldable pub read_friends : ℕ → List ℕ → Exec (Server B.State) Error (List FriendInfo)
  unfolding select_friends
  read_friends viewer pids = do
    rows ← statement (λ t. (select_friends viewer pids t, t))
    gets (λ s. infos_of s rows)

  unfoldable pub friend_infos_for_pids : ℕ → List ℕ → Exec (Server B.State) Error (List FriendInfo)
  friend_infos_for_pids viewer [] = fail empty_list
  friend_infos_for_pids viewer (p ∷ ps) = do
    ensure_profiles B (p ∷ ps)
    read_friends viewer (p ∷ ps)

  unfoldable pub get_user_friend_list : ℕ → Exec (Server B.State) Error (List FriendInfo)
  get_user_friend_list pid = do
    friends ← remote (B.friend_pids "wiiu" pid)
    friend_infos_for_pids pid friends

  abbrev some_friends : List ℕ → Exec (Server B.State) Error (List ℕ)
  some_friends [] = fail empty_list
  some_friends (p ∷ ps) = pure (p ∷ ps)

  -- An account that is not resolved has no friends.
  abbrev friends_or_none :
      Result Error (List ℕ) × Server B.State → Result Error (List ℕ) × Server B.State
  friends_or_none (ok pids, s) = some_friends pids s
  friends_or_none (err e, s) = if is_unresolved e then (err empty_list, s) else (err e, s)

  unfoldable pub get_user_friend_pids : ℕ → Exec (Server B.State) Error (List ℕ)
  get_user_friend_pids pid s = friends_or_none (remote (B.friend_pids "wiiu" pid) s)

  -- The INNER JOINs of GetUserData: a user without a row in one of the four tables has none.
  abbrev joined_user :
      ℕ
      → Option UserData
      → Option PrincipalRow
      → Option AccountInfo
      → Option MiiRow
      → Option FriendRow
  joined_user pid (some u) (some p) (some a) (some m) = some (record {
    nna = nna_of pid p a m;
    date = 0;
    comment = comment_of (some u);
    last_online = u.last_online;
  })
  joined_user pid _ _ _ _ = none

  abbrev pub user_row : ℕ → Tables → Option FriendRow
  user_row pid t =
      joined_user pid (get t.user_data pid) (get t.principals pid) (get t.account_info pid)
        (get t.miis pid)

  -- The date is the variable that the source never sets.
  abbrev data_of_row : Option ConnectedUser → ℕ → FriendRow → FriendInfo
  data_of_row user now row = record (friend_of_row user now row) { became_friend = 0 }

  -- The scan reports a missing row as the driver's error, not as ErrPIDNotFound.
  unfoldable pub get_user_data : ℕ → Exec (Server B.State) Error FriendInfo
  unfolding friend_of_row
  get_user_data pid = do
    row ← query_row (user_row pid) no_rows
    gets (λ s. data_of_row (get s.connected pid) (stamped B s) row)
