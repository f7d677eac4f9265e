-- ===== src/Desk/Broadcast.antt =====
-- The notifications that go to every friend: notifications/wiiu/send_presence_update.go,
-- send_user_went_offline.go, and the ones of notifications/3ds.
use nn_friends.Prelude.{ℕ, List, [], ◌∷◌, ◌++◌, Result, ok, err, if◌then◌else◌, nat_beq, nat_eq}
use nn_friends.Prelude.Dict.{get}
use nn_friends.Errors.{Error}
use nn_friends.Types.{PresenceV2}
use nn_friends.Database.Backend.{Backend}
use nn_friends.Database.Server.{Server}
use nn_friends.Wiiu.Accepting.{FriendInfo}
use nn_friends.Wiiu.Friends.{get_user_friend_list}
use nn_friends.Ctr.Friends.{FriendRelationship, pids_of, get_user_friends}
use nn_friends.Desk.{Desk, Notice, News, presence_wiiu, friend_offline, notice_for}

abbrev pub pids_of_infos : List FriendInfo → List ℕ
pids_of_infos [] = []
pids_of_infos (i ∷ infos) = i.nna.principal.pid ∷ pids_of_infos infos

module _ {G : Type 0} where
  -- One notification to each of the PIDs that is connected.
  abbrev pub notices_to : Server G → News → List ℕ → List Notice
  notices_to s news [] = []
  notices_to s news (pid ∷ pids) = notice_for (get s.connected pid) news ++ notices_to s news pids

  unfoldable pub broadcast : News → List ℕ → Desk G → Desk G
  broadcast news pids d = record d { sent = d.sent ++ notices_to d.server news pids }

module _ (B : Backend) where
  -- An error of the friend list is logged, and leaves nobody to tell.
  abbrev pub wiiu_pids : Result Error (List FriendInfo) × Server B.State → List ℕ × Server B.State
  wiiu_pids (ok infos, s) = (pids_of_infos infos, s)
  wiiu_pids (err e, s) = ([], s)

  unfoldable pub friends_of : ℕ → Server B.State → List ℕ × Server B.State
  friends_of pid s = wiiu_pids (get_user_friend_list B pid s)

  abbrev pub not_zero : List ℕ → List ℕ
  not_zero [] = []
  not_zero (p ∷ ps) = if nat_beq p 0 then not_zero ps else p ∷ not_zero ps

  -- SendPresenceUpdate of the Wii U
  unfoldable pub send_presence_update : PresenceV2 → Desk B.State → Desk B.State
  unfolding broadcast friends_of
  send_presence_update presence d =
      let (pids, s) = friends_of presence.pid d.server in
      broadcast (presence_wiiu presence) (not_zero pids) (record d { server = s })

  -- SendUserWentOfflineGlobally of the Wii U
  unfoldable pub send_user_went_offline : ℕ → Desk B.State → Desk B.State
  unfolding broadcast friends_of
  send_user_went_offline pid d =
      let (pids, s) = friends_of pid d.server in
      broadcast (friend_offline pid) pids (record d { server = s })

  abbrev pub ctr_pids :
      Result Error (List FriendRelationship) × Server B.State → List ℕ × Server B.State
  ctr_pids (ok rs, s) = (pids_of rs, s)
  ctr_pids (err e, s) = ([], s)

  -- The friends that a 3DS tells: also those whose request is not answered yet.
  unfoldable pub ctr_friends_of : ℕ → Server B.State → List ℕ × Server B.State
  ctr_friends_of pid s = ctr_pids (get_user_friends B pid s)

  -- The loop of every notification of notifications/3ds.
  unfoldable pub send_ctr : ℕ → News → Desk B.State → Desk B.State
  unfolding broadcast ctr_friends_of
  send_ctr pid news d =
      let (pids, s) = ctr_friends_of pid d.server in broadcast news pids (record d { server = s })
