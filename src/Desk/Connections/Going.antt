-- ===== src/Desk/Connections/Going.antt =====
-- What the end of a connection leaves behind: the handler of nex/secure.go.
use nn_friends.Prelude.{
  ℕ, ◌≡◌, ◌≢◌, refl, sym, ap, subst, ◌∙◌, none, some, List, ◌++◌, Result, ok, err, nat_eq,
  nat_beq_iff, arith, contains, false, String,
}
use nn_friends.Prelude.Dict.{get, get-remove}
use nn_friends.Errors.{Error}
use nn_friends.Types.{ConnectedUser, Platform, wup, ctr}
use nn_friends.Accounts.{mark_account_offline, online_pids_of_account}
use nn_friends.Accounts.Online.{
  mark_account_offline-unlisted, IsNotFound, mark_account_offline-IsNotFound,
  mark_account_offline-others,
}
use nn_friends.Database.Backend.{Backend}
use nn_friends.Database.Server.{Server}
use nn_friends.Wiiu.Accepting.{FriendInfo, stamped}
use nn_friends.Wiiu.Friends.{get_user_friend_list}
use nn_friends.Wiiu.Updates
use nn_friends.Ctr.Friends.{FriendRelationship, get_user_friends}
use nn_friends.Ctr.Settings
use nn_friends.Desk.{Desk, friend_offline}
use nn_friends.Desk.Broadcast.{
  notices_to, broadcast, wiiu_pids, friends_of, ctr_pids, ctr_friends_of, send_ctr,
  send_user_went_offline,
}
use nn_friends.Desk.Keeping.{
  get_user_friend_list-EndsWith, get_user_friends-EndsWith, update_user_last_online_time-EndsWith,
  update_last_online_3ds-EndsWith, EndsWith-connected,
}
use nn_friends.Desk.Connections.{leave, connection_ended, ended_for}

module _ (B : Backend) where
  -- Some people, as they are connected in `d`, have been told that `pid` is offline; the people
  -- connected and the accounts are as they were.
  record IsLeaving (pid : ℕ) (d e : Desk B.State) : Type 0 where
    connected : e.server.connected ≡ d.server.connected
    accounts : e.accounts ≡ d.accounts
    told :
        (friends : List ℕ) × (e.sent ≡ d.sent ++ notices_to d.server (friend_offline pid) friends)

  -- The notices are the same where the same people are connected.
  notices_to_same :
      (s t : Server B.State) (pid : ℕ) (friends : List ℕ)
      → s.connected ≡ t.connected
      → notices_to s (friend_offline pid) friends ≡ notices_to t (friend_offline pid) friends
  notices_to_same s t pid friends same =
      ap (λ c. notices_to (record t { connected = c }) (friend_offline pid) friends) same

  wiiu_pids_state : (p : Result Error (List FriendInfo) × Server B.State) → (wiiu_pids B p).1 ≡ p.1
  wiiu_pids_state (ok infos, s) = refl
  wiiu_pids_state (err e, s) = refl

  ctr_pids_state :
      (p : Result Error (List FriendRelationship) × Server B.State) → (ctr_pids B p).1 ≡ p.1
  ctr_pids_state (ok rs, s) = refl
  ctr_pids_state (err e, s) = refl

  pub friends_of_connected :
      (pid : ℕ) (s : Server B.State) → (friends_of B pid s).1.connected ≡ s.connected
  unfolding friends_of
  friends_of_connected pid s =
      ap (λ t. t.connected) (wiiu_pids_state (get_user_friend_list B pid s))
      ∙ EndsWith-connected (get_user_friend_list B pid) s
          (get_user_friend_list-EndsWith B _ pid s (refl, refl))

  pub ctr_friends_of_connected :
      (pid : ℕ) (s : Server B.State) → (ctr_friends_of B pid s).1.connected ≡ s.connected
  unfolding ctr_friends_of
  ctr_friends_of_connected pid s =
      ap (λ t. t.connected) (ctr_pids_state (get_user_friends B pid s))
      ∙ EndsWith-connected (get_user_friends B pid) s
          (get_user_friends-EndsWith B _ pid s (refl, refl))

  leave-IsLeaving :
      (platform : Platform) (pid : ℕ) (d : Desk B.State) → IsLeaving pid d (leave B platform pid d)
  unfolding send_user_went_offline send_ctr broadcast
  leave-IsLeaving wup pid d = record {
    connected = friends ∙ stored;
    accounts = refl;
    told = (
      (friends_of B pid s).0,
      ap (λ l. d.sent ++ l)
          (notices_to_same (friends_of B pid s).1 d.server pid _ (friends ∙ stored)),
    );
  }
    where
      s : Server B.State
      s = (Updates.update_user_last_online_time B pid (stamped B d.server) d.server).1

      stored : s.connected ≡ d.server.connected
      stored =
          EndsWith-connected (Updates.update_user_last_online_time B pid (stamped B d.server))
            d.server (update_user_last_online_time-EndsWith B _ pid _ d.server (refl, refl))

      friends : (friends_of B pid s).1.connected ≡ s.connected
      friends = friends_of_connected pid s
  leave-IsLeaving ctr pid d = record {
    connected = friends ∙ stored;
    accounts = refl;
    told = (
      (ctr_friends_of B pid s).0,
      ap (λ l. d.sent ++ l)
          (notices_to_same (ctr_friends_of B pid s).1 d.server pid _ (friends ∙ stored)),
    );
  }
    where
      s : Server B.State
      s = (Settings.update_user_last_online_time B pid (stamped B d.server) d.server).1

      stored : s.connected ≡ d.server.connected
      stored =
          EndsWith-connected (Settings.update_user_last_online_time B pid (stamped B d.server))
            d.server (update_last_online_3ds-EndsWith B _ pid _ d.server (refl, refl))

      friends : (ctr_friends_of B pid s).1.connected ≡ s.connected
      friends = ctr_friends_of_connected pid s

  -- `pid` is gone from the people connected, it is listed for no account, and the account that it was
  -- marked with is not found with it; the others are connected and marked as before; and what was
  -- sent tells of `pid` alone, that it is offline.
  pub record IsGone (pid : ℕ) (d e : Desk B.State) : Type 0 where
    pub gone : get e.server.connected pid ≡ none
    pub others : (q : ℕ) → q ≢ pid → get e.server.connected q ≡ get d.server.connected q
    pub unlisted :
        (account : String) → contains pid (online_pids_of_account account e.accounts) ≡ false
    pub not_found : IsNotFound (get d.accounts.pids pid) pid e.accounts
    pub marked : (q : ℕ) → q ≢ pid → get e.accounts.pids q ≡ get d.accounts.pids q
    pub told :
        (friends : List ℕ) × (e.sent ≡ d.sent ++ notices_to d.server (friend_offline pid) friends)

  -- When the connection of somebody who is connected ends, on either console, and whatever fails in
  -- the database, they are no longer connected, no account lists their PID (OnlinePIDsOfAccount), and
  -- the account that the PID was marked with is not found with it (OnlinePIDOfAccount); everybody
  -- else is connected, and every other PID marked, as before; and people are told of nothing but that
  -- they are offline.
  pub connection_ended-IsGone :
      (pid : ℕ) (user : ConnectedUser) (d : Desk B.State)
      → get d.server.connected pid ≡ some user
      → IsGone pid d (connection_ended B pid d)
  unfolding connection_ended
  connection_ended-IsGone pid user d there =
      subst (λ o. IsGone pid d (ended_for B o pid d)) (sym there)
        (record {
          gone = ground (arith, get-remove after.server.connected pid pid, nat_beq_iff pid pid);
          others = λ q differ.
              ground
                (arith, get-remove after.server.connected pid q, nat_beq_iff pid q, left.connected);
          unlisted = λ account. mark_account_offline-unlisted account pid after.accounts;
          not_found =
              subst (λ a. IsNotFound (get a.pids pid) pid (mark_account_offline pid after.accounts))
                left.accounts (mark_account_offline-IsNotFound pid after.accounts);
          marked = λ q differ.
              mark_account_offline-others pid q after.accounts differ
              ∙ ap (λ a. get a.pids q) left.accounts;
          told = left.told;
        })
    where
      after : Desk B.State
      after = leave B user.platform pid d

      left : IsLeaving pid d after
      left = leave-IsLeaving user.platform pid d
