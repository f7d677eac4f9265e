-- ===== src/Desk/Own/Marking.antt =====
-- What UpdateAndGetAllInformation leaves of the accounts that are online:
-- nex/friends-wiiu/update_and_get_all_information.go.
use nn_friends.Prelude.{
  ℕ, ◌≡◌, refl, ap, some, List, [], ◌++◌, Bool, Result, ok, err, ◌>>=◌, Exec, recover, Ends,
  Ends->>=, Ends-any, OnBoth, nat_eq,
}
use nn_friends.Prelude.Dict.{get}
use nn_friends.Errors.{Error, is_empty_list}
use nn_friends.Types.{ConnectedUser, PresenceV2}
use nn_friends.Accounts.{Accounts}
use nn_friends.Database.Backend.{Backend}
use nn_friends.Database.Server.{Server}
use nn_friends.Wiiu.Profiles.{NnaInfo, get_user_comment, get_user_principal_preference}
use nn_friends.Wiiu.Listing.{get_user_friend_requests_in, get_user_friend_requests_out}
use nn_friends.Wiiu.BlockList.{get_user_block_list}
use nn_friends.Wiiu.Friends.{get_user_friend_list}
use nn_friends.Presence.Foreign.{Rendering, foreign_friends}
use nn_friends.Desk.{Desk, Notice, NexError, Handler, invalid_argument, presence_wiiu, db}
use nn_friends.Desk.Sending.{Ends-db, Ends-decoded}
use nn_friends.Desk.Wiiu.{or_unknown, principal_error}
use nn_friends.Desk.Broadcast.{notices_to, broadcast, not_zero, friends_of, send_presence_update}
use nn_friends.Desk.Own.{
  AllInformation, forced_online, ensure_connected, set_presence_v2, read_all, present, presented,
  store_caller, update_and_get_all_information,
}

module _ (B : Backend) where
  module _ (accounts : Accounts) (sent : List Notice) where
    abbrev AsBefore : Desk B.State → Type 0
    AsBefore e = (e.accounts ≡ accounts) × (e.sent ≡ sent)

    abbrev IsQuiet : {A : Type 0} → Handler B.State A → Desk B.State → Type 0
    IsQuiet {A} m d =
        Ends {S = Desk B.State} {E = NexError} {A = A} (λ _ e. AsBefore e) AsBefore m d

    db-IsQuiet :
        {A C : Type 0} (f : Error → NexError) (m : Exec (Server B.State) Error A)
        (k : A → Handler B.State C) (d : Desk B.State)
        → AsBefore d
        → ((a : A) (s : Server B.State) → IsQuiet (k a) (record d { server = s }))
        → IsQuiet (db f m >>= k) d
    db-IsQuiet f m k d same next =
        Ends->>= (db f m) k d (Ends-db f m d (Ends-any m d.server next (λ s. same)))

    read_all-IsQuiet : (pid : ℕ) (d : Desk B.State) → AsBefore d → IsQuiet (read_all B pid) d
    unfolding read_all
    read_all-IsQuiet pid d same =
        db-IsQuiet principal_error (get_user_principal_preference B pid) _ d same (λ _ s1.
          db-IsQuiet principal_error (get_user_comment B pid) _ _ same (λ _ s2.
            db-IsQuiet or_unknown (recover (get_user_friend_list B pid) is_empty_list []) _ _ same
              (λ _ s3.
                db-IsQuiet or_unknown
                  (recover (get_user_friend_requests_out B pid) is_empty_list []) _ _ same
                  (λ _ s4.
                    db-IsQuiet or_unknown
                      (recover (get_user_friend_requests_in B pid) is_empty_list []) _ _ same
                      (λ _ s5.
                        db-IsQuiet or_unknown (get_user_block_list pid) _ _ same
                          (λ _ s6. record { holds = same }))))))

  store_caller-connected :
      (pid connection : ℕ) (nna : NnaInfo) (presence : PresenceV2) (birthday : ℕ)
      (user : ConnectedUser) (d : Desk B.State)
      → get d.server.connected pid ≡ some user
      → AsBefore d.accounts d.sent (store_caller B pid connection nna presence birthday d)
  unfolding store_caller ensure_connected set_presence_v2
  store_caller-connected pid connection nna presence birthday user d there = rw there (refl, refl)

  -- To a caller who is already connected, UpdateAndGetAllInformation leaves the accounts that are
  -- online as they were: it does not mark the caller's. If it fails, nobody is told anything; if it
  -- succeeds, nothing is sent but the caller's presence, as online and with the caller's PID.
  pub update_and_get_all_information-IsUnmarked :
      (R : Rendering) (extra : Bool) (pid connection : ℕ) (malformed : Bool) (nna : NnaInfo)
      (presence : PresenceV2) (birthday : ℕ) (user : ConnectedUser) (d : Desk B.State)
      → get d.server.connected pid ≡ some user
      → Ends
          (λ _ e.
            (e.accounts ≡ d.accounts)
            × ((friends : List ℕ) × (e.sent
                  ≡ d.sent
                    ++ notices_to e.server (presence_wiiu (forced_online pid presence)) friends)))
          (λ e. (e.accounts ≡ d.accounts) × (e.sent ≡ d.sent))
          (update_and_get_all_information B R extra pid connection malformed nna presence birthday)
          d
  unfolding update_and_get_all_information present send_presence_update broadcast
  update_and_get_all_information-IsUnmarked R extra pid connection malformed nna presence birthday
        user d there =
      Ends-decoded malformed invalid_argument _ d (refl, refl)
        (record {
          holds =
              shown (read_all B pid start)
                (read_all-IsQuiet d.accounts d.sent pid start
                  (store_caller-connected pid connection nna presence birthday user d there)).holds;
        })
    where
      start : Desk B.State
      start = store_caller B pid connection nna presence birthday d

      tellable : Desk B.State → List ℕ × Server B.State
      tellable e = friends_of B pid (foreign_friends B R "wiiu" pid e.server).1

      told : Desk B.State → List Notice
      told e =
          notices_to (tellable e).1 (presence_wiiu (forced_online pid presence))
            (not_zero B (tellable e).0)

      shown :
          (p : Result NexError AllInformation × Desk B.State)
          → OnBoth (λ _ e. AsBefore d.accounts d.sent e) (AsBefore d.accounts d.sent) p
          → OnBoth
              (λ _ e.
                (e.accounts ≡ d.accounts)
                × ((friends : List ℕ) × (e.sent
                      ≡ d.sent
                        ++ notices_to e.server
                            (presence_wiiu (forced_online pid presence))
                            friends)))
              (λ e. (e.accounts ≡ d.accounts) × (e.sent ≡ d.sent))
              (presented B R extra pid presence p)
      shown (ok all, e) (accounts, sent) =
          (accounts, (not_zero B (tellable e).0, ap (λ l. l ++ told e) sent))
      shown (err x, e) same = same
