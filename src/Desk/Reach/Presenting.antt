-- ===== src/Desk/Reach/Presenting.antt =====
-- What storing and telling the caller's presence leaves of globals.ConnectedUsers.
use nn_friends.Prelude.{
  ℕ, refl, sym, subst, Option, none, some, [], Bool, true, false, Result, ok, err, ◌>>=◌, recover,
  Exec, nat_eq,
}
use nn_friends.Prelude.Dict.{get, put}
use nn_friends.Errors.{Error, is_empty_list}
use nn_friends.Types.{ConnectedUser, Platform, wup, ctr, Presence, PresenceV2}
use nn_friends.Database.Backend.{Backend}
use nn_friends.Database.Server.{Server}
use nn_friends.Wiiu.Profiles.{NnaInfo, get_user_comment, get_user_principal_preference}
use nn_friends.Wiiu.Listing.{get_user_friend_requests_in, get_user_friend_requests_out}
use nn_friends.Wiiu.BlockList.{get_user_block_list}
use nn_friends.Wiiu.Friends.{get_user_friend_list}
use nn_friends.Presence.Foreign.{Rendering}
use nn_friends.Desk.{Desk, NexError, Handler, News, db, mapped, presence_3ds}
use nn_friends.Desk.Wiiu.{or_unknown, principal_error}
use nn_friends.Desk.Broadcast.{broadcast, send_presence_update, send_ctr}
use nn_friends.Desk.Own.{
  AllInformation, new_user, user_or_new, forced_online, marked, mark_online, known_or_marked,
  ensure_connected, set_presence_v2, report, read_all, present, presented, store_caller,
  update_and_get_all_information,
}
use nn_friends.Desk.Own
use nn_friends.Desk.Ctr.{set_presence, shown_presence}
use nn_friends.Desk.Ctr
use nn_friends.Desk.Connections.Going.{friends_of_connected, ctr_friends_of_connected}
use nn_friends.Desk.Connected.{KeepsConnected, Keeps-recover}
use nn_friends.Desk.Connected.Calls.{
  Keeps-friend_list, Keeps-requests_in, Keeps-requests_out, Keeps-comment, Keeps-preference,
  Keeps-block_list, Keeps-account_info, foreign_friends_connected,
}
use nn_friends.Desk.Reach.{IsSound}
use nn_friends.Desk.Reach.Writers.{put-IsSound, user_or_new-IsOwn}

module _ (B : Backend) where
  abbrev pub IsWell : Desk B.State → Type 0
  IsWell d = IsSound d.server.connected

  marked-IsWell :
      (b : Bool) (platform : Platform) (pid : ℕ) (d : Desk B.State)
      → IsWell d
      → IsWell (marked B b platform pid d)
  marked-IsWell true platform pid d sound = sound
  marked-IsWell false platform pid d sound = sound

  ensure_connected-IsWell :
      (platform : Platform) (pid connection : ℕ) (d : Desk B.State)
      → IsWell d
      → IsWell (ensure_connected B platform pid connection d)
  unfolding ensure_connected mark_online
  ensure_connected-IsWell platform pid connection d sound = go (get d.server.connected pid)
    where
      go : (o : Option ConnectedUser) → IsWell (known_or_marked B platform pid connection o d)
      go (some user) = sound
      go none =
          marked-IsWell (B.configured d.server.backend) platform pid
            (record d {
              server = record d.server {
                connected = put d.server.connected pid (new_user pid platform connection);
              };
            })
            (put-IsSound d.server.connected pid (new_user pid platform connection)
              (refl, (connection, refl)) sound)

  set_presence_v2-IsWell :
      (pid connection : ℕ) (presence : PresenceV2) (d : Desk B.State)
      → IsWell d
      → IsWell (set_presence_v2 B pid connection presence d)
  unfolding set_presence_v2
  set_presence_v2-IsWell pid connection presence d sound =
      put-IsSound d.server.connected pid _
        (user_or_new-IsOwn d.server.connected pid wup connection _ refl sound) sound

  set_presence-IsWell :
      (pid connection : ℕ) (presence : Presence) (d : Desk B.State)
      → IsWell d
      → IsWell (set_presence B pid connection presence d)
  unfolding set_presence
  set_presence-IsWell pid connection presence d sound =
      put-IsSound d.server.connected pid _
        (user_or_new-IsOwn d.server.connected pid ctr connection _ refl sound) sound

  send_presence_update-IsWell :
      (presence : PresenceV2) (d : Desk B.State)
      → IsWell d
      → IsWell (send_presence_update B presence d)
  unfolding send_presence_update broadcast
  send_presence_update-IsWell presence d sound =
      subst IsSound (sym (friends_of_connected B presence.pid d.server)) sound

  send_ctr-IsWell :
      (pid : ℕ) (news : News) (d : Desk B.State) → IsWell d → IsWell (send_ctr B pid news d)
  unfolding send_ctr broadcast
  send_ctr-IsWell pid news d sound =
      subst IsSound (sym (ctr_friends_of_connected B pid d.server)) sound

  store_caller-IsWell :
      (pid connection : ℕ) (nna : NnaInfo) (presence : PresenceV2) (birthday : ℕ) (d : Desk B.State)
      → IsWell d
      → IsWell (store_caller B pid connection nna presence birthday d)
  unfolding store_caller
  store_caller-IsWell pid connection nna presence birthday d sound =
      subst IsSound (sym ((Keeps-account_info B pid nna birthday).kept _)) (
        set_presence_v2-IsWell pid connection presence (ensure_connected B wup pid connection d)
          (ensure_connected-IsWell wup pid connection d sound))

  -- A read of the database before the rest of a handler.
  db-IsWell :
      {A C : Type 0} (f : Error → NexError) (m : Exec (Server B.State) Error A)
      (k : A → Handler B.State C)
      → KeepsConnected m
      → ((a : A) (e : Desk B.State) → IsWell e → IsWell (k a e).1)
      → (d : Desk B.State) → IsWell d
      → IsWell ((db f m >>= k) d).1
  unfolding db
  db-IsWell {A} {C} f m k keeps next d sound =
      go (m d.server) (subst IsSound (sym (keeps.kept d.server)) sound)
    where
      go :
          (p : Result Error A × Server B.State)
          → IsSound p.1.connected
          → IsWell (((λ (e : Desk B.State). (mapped f p.0, record d { server = p.1 })) >>= k) d).1
      go (ok a, s) h = next a _ h
      go (err x, s) h = h

  read_all-IsWell : (pid : ℕ) (d : Desk B.State) → IsWell d → IsWell (read_all B pid d).1
  unfolding read_all
  read_all-IsWell pid =
      db-IsWell principal_error (get_user_principal_preference B pid) _ (Keeps-preference B pid)
        (λ _. db-IsWell principal_error (get_user_comment B pid) _ (Keeps-comment B pid) (λ _.
          db-IsWell or_unknown (recover (get_user_friend_list B pid) is_empty_list []) _
            (Keeps-recover (get_user_friend_list B pid) is_empty_list [] (Keeps-friend_list B pid))
            (λ _.
              db-IsWell or_unknown (recover (get_user_friend_requests_out B pid) is_empty_list []) _
                (Keeps-recover (get_user_friend_requests_out B pid) is_empty_list []
                  (Keeps-requests_out B pid))
                (λ _.
                  db-IsWell or_unknown
                    (recover (get_user_friend_requests_in B pid) is_empty_list []) _
                    (Keeps-recover (get_user_friend_requests_in B pid) is_empty_list []
                      (Keeps-requests_in B pid))
                    (λ _.
                      db-IsWell or_unknown (get_user_block_list pid) _ (Keeps-block_list B pid)
                        (λ _ e sound. sound))))))

  pub reported-IsWell :
      (R : Rendering) (extra : Bool) (pid connection : ℕ) (malformed : Bool) (nna : NnaInfo)
      (presence : PresenceV2) (birthday : ℕ) (d : Desk B.State)
      → IsWell d
      → IsWell
          (update_and_get_all_information B R extra pid connection malformed nna presence birthday
            d).1
  unfolding update_and_get_all_information present
  reported-IsWell R extra pid connection true nna presence birthday d sound = sound
  reported-IsWell R extra pid connection false nna presence birthday d sound =
      go (read_all B pid (store_caller B pid connection nna presence birthday d))
        (read_all-IsWell pid _ (store_caller-IsWell pid connection nna presence birthday d sound))
    where
      go :
          (p : Result NexError AllInformation × Desk B.State)
          → IsWell p.1
          → IsWell (presented B R extra pid presence p).1
      go (err x, e) h = h
      go (ok all, e) h =
          send_presence_update-IsWell (forced_online pid presence) _
            (subst IsSound (sym (foreign_friends_connected B R "wiiu" pid e.server)) h)

  pub presented-IsWell :
      (pid connection : ℕ) (malformed : Bool) (presence : PresenceV2) (d : Desk B.State)
      → IsWell d
      → IsWell (Own.update_presence B pid connection malformed presence d).1
  unfolding Own.update_presence
  presented-IsWell pid connection true presence d sound = sound
  presented-IsWell pid connection false presence d sound =
      send_presence_update-IsWell (forced_online pid presence) _
        (set_presence_v2-IsWell pid connection (forced_online pid presence) d sound)

  pub presented_3ds-IsWell :
      (pid connection : ℕ) (malformed : Bool) (presence : Presence) (show : Bool) (d : Desk B.State)
      → IsWell d
      → IsWell (Ctr.update_presence B pid connection malformed presence show d).1
  unfolding Ctr.update_presence
  presented_3ds-IsWell pid connection true presence show d sound = sound
  presented_3ds-IsWell pid connection false presence show d sound =
      set_presence-IsWell pid connection (shown_presence B presence show)
        (ensure_connected B ctr pid connection told)
        (ensure_connected-IsWell ctr pid connection told
          (send_ctr-IsWell pid (presence_3ds pid (shown_presence B presence show)) d sound))
    where
      told : Desk B.State
      told = send_ctr B pid (presence_3ds pid (shown_presence B presence show)) d
