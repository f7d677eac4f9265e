-- ===== src/Tests/News.antt =====
-- The theorems on events, on the notifier and on the 3DS, at concrete inputs.
use nn_friends.Prelude.{
  ℕ, ◌≡◌, refl, some, none, String, List, [], ◌∷◌, false, err, After, Ends, nat_eq, string_eq, ◌≤◌,
  arith, ◌>>◌,
}
use nn_friends.Errors.{pid_not_found}
use nn_friends.Types.{new_presence}
use nn_friends.Coregraph.Client.{Client}
use nn_friends.Accounts.{online_pids_of_account}
use nn_friends.Database.Server.{refused}
use nn_friends.Wiiu.Profiles
use nn_friends.Wiiu.Accepting.{stamped}
use nn_friends.Ctr.Profiles.{Mii, get_mii, update_user_mii}
use nn_friends.Ctr.Profiles.Reading.{get_mii-update_user_mii}
use nn_friends.Ctr.Profiles.Shared.{get_mii-refresh_profile}
use nn_friends.Presence.Labels.{client_label, join, key_of, name, landed, rune_count, description}
use nn_friends.Presence.Labels.Short.{whole_line, description-bound}
use nn_friends.Presence.Foreign.{Live}
use nn_friends.Presence.Labels.Calls.{Use, looks, lands, used, begun_for}
use nn_friends.Presence.Labels.Fetching.{name-fetches}
use nn_friends.Desk.Ctr.{update_presence}
use nn_friends.Desk.Ctr.Hidden.{IsHidden, update_presence-IsHidden}
use nn_friends.Desk.Ticking.{Ticker, tick}
use nn_friends.Desk.Ticking.Kept.{IsTicked, tick-IsTicked}
use nn_friends.Events.{handle, kind_of}
use nn_friends.Events.Dropping.{IsDropped, handle-IsDropped}
use nn_friends.Events.Telling.{IsToldOnce, handle-IsToldOnce}
use nn_friends.Tests.Demo.{backend, server}
use nn_friends.Tests.Calls.{desk, rendering}

handle-IsDropped_example :
    IsDropped backend
      (online_pids_of_account "bob" desk.accounts)
      desk
      (handle backend "account_banned" "bob" "" desk)
unfolding kind_of
handle-IsDropped_example = handle-IsDropped backend "account_banned" "bob" "" desk refl

handle-IsToldOnce_example :
    IsToldOnce backend "bob" desk (handle backend "friend_removed" "bob" "alice" desk)
unfolding kind_of
handle-IsToldOnce_example = handle-IsToldOnce backend "friend_removed" "bob" "alice" desk tt

abbrev ticker : Ticker (Client ℕ)
ticker = record { desk = desk; lines = (9, (2, "Online on Switch") ∷ []) ∷ [] }

tick-IsTicked_example : IsTicked backend rendering ticker (tick backend rendering ticker)
tick-IsTicked_example = tick-IsTicked backend rendering ticker

update_presence-IsHidden_example :
    Ends
      (λ _ e. IsHidden backend 1 desk e)
      (λ e. e ≡ desk)
      (update_presence backend 1 9 false
        (record new_presence { title_id = 77; message = "playing" })
        false)
      desk
update_presence-IsHidden_example =
    update_presence-IsHidden backend 1 9 false
      (record new_presence { title_id = 77; message = "playing" }) desk

abbrev mii : Mii
mii = record { name = "m"; profanity = false; character_set = 0; mii_bytes = 3 ∷ 0 ∷ [] }

get_mii-update_user_mii_example :
    After
      (λ m t. m ≡ record { pid = 1; mii = mii; modified_at = stamped backend t })
      (do update_user_mii backend 1 mii; get_mii backend 1)
      server
get_mii-update_user_mii_example = get_mii-update_user_mii backend 1 mii server

get_mii-refresh_profile_example :
    After
      (λ _ t. refused t.faults ≡ false → (get_mii backend 7 t).0 ≡ err pid_not_found)
      (Profiles.refresh_profile backend 7)
      server
get_mii-refresh_profile_example = get_mii-refresh_profile backend 7 server refl

abbrev kirby : Live
kirby = record { namespace = "switch"; title_id = "01"; client = "ryujinx" }

-- Its line has 76 runes.
abbrev long_name : String
long_name = "a name that goes on until it is longer than a line may be"

description-bound_example :
    ((rest : String) × (join (description long_name kirby) rest ≡ whole_line long_name kirby))
    × (rune_count (description long_name kirby) ≡ 60)
unfolding client_label
description-bound_example = description-bound long_name kirby

description_run :
    description "Kirby" (record { namespace = "switch"; title_id = "01"; client = " Ryujinx" })
    ≡ "Playing Kirby on Ryujinx"
unfolding description
description_run = refl

-- Two calls for a title with one for another between them; then the end of the fetch, and a call.
abbrev before : List Use
before =
    looks 100 "switch" "01ab"
    ∷ lands 101 "wiiu" "77" none
    ∷ looks 102 "wiiu" "77"
    ∷ looks 300 "switch" "01ab"
    ∷ []

abbrev after : List Use
after = looks 302 "switch" "01AB" ∷ []

name-fetches_example :
    (begun_for (key_of "switch" "01ab") before [] ≤ 1)
    × (begun_for
          (key_of "switch" "01ab")
          after
          (landed 301 "switch" "01ab" (some "Kirby") (used before []))
        ≡ 0)
    × ((name 303 "switch" "01ab"
          (used after (landed 301 "switch" "01ab" (some "Kirby") (used before [])))).answer
        ≡ "Kirby")
name-fetches_example =
    name-fetches 301 303 "switch" "01ab" (some "Kirby") before after [] refl
      (tt, (refl, (tt, (tt, tt)))) (tt, tt) (omega arith, tt)
