-- ===== src/Ctr/Settings/Laws.antt =====
-- What the 3DS settings updates change, and what they leave.
use nn_friends.Prelude.{
  ℕ, String, ◌≡◌, refl, ap, ◌∙◌, Option, none, some, Bool, true, arith, After, After->>=,
  After-pure, if◌then◌else◌, nat_eq, Bool-cases, inl, inr,
}
use nn_friends.Prelude.Dict.{get, get-put_self}
use nn_friends.Database.Tables.{Tables, UserData3ds, default_user_data_3ds}
use nn_friends.Database.Backend.{Backend}
use nn_friends.Database.Server.{Server, statement, later}
use nn_friends.Database.Server.Rules.{After-statement}
use nn_friends.Ctr.Settings.{
  row_or_default, upsert_user, shows_online, update_user_comment, update_user_favorite_game,
  update_user_profile, write_last_online, update_user_last_online_time,
}

-- The last-online time is stored for a user who shows it, and for nobody else.
abbrev pub stamped : ℕ → Option UserData3ds → Option UserData3ds
stamped time none = none
stamped time (some r) = some (if r.show_online then record r { last_online = time } else r)

-- Whether a user is shown online; the column's default is true.
abbrev pub shown : Option UserData3ds → Bool
shown none = true
shown (some r) = r.show_online

module _ (B : Backend) (pid : ℕ) (s : Server B.State) where
  -- When UpdateUserLastOnlineTime succeeds, the row of the user has the new time if the user shows
  -- their presence and is as before if not; a user without a row gets none.
  pub update_user_last_online_time_lem :
      (time : ℕ)
      → After
          (λ _ t. get t.tables.user_data_3ds pid ≡ stamped time (get s.tables.user_data_3ds pid))
          (update_user_last_online_time B pid time)
          s
  unfolding update_user_last_online_time
  update_user_last_online_time_lem time =
      After->>= (statement (λ t. (shows_online (get t.user_data_3ds pid), t)))
        (write_last_online B pid time) s
        (After-statement (λ t. (shows_online (get t.user_data_3ds pid), t)) s
          (written (get s.tables.user_data_3ds pid) refl))
    where
      write : Tables → Unit {0} × Tables
      write = upsert_user pid (λ r. record r { last_online = time })

      u : Server B.State
      u = record s { faults = later s.faults }

      shows_row :
          (r : UserData3ds)
          → get s.tables.user_data_3ds pid ≡ some r
          → After
              (λ _ t. get t.tables.user_data_3ds pid ≡ stamped time (some r))
              (write_last_online B pid time r.show_online)
              u
      shows_row r e = elim (Bool-cases r.show_online) [
        | inl yes_show ↦
            simp (yes_show)
              (After-statement write u (ground (arith, e, get-put_self s.tables.user_data_3ds pid)))
        | inr no_show ↦ simp (no_show) (After-pure _ _ e)
      ]

      written :
          (row : Option UserData3ds)
          → get s.tables.user_data_3ds pid ≡ row
          → After
              (λ _ t. get t.tables.user_data_3ds pid ≡ stamped time row)
              (write_last_online B pid time (shows_online row))
              u
      written none e = After-pure _ _ e
      written (some r) e = shows_row r e

  upsert_user-shown :
      (f : UserData3ds → UserData3ds)
      → ((r : UserData3ds) → (f r).show_online ≡ r.show_online)
      → After
          (λ _ t. shown (get t.tables.user_data_3ds pid) ≡ shown (get s.tables.user_data_3ds pid))
          (statement (upsert_user pid f))
          s
  upsert_user-shown f same = After-statement (upsert_user pid f) s (
      ap shown (
        get-put_self s.tables.user_data_3ds pid
          (f (row_or_default (get s.tables.user_data_3ds pid))))
      ∙ kept (get s.tables.user_data_3ds pid))
    where
      kept : (o : Option UserData3ds) → (f (row_or_default o)).show_online ≡ shown o
      kept none = same default_user_data_3ds
      kept (some r) = same r

  -- Whether a user is shown online is changed by none of the updates of the comment, the favourite
  -- game and the profile.
  pub settings-shown :
      (message : String) (title version region area language country : ℕ)
      → After
          (λ _ t. shown (get t.tables.user_data_3ds pid) ≡ shown (get s.tables.user_data_3ds pid))
          (update_user_comment B pid message)
          s
        × After
            (λ _ t. shown (get t.tables.user_data_3ds pid) ≡ shown (get s.tables.user_data_3ds pid))
            (update_user_favorite_game B pid title version)
            s
        × After
            (λ _ t. shown (get t.tables.user_data_3ds pid) ≡ shown (get s.tables.user_data_3ds pid))
            (update_user_profile B pid region area language country)
            s
  unfolding update_user_comment update_user_favorite_game update_user_profile
  settings-shown message title version region area language country = (
    record {
      holds =
          (upsert_user-shown
            (λ r. record r { comment = message; comment_changed = B.stamp (B.now s.backend) })
            (λ r. refl)).holds;
    },
    upsert_user-shown (λ r. record r { favorite_title = title; favorite_title_version = version })
        (λ r. refl),
    upsert_user-shown
        (λ r. record r { region = region; area = area; language = language; country = country })
        (λ r. refl),
  )
