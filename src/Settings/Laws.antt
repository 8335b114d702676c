-- ===== src/Settings/Laws.antt =====
-- The profile that the page goes back to is the one that the server holds, and a password is only
-- sent when it was confirmed.
use lapor_kos.Prelude.{
  String, ◌≡◌, refl, false, Option, none, some, ◌==◌, arith, ltb, not, ◌&&◌, if◌then◌else◌,
}
use lapor_kos.Forms.{text_length}
use lapor_kos.Settings.{
  ProfileData, Settings, Document, Theme, light, dark, profile_of, user_fetched, save_profile,
  profile_saved, profile_failed, cancel_profile_edit, hide_profile_message, save_password,
  handle_theme_change, saved_theme,
}

-- The page, the profile that the server holds, and the one that is on its way there.
pub record World : Type 0 where
  pub page : Settings
  pub stored : ProfileData
  pub pending : Option ProfileData

-- What the user and the server do: a form is not sent again while one is on its way, since the button
-- is disabled.
pub data Step : World → World → Type 0 where
  edited :
      (w : World) (f : ProfileData)
      → Step w (record w { page = record w.page { profile_data = f } })
  cancelled : (w : World) → Step w (record w { page = cancel_profile_edit w.page })
  sent :
      (w : World)
      → w.page.is_saving_profile ≡ false
      → Step w (record w { page = (save_profile w.page).0; pending = (save_profile w.page).1 })
  saved :
      (w : World) (f : ProfileData)
      → w.pending ≡ some f
      → Step w (record { page = profile_saved f w.page; stored = f; pending = none })
  failed :
      (w : World) (m : String)
      → Step w (record w { page = profile_failed m w.page; pending = none })
  hidden : (w : World) → Step w (record w { page = hide_profile_message w.page })

-- The page is opened with what the server holds.
pub data Reach : World → Type 0 where
  opened :
      (s : Settings) (name email phone : Option String)
      → Reach (record {
        page = user_fetched name email phone s;
        stored = profile_of name email phone;
        pending = none;
      })
  step : {w v : World} → Reach w → Step w v → Reach v

-- A password is sent exactly if it has eight characters and was confirmed; then it is the one that was
-- typed, and else the form is left as it is.
pub save_password_lem :
    (s : Settings)
    → let p = s.password_data in
      ((save_password s).1 ≡ (
        if not (ltb (text_length p.new_password) 8) && p.new_password == p.confirm_password
        then some (record { current_password = p.current_password; new_password = p.new_password })
        else none))
      × ((save_password s).0.password_data ≡ p)
unfolding save_password
save_password_lem s = ground arith

-- The theme that is chosen is shown, and is read back when the page is opened again.
pub saved_theme-handle_theme_change :
    (t : Theme) (s : Settings) (d : Document)
    → let (s', d') = handle_theme_change t s d in (saved_theme d' ≡ t) × (s'.theme ≡ t)
unfolding handle_theme_change saved_theme
saved_theme-handle_theme_change light s d = (refl, refl)
saved_theme-handle_theme_change dark s d = (refl, refl)
