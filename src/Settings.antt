-- ===== src/Settings.antt =====
-- frontend/src/app/(dashboard)/settings/page.tsx: the profile, the password and the theme of the
-- user. A submission is split at its `await`: `save_...` is what comes before, `..._saved` and
-- `..._failed` what comes after. The timers that take a message away are `hide_...`.
pub mod Laws
use lapor_kos.Prelude.{
  String, ℕ, Bool, true, false, not, Option, none, some, ◌==◌, ltb, if◌then◌else◌,
}
use lapor_kos.Forms.{text_length, is_blank, message_or}
use lapor_kos.Tenants.{or_text}

pub record ProfileData : Type 0 where
  pub name : String
  pub email : String
  pub phone : String

pub record PasswordData : Type 0 where
  pub current_password : String
  pub new_password : String
  pub confirm_password : String

pub data Message : Type 0 where
  success error : (text : String) → Message

pub data Theme : Type 0 where
  light dark : Theme

pub record Settings : Type 0 where
  pub profile_data : ProfileData
  pub initial_profile_data : ProfileData
  pub is_editing_profile : Bool
  pub is_saving_profile : Bool
  pub profile_message : Option Message
  pub password_data : PasswordData
  pub is_editing_password : Bool
  pub is_saving_password : Bool
  pub password_message : Option Message
  pub theme : Theme

abbrev pub no_password : PasswordData
no_password = record { current_password = ""; new_password = ""; confirm_password = "" }

-- `fetchUser` with its answer, whose fields may be missing.
abbrev pub profile_of : Option String → Option String → Option String → ProfileData
profile_of name email phone = record {
  name = or_text name "";
  email = or_text email "";
  phone = or_text phone "";
}

unfoldable pub user_fetched : Option String → Option String → Option String → Settings → Settings
user_fetched name email phone s =
    let fetched = profile_of name email phone in
    record s { profile_data = fetched; initial_profile_data = fetched }

-- The body that is sent, if the form may be sent, and the page while it is sent.
unfoldable pub save_profile : Settings → Settings × Option ProfileData
save_profile s =
    if is_blank s.profile_data.name
    then (
      record s {
        is_saving_profile = false;
        profile_message = some (error "Nama lengkap tidak boleh kosong");
      },
      none,
    )
    else (record s { is_saving_profile = true; profile_message = none }, some s.profile_data)

unfoldable pub profile_saved : ProfileData → Settings → Settings
profile_saved sent s = record s {
  profile_message = some (success "Informasi profil berhasil disimpan!");
  initial_profile_data = sent;
  is_editing_profile = false;
  is_saving_profile = false;
}

unfoldable pub profile_failed : String → Settings → Settings
profile_failed message s = record s {
  profile_message = some (error (message_or message "Gagal memperbarui profil"));
  is_saving_profile = false;
}

unfoldable pub cancel_profile_edit : Settings → Settings
cancel_profile_edit s = record s {
  profile_data = s.initial_profile_data;
  is_editing_profile = false;
  profile_message = none;
}

unfoldable pub hide_profile_message : Settings → Settings
hide_profile_message s = record s { profile_message = none }

pub record PasswordPayload : Type 0 where
  pub current_password : String
  pub new_password : String

abbrev refused_password : String → Settings → Settings
refused_password text s = record s {
  is_saving_password = false;
  password_message = some (error text);
}

unfoldable pub save_password : Settings → Settings × Option PasswordPayload
save_password s =
    let p = s.password_data in
    if ltb (text_length p.new_password) 8
    then (refused_password "Kata sandi baru minimal harus 8 karakter" s, none)
    else if not (p.new_password == p.confirm_password)
    then (refused_password "Konfirmasi kata sandi baru tidak cocok" s, none)
    else (
      record s { is_saving_password = true; password_message = none },
      some (record { current_password = p.current_password; new_password = p.new_password }),
    )

unfoldable pub password_saved : Settings → Settings
password_saved s = record s {
  password_message = some (success "Kata sandi Anda berhasil diperbarui!");
  password_data = no_password;
  is_editing_password = false;
  is_saving_password = false;
}

unfoldable pub password_failed : String → Settings → Settings
password_failed message s = record s {
  password_message =
      some (error (message_or message "Gagal mengganti kata sandi. Pastikan sandi lama benar."));
  is_saving_password = false;
}

unfoldable pub cancel_password_edit : Settings → Settings
cancel_password_edit s = record s {
  password_data = no_password;
  is_editing_password = false;
  password_message = none;
}

unfoldable pub hide_password_message : Settings → Settings
hide_password_message s = record s { password_message = none }

-- `handleThemeChange`, with the stored theme and whether the document has the class `dark`.
abbrev pub theme_text : Theme → String
theme_text light = "light"
theme_text dark = "dark"

pub record Document : Type 0 where
  pub stored_theme : Option String
  pub has_dark_class : Bool

unfoldable pub handle_theme_change : Theme → Settings → Document → Settings × Document
handle_theme_change light s d =
    (record s { theme = light }, record { stored_theme = some "light"; has_dark_class = false })
handle_theme_change dark s d =
    (record s { theme = dark }, record { stored_theme = some "dark"; has_dark_class = true })

-- `(localStorage.getItem('theme') || 'light') as 'light' | 'dark'`
unfoldable pub saved_theme : Document → Theme
saved_theme d = if or_text d.stored_theme "light" == "dark" then dark else light
