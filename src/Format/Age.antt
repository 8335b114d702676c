-- ===== src/Format/Age.antt =====
-- frontend/src/features/notifications/format.ts: `formatRelativeTime`. Times are milliseconds since
-- 1970; `-` on ℕ stops at 0, which is below a minute as the source's negative seconds are.
pub mod Laws
use lapor_kos.Prelude.{
  String, ℕ, ◌-◌, ◌/◌, Option, none, some, ◌==◌, ◌^^◌, ltb, show, if◌then◌else◌,
}

pub data Age : Type 0 where
  just_now yesterday older : Age
  minutes hours : ℕ → Age

abbrev pub diff_sec : ℕ → ℕ → ℕ
diff_sec now date = (now - date) / 1000

unfoldable pub age : ℕ → ℕ → Age
age now date =
    let s = diff_sec now date in
    if ltb s 60
    then just_now
    else if ltb s 3600
    then minutes (s / 60)
    else if ltb s 86400
    then hours (s / 3600)
    else if ltb s 172800
    then yesterday
    else older

abbrev show_age : String → Age → String
show_age locale_date just_now = "Baru saja"
show_age locale_date (minutes n) = show n ^^ " menit lalu"
show_age locale_date (hours n) = show n ^^ " jam lalu"
show_age locale_date yesterday = "Kemarin"
show_age locale_date older = locale_date

-- `parse` is the platform's `Date`, and `to_locale` its `toLocaleDateString`; a date that is not
-- valid compares with nothing, and so falls through to the latter.
pub format_relative_time : (String → Option ℕ) → (Option ℕ → String) → ℕ → String → String
unfolding age
format_relative_time parse to_locale now date_str =
    if date_str == "" then "" else elim (parse date_str) [
      | none ↦ to_locale none
      | some date ↦ show_age (to_locale (some date)) (age now date)
    ]
