-- ===== src/Format/Age/Laws.antt =====
-- What a relative time says.
use lapor_kos.Prelude.{ℕ, ◌+◌, ◌*◌, ◌≤◌, ◌<◌, arith}
use lapor_kos.Format.Age.{Age, just_now, yesterday, older, minutes, hours, diff_sec, age}

-- The seconds from which on an age is shown, and the length of its step.
abbrev pub since : Age → ℕ
since just_now = 0
since (minutes n) = n * 60
since (hours n) = n * 3600
since yesterday = 86400
since older = 172800

abbrev pub IsWithin : ℕ → Age → Type 0
IsWithin s just_now = s < 60
IsWithin s (minutes n) = (n * 60 ≤ s) × (s < n * 60 + 60) × (1 ≤ n) × (n < 60)
IsWithin s (hours n) = (n * 3600 ≤ s) × (s < n * 3600 + 3600) × (1 ≤ n) × (n < 24)
IsWithin s yesterday = (86400 ≤ s) × (s < 172800)
IsWithin s older = 172800 ≤ s

-- The age says how many seconds have passed, rounded down to its unit: below a minute, 1 to 59
-- minutes, 1 to 23 hours, the second day, or later.
pub age-IsWithin : (now date : ℕ) → IsWithin (diff_sec now date) (age now date)
unfolding age
age-IsWithin now date = ground arith

since_bounds : (s : ℕ) (a : Age) → IsWithin s a → (since a ≤ s)
since_bounds s a h = ground arith

-- As time passes the shown age never falls.
age_mono : (now later date : ℕ) → now ≤ later → since (age now date) ≤ since (age later date)
unfolding age
age_mono now later date h = ground arith
