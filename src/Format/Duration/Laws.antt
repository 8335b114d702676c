-- ===== src/Format/Duration/Laws.antt =====
-- What the shown numbers say of the duration.
use lapor_kos.Prelude.{ℕ, ◌+◌, ◌*◌, ◌≤◌, ◌<◌, ◌≡◌, true, false, arith}
use lapor_kos.Format.Duration.{number, Shown, dash, minutes, hours, days, shown}

-- A whole number of minutes is shown in proper parts: minutes below an hour; hours below a day and
-- minutes below an hour that add up to it; or days and hours below a day that add up to its
-- whole hours.
abbrev pub IsExact : ℕ → Shown → Type 0
IsExact whole dash = ⊥
IsExact whole (minutes m) = (m ≡ whole) × (m < 60)
IsExact whole (hours h m) = (h * 60 + m ≡ whole) × (m < 60) × (1 ≤ h) × (h < 24)
IsExact whole (days d h) =
    (d * 1440 + h * 60 ≤ whole) × (whole < d * 1440 + h * 60 + 60) × (h < 24) × (1 ≤ d)

-- A whole, non-negative number of minutes is shown exactly: below an hour as minutes, below a day
-- as hours and minutes that add up to it, and from a day on as days and hours, less than an hour
-- below it.
pub shown-IsExact : (whole : ℕ) → IsExact whole (shown (number whole false))
unfolding shown
shown-IsExact whole = ground arith

-- A fraction that rounds up in the last minute of an hour is not carried: the text shows the hours
-- and sixty minutes.
pub no_carry : (h : ℕ) → 1 ≤ h → h < 24 → shown (number (h * 60 + 59) true) ≡ hours h 60
unfolding shown
no_carry h low high = ground arith
