-- ===== src/Format/Duration.antt =====
-- frontend/src/features/complaints/format.ts: `formatDurationMinutes`. A number is what the code
-- reads of it: its whole part and whether its fraction rounds up. Infinity is left out.
pub mod Laws
use lapor_kos.Prelude.{String, ℕ, ◌+◌, ◌/◌, ◌%◌, Bool, ◌^^◌, ltb, show, if◌then◌else◌}

-- `undefined` and `NaN` are `missing`.
pub data Minutes : Type 0 where
  missing negative : Minutes
  number : (whole : ℕ) → (rounds_up : Bool) → Minutes

-- The numbers that the text shows.
pub data Shown : Type 0 where
  dash : Shown
  minutes : ℕ → Shown
  hours days : ℕ → ℕ → Shown

-- `Math.round`
abbrev pub round : ℕ → Bool → ℕ
round whole rounds_up = if rounds_up then whole + 1 else whole

unfoldable pub shown : Minutes → Shown
shown missing = dash
shown negative = dash
shown (number whole up) =
    if ltb whole 60
    then minutes (round whole up)
    else if ltb (whole / 60) 24
    then hours (whole / 60) (round (whole % 60) up)
    else days (whole / 60 / 24) (whole / 60 % 24)

show_shown : Shown → String
show_shown dash = "-"
show_shown (minutes m) = show m ^^ "m"
show_shown (hours h m) = if ltb 0 m then show h ^^ "j " ^^ show m ^^ "m" else show h ^^ "j"
show_shown (days d h) = if ltb 0 h then show d ^^ "h " ^^ show h ^^ "j" else show d ^^ "h"

unfoldable pub format_duration_minutes : Minutes → String
unfolding shown show_shown
format_duration_minutes m = show_shown (shown m)
