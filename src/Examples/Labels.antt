-- ===== src/Examples/Labels.antt =====
-- The formatters: frontend/src/features/*/format.ts.
use lapor_kos.Prelude.{show, ◌≡◌, refl, true, false}
use lapor_kos.Format.Duration.{missing, number, format_duration_minutes}

duration_tests :
    (format_duration_minutes (number 30 false) ≡ "30m")
    × (format_duration_minutes (number 90 false) ≡ "1j 30m")
    × (format_duration_minutes (number 1500 false) ≡ "1h 1j")
    × (format_duration_minutes (number 119 true) ≡ "1j 60m")
    × (format_duration_minutes missing ≡ "-")
unfolding format_duration_minutes show
duration_tests = (refl, refl, refl, refl, refl)
