-- ===== src/Prelude/Decimal.antt =====
-- Numbers written in decimal, as a template literal writes them.
use Prim.Native.Nat.{ℕ, zero, suc, ◌/◌, ◌%◌}
use Prim.Native.String.{String}
use mathlib.Core.List.{[], ◌∷◌}
use lapor_kos.Prelude.Tests.{ltb, if◌then◌else◌, get_or}
use lapor_kos.Prelude.Lists.{get_elem?}
use lapor_kos.Prelude.Text.{◌^^◌}

abbrev pub digit : ℕ → String
digit d = get_or (get_elem? ("0" ∷ "1" ∷ "2" ∷ "3" ∷ "4" ∷ "5" ∷ "6" ∷ "7" ∷ "8" ∷ "9" ∷ []) d) ""

-- Each round drops a digit, so that a number below 2 ^ n has at most n digits.
unfoldable pub show_digits : ℕ → ℕ → String
show_digits zero n = ""
show_digits (suc fuel) n =
    let front = show_digits fuel (n / 10) in if ltb n 10 then digit n else front ^^ digit (n % 10)

-- `String(n)` of a whole number below 10 ^ 21, from where on the source's numbers show an exponent.
unfoldable pub show : ℕ → String
unfolding show_digits
show n = show_digits 21 n
