-- ===== src/Tenants/Profile/Money.antt =====
-- frontend/src/app/(dashboard)/tenants/[id]/page.tsx: the amounts of the form that extends a
-- contract, as they are typed, shown and sent. `to_locale` is `toLocaleString('id-ID')`.
pub mod Laws
use Prim.Native.Nat.{◌^◌}
use lapor_kos.Prelude.{
  String, ℕ, zero, ◌+◌, ◌-◌, ◌*◌, List, [], ◌∷◌, filter, eqb, leb, if◌then◌else◌,
}
use lapor_kos.Invitations.Chars.{Chars, chars, is_digit, is_empty}
use lapor_kos.Invitations.Phone.{digits_of}

-- The number that digits spell, after those that were read.
abbrev pub value_from : ℕ → Chars → ℕ
value_from n [] = n
value_from n (c ∷ d) = value_from (n * 10 + (c - b'0')) d

-- A number as `parseFloat` and `parseInt` give it of digits. One above 2 ^ 53, which JavaScript rounds, is
-- exact here; from `overflow` on it is rounded to Infinity.
pub data Number : Type 0 where
  nan infinity : Number
  finite : ℕ → Number

unfoldable pub overflow : ℕ
overflow = 2 ^ 1024 - 2 ^ 970

abbrev pub number_of : ℕ → Number
number_of n = if leb overflow n then infinity else finite n

-- `parseFloat(text.replace(/\D/g, ''))`, and `parseInt` of the same.
unfoldable pub amount : Chars → Number
amount text = let d = digits_of text in if is_empty d then nan else number_of (value_from 0 d)

-- `n || 0`
abbrev pub or_zero : Number → Number
or_zero nan = finite 0
or_zero n = n

unfoldable pub amount_or_zero : Chars → Number
unfolding amount
amount_or_zero text = or_zero (amount text)

-- `toLocaleString` of a number, where there is one; that of Infinity is `∞`.
abbrev pub shown_amount : (ℕ → String) → Number → Chars
shown_amount to_locale nan = []
shown_amount to_locale infinity = 8734 ∷ []
shown_amount to_locale (finite n) = chars (to_locale n)

-- What a field shows of what is typed into it.
unfoldable pub money_input : (ℕ → String) → Chars → Chars
money_input to_locale typed = shown_amount to_locale (amount typed)
