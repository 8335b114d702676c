-- ===== src/Invitations/Phone.antt =====
-- frontend/src/features/tenant-invitations/form.ts: `formatIndonesianPhone`.
pub mod Laws
use lapor_kos.Prelude.{
  ℕ, Bool, not, ◌&&◌, List, [], ◌∷◌, ◌++◌, length, take, drop, filter, ltb, leb, if◌then◌else◌,
}
use lapor_kos.Invitations.Chars.{Chars, is_digit, is_empty, is_prefix}

-- `value.replace(/\D/g, '')`
abbrev pub digits_of : Chars → Chars
digits_of = filter is_digit

abbrev pub six_two : Chars
six_two = b'6' ∷ b'2' ∷ []

-- A leading 0 becomes 62.
abbrev pub without_zero : Chars → Chars
without_zero d = if is_prefix (b'0' ∷ []) d then six_two ++ drop 1 d else d

-- Any other text gets 62 in front.
abbrev pub with_country : Chars → Chars
with_country d = if not (is_empty d) && not (is_prefix six_two d) then six_two ++ d else d

-- The digits that are shown.
unfoldable pub normal_digits : Chars → Chars
normal_digits d = take 14 (with_country (without_zero d))

abbrev pub dash_if : Bool → Chars → Chars
dash_if b part = if b then b'-' ∷ part else []

-- The groups of three, four and at most so many digits after the country code.
abbrev pub groups : ℕ → Chars → Chars
groups last rest =
    take 3 rest
    ++ (dash_if (ltb 3 (length rest)) (take 4 (drop 3 rest))
        ++ dash_if (ltb 7 (length rest)) (take last (drop 7 rest)))

abbrev layout : Chars → Chars
layout d =
    if leb (length d) 2
    then (if is_empty d then [] else b'+' ∷ six_two)
    else b'+' ∷ b'6' ∷ b'2' ∷ b' ' ∷ groups 5 (drop 2 d)

unfoldable pub format_indonesian_phone : Chars → Chars
format_indonesian_phone value = layout (normal_digits (digits_of value))
