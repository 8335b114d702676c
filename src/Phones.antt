-- ===== src/Phones.antt =====
-- The formatters of telephone numbers below frontend/src/app/(dashboard): `handlePhoneChange` of
-- rooms/page.tsx, `formatPhoneNumber` of tenants/[id]/page.tsx, which is the same but for a digit more,
-- and `formatPhoneNumber` of rooms/add/page.tsx. The `handlePhoneChange` of tenants/[id]/page.tsx, which
-- nothing calls, is left out.
pub mod Laws
use lapor_kos.Prelude.{
  ℕ, ◌+◌, Bool, true, false, not, ◌&&◌, ◌||◌, [], ◌∷◌, ◌++◌, length, take, drop, leb, ltb, eqb,
  if◌then◌else◌,
}
use lapor_kos.Invitations.Chars.{Chars, is_empty, is_prefix, same}
use lapor_kos.Invitations.Phone.{digits_of, six_two, dash_if, groups}

abbrev pub plus_six_two : Chars
plus_six_two = b'+' ∷ six_two

-- `val === '' || val === '+62' || val === '+62-'`
abbrev pub is_cleared : Chars → Bool
is_cleared value =
    is_empty value || same value plus_six_two || same value (plus_six_two ++ b'-' ∷ [])

-- The digits without the country code or the leading zero.
abbrev pub local_digits : Chars → Chars
local_digits d =
    if is_prefix six_two d then drop 2 d else if is_prefix (b'0' ∷ []) d then drop 1 d else d

abbrev pub layout : ℕ → Chars → Chars
layout last d = if is_empty d then [] else plus_six_two ++ b'-' ∷ groups last d

-- Seven digits and as many as the last group holds, which is five in `handlePhoneChange` of the rooms.
unfoldable pub format_local : ℕ → Chars → Chars
format_local last value =
    if is_cleared value then [] else layout last (take (7 + last) (local_digits (digits_of value)))

-- `formatPhoneNumber` of the page of a tenant, whose last group holds six.
abbrev pub format_tenant_phone : Chars → Chars
format_tenant_phone value = format_local 6 value

-- The digits with the country code, of the wizard.
abbrev pub cleaned_digits : Chars → Chars
cleaned_digits d =
    if is_prefix (b'0' ∷ []) d
    then six_two ++ drop 1 d
    else if not (is_prefix six_two d) && not (is_empty d)
    then six_two ++ d
    else d

abbrev pub wizard_layout : Chars → Chars
wizard_layout rest =
    plus_six_two
    ++ (dash_if (ltb 0 (length rest)) (take 3 rest)
        ++ (dash_if (ltb 3 (length rest)) (take 4 (drop 3 rest))
            ++ dash_if (ltb 7 (length rest)) (take 5 (drop 7 rest))))

-- `formatPhoneNumber` of the wizard.
unfoldable pub format_phone_number : Chars → Chars
format_phone_number value =
    let cleaned = cleaned_digits (digits_of value) in
    if leb (length cleaned) 2 then [] else wizard_layout (drop 2 (take 14 cleaned))
