-- ===== src/Examples/Forms.antt =====
-- The form of an invitation: frontend/src/features/tenant-invitations/form.ts.
use lapor_kos.Prelude.{◌≡◌, refl, ◌↔◌, true, false, none}
use lapor_kos.Invitations.Chars.{chars, trim, is_space}
use lapor_kos.Invitations.Phone.{normal_digits, format_indonesian_phone}
use lapor_kos.Invitations.Email.{is_plain, matches_email}
use lapor_kos.Invitations.Email.Laws.{IsEmail, matches_email_iff}
use lapor_kos.Invitations.Form.{email_error, phone_error}

phone_tests :
    (format_indonesian_phone (chars "081234567890") ≡ chars "+62 812-3456-7890")
    × (format_indonesian_phone (chars "812") ≡ chars "+62 812")
    × (format_indonesian_phone (chars "abc") ≡ chars "")
    × (phone_error (chars "+62 812-3456-7890") ≡ none)
unfolding format_indonesian_phone normal_digits phone_error trim is_space
phone_tests = (refl, refl, refl, refl)

email_tests :
    (matches_email (chars "a@b.co") ≡ true)
    × (matches_email (chars "a@@b.co") ≡ false)
    × (matches_email (chars "a@bco.") ≡ false)
    × (email_error (chars " a@b.co ") ≡ none)
unfolding matches_email is_plain is_space email_error trim
email_tests = (refl, refl, refl, refl)

matches_email_iff_example : (matches_email (chars "a@b.co") ≡ true) ↔ IsEmail (chars "a@b.co")
matches_email_iff_example = matches_email_iff (chars "a@b.co")
