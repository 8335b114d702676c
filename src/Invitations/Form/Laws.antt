-- ===== src/Invitations/Form/Laws.antt =====
-- What the form accepts.
use lapor_kos.Prelude.{◌≤◌, ◌≡◌, refl, ◌↔◌, inl, inr, true, false, [], ◌∷◌, none, arith, length}
use lapor_kos.Invitations.Chars.{Chars, is_empty, is_space, trim}
use lapor_kos.Invitations.Phone.{digits_of, normal_digits, format_indonesian_phone}
use lapor_kos.Invitations.Phone.Laws.{format_shape, digits_of-format}
use lapor_kos.Invitations.Email.{matches_email}
use lapor_kos.Invitations.Email.Laws.{IsEmail, matches_email_iff}
use lapor_kos.Invitations.Form.{email_error, phone_error}

matches_email-nonempty : (s : Chars) → matches_email s ≡ true → is_empty s ≡ false
unfolding matches_email
matches_email-nonempty [] h = cc
matches_email-nonempty (c ∷ s) h = refl

trim-plus : (s : Chars) → is_empty (trim (b'+' ∷ s)) ≡ false
unfolding trim is_space
trim-plus s = refl

trim-nil : trim [] ≡ []
unfolding trim
trim-nil = refl

-- The email is accepted exactly when its trimmed text is of the described form.
email_error_iff : (email : Chars) → (email_error email ≡ none) ↔ IsEmail (trim email)
unfolding email_error
email_error_iff email =
    let form = matches_email_iff (trim email) in
    (
      λ h. form.0 (ground arith),
      λ h. ground (arith, form.1 h, matches_email-nonempty (trim email) (form.1 h)),
    )

-- A number that the field has formatted is accepted exactly when it has at least eleven digits,
-- the country code included.
pub phone_error-format :
    (value : Chars)
    → (phone_error (format_indonesian_phone value) ≡ none)
      ↔ (11 ≤ length (normal_digits (digits_of value)))
unfolding phone_error
phone_error-format value = elim (format_shape value) [
  | inl (e, f) ↦ ground (arith, e, f, trim-nil)
  | inr (s, f, pre, short) ↦ ground (arith, f, pre, short, trim-plus s, digits_of-format value)
]
