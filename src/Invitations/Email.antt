-- ===== src/Invitations/Email.antt =====
-- frontend/src/features/tenant-invitations/form.ts: the pattern of an email,
-- `/^[^\s@]+@[^\s@]+\.[^\s@]+$/`, as a matcher over the units of the text.
pub mod Laws
use lapor_kos.Prelude.{
  ℕ, Bool, true, false, not, ◌&&◌, ◌||◌, List, [], ◌∷◌, all, eqb, if◌then◌else◌,
}
use lapor_kos.Invitations.Chars.{Chars, is_space, is_empty}

-- `[^\s@]`
unfoldable pub is_plain : ℕ → Bool
is_plain c = not (is_space c) && not (eqb c b'@')

-- `\.[^\s@]+$` somewhere in a text whose units are plain.
abbrev pub dot_inside : Chars → Bool
dot_inside [] = false
dot_inside (c ∷ s) = eqb c b'.' && not (is_empty s) || dot_inside s

-- `[^\s@]+\.[^\s@]+$`
abbrev pub matches_domain : Chars → Bool
matches_domain [] = false
matches_domain (c ∷ s) = all is_plain (c ∷ s) && dot_inside s

-- `[^\s@]*@…`
abbrev pub matches_local : Chars → Bool
matches_local [] = false
matches_local (c ∷ s) =
    let rest = matches_local s in if eqb c b'@' then matches_domain s else is_plain c && rest

unfoldable pub matches_email : Chars → Bool
matches_email [] = false
matches_email (c ∷ s) = is_plain c && matches_local s
