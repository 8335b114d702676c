-- ===== src/Rooms/Dialog/Laws.antt =====
-- How the facilities of a room are kept in its description.
use lapor_kos.Prelude.{◌≡◌, refl, ap, ◌∙◌, false, List, [], ◌∷◌, ◌++◌, All, any, eqb, arith}
use lapor_kos.Invitations.Chars.{Chars, is_empty, is_space, trim}
use lapor_kos.Rooms.Csv.{join}
use lapor_kos.Rooms.Dialog.{put_first, split, tidy, facilities_of, description_of}

-- A facility that is trimmed, not empty, and has no comma.
abbrev pub IsTag : Chars → Type 0
IsTag t = (trim t ≡ t) × (is_empty t ≡ false) × (any (λ c. eqb c b',') t ≡ false)

split_last : (t : Chars) → any (λ c. eqb c b',') t ≡ false → split t ≡ t ∷ []
split_last [] h = refl
split_last (c ∷ t) h = ground (arith, split_last t)

split_next : (t s : Chars) → any (λ c. eqb c b',') t ≡ false → split (t ++ (b',' ∷ s)) ≡ t ∷ split s
split_next [] s h = refl
split_next (c ∷ t) s h = ground (arith, split_next t s)

trim_space : (s : Chars) → trim (b' ' ∷ s) ≡ trim s
unfolding trim is_space
trim_space s = refl

trim_blank : trim (b' ' ∷ []) ≡ []
unfolding trim is_space
trim_blank = refl

tidy-put_first : (xs : List Chars) → tidy (put_first b' ' xs) ≡ tidy xs
tidy-put_first [] = rw trim_blank refl
tidy-put_first (x ∷ xs) = rw (trim_space x) refl

tidy_tag : (t : Chars) (xs : List Chars) → IsTag t → tidy (t ∷ xs) ≡ t ∷ tidy xs
tidy_tag t xs (trimmed, full, _) = rw (trimmed, full) refl

tidy-split :
    (t : Chars) (ts : List Chars)
    → All IsTag (t ∷ ts)
    → tidy (split (join (b',' ∷ b' ' ∷ []) (t ∷ ts))) ≡ t ∷ ts
tidy-split t [] h = ap tidy (split_last t h.0.2) ∙ tidy_tag t [] h.0
tidy-split t (u ∷ ts) h =
    let rest = join (b',' ∷ b' ' ∷ []) (u ∷ ts) in
    ap tidy (split_next t (b' ' ∷ rest) h.0.2)
    ∙ tidy_tag t (put_first b' ' (split rest)) h.0
    ∙ ap (λ xs. t ∷ xs) (tidy-put_first (split rest) ∙ tidy-split u ts h.1)

full-description :
    (t : Chars) (ts : List Chars)
    → is_empty t ≡ false
    → is_empty (join (b',' ∷ b' ' ∷ []) (t ∷ ts)) ≡ false
full-description [] ts h = absurd (ground arith)
full-description (c ∷ t) [] h = refl
full-description (c ∷ t) (u ∷ ts) h = refl

-- Facilities that are trimmed, not empty and without commas are read back from the description that
-- a room is saved with, each as it was and in their order.
pub facilities_of-description_of :
    (facilities : List Chars)
    → All IsTag facilities
    → facilities_of (description_of facilities) ≡ facilities
unfolding facilities_of description_of
facilities_of-description_of [] h = refl
facilities_of-description_of (t ∷ ts) h = rw (full-description t ts h.0.1) (tidy-split t ts h)
