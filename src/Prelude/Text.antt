-- ===== src/Prelude/Text.antt =====
-- Texts: paths below a path, and the prefixes of a text.
use Prim.Native.String
use Prim.Native.String.{String}
use mathlib.Core.Path.{◌≡◌, refl, sym, ap, ◌∙◌}
use mathlib.Core.Logic.{◌⊎◌, inl, inr}
use mathlib.Core.Bool.{Bool, true, false, not, ◌&&◌, ◌||◌}
use native.Mathlib.Omega.{arith}
use text.Mathlib.Text.{◌==◌, starts_with}
use text.Mathlib.TextBridge.{IsPrefix}
use text.Mathlib.TextEquality.{eq_iff, starts_with_iff}
use text.Mathlib.TextLemmas.{
  nil-append, cons-append, append-nil, append_assoc, head-eq_of_cons-eq, tail-eq_of_cons-eq,
}
use mathlib.Core.List.{List, [], ◌∷◌}
use lapor_kos.Prelude.Lists.{any, all}
use lapor_kos.Prelude.Tests.{Bool-cases}

infixl 65 ◌^^◌
-- Texts joined; lists have `++`.
abbrev pub ◌^^◌ : String → String → String
s ^^ t = String.◌++◌ s t

-- `pathname === path || pathname.startsWith(`${path}/`)`
abbrev pub is_under : String → String → Bool
is_under path pathname = pathname == path || starts_with pathname (path ^^ "/")

IsPrefix-compare : (p q s : String) → IsPrefix p s → IsPrefix q s → IsPrefix p q ⊎ IsPrefix q p
IsPrefix-compare String.[] q s h k = inl (q, nil-append q)
IsPrefix-compare (String.◌∷◌ c p) String.[] s h k = inr (String.◌∷◌ c p, nil-append _)
IsPrefix-compare (String.◌∷◌ c p) (String.◌∷◌ d q) s (u, e) (v, f) =
    let both = sym (cons-append c p u) ∙ e ∙ sym f ∙ cons-append d q v in
    let heads : c ≡ d = head-eq_of_cons-eq both in
    let tails : p ^^ u ≡ q ^^ v = tail-eq_of_cons-eq both in
    elim (IsPrefix-compare p q (q ^^ v) (u, tails) (v, refl)) [
      | inl (w, g) ↦ inl (w, cons-append c p w ∙ cc (g, heads))
      | inr (w, g) ↦ inr (w, cons-append d q w ∙ cc (g, heads))
    ]

is_under-IsPrefix : (p s : String) → is_under p s ≡ true → IsPrefix (p ^^ "/") (s ^^ "/")
is_under-IsPrefix p s h = elim (Bool-cases (s == p)) [
  | inl same ↦ ("", append-nil _ ∙ ap (λ t. t ^^ "/") (sym ((eq_iff s p).0 same)))
  | inr other ↦
      let (u, e) = (starts_with_iff s (p ^^ "/")).0 (ground arith) in
      (u ^^ "/", sym (append_assoc _ u "/") ∙ ap (λ t. t ^^ "/") e)
]

-- Two paths above one path: one of them is above the other.
is_under-compare :
    (p q s : String)
    → is_under p s ≡ true
    → is_under q s ≡ true
    → (starts_with (q ^^ "/") (p ^^ "/") ≡ true) ⊎ (starts_with (p ^^ "/") (q ^^ "/") ≡ true)
is_under-compare p q s h k =
    elim (IsPrefix-compare (p ^^ "/") (q ^^ "/") (s ^^ "/") (is_under-IsPrefix p s h)
      (is_under-IsPrefix q s k)) [
        | inl a ↦ inl ((starts_with_iff _ _).1 a)
        | inr b ↦ inr ((starts_with_iff _ _).1 b)
      ]

-- Neither path is the other or lies below it.
abbrev pub is_apart : String → String → Bool
is_apart p q = not (starts_with (q ^^ "/") (p ^^ "/")) && not (starts_with (p ^^ "/") (q ^^ "/"))

-- So no path lies below both.
pub is_under-is_apart :
    (p q s : String) → is_apart p q ≡ true → is_under p s ≡ true → is_under q s ≡ false
is_under-is_apart p q s a h = elim (Bool-cases (is_under q s)) [
  | inl k ↦ absurd (ground (arith, is_under-compare p q s h k))
  | inr k ↦ k
]

pub any-is_under_of_apart :
    (p : String) (paths : List String) (s : String)
    → all (is_apart p) paths ≡ true
    → is_under p s ≡ true
    → any (λ q. is_under q s) paths ≡ false
any-is_under_of_apart p [] s a h = refl
any-is_under_of_apart p (q ∷ qs) s a h =
    ground (arith, is_under-is_apart p q s, any-is_under_of_apart p qs s)
