-- ===== src/Invitations/Email/Laws.antt =====
-- The matcher accepts exactly the texts that the pattern describes.
use lapor_kos.Prelude.{
  ◌≡◌, refl, ap, ◌∙◌, ◌≢◌, ◌↔◌, inl, inr, true, false, [], ◌∷◌, ◌++◌, all, All, all-All,
  All-append_iff, arith, eqb, Bool-cases,
}
use lapor_kos.Invitations.Chars.{Chars, is_space}
use lapor_kos.Invitations.Email.{is_plain, dot_inside, matches_domain, matches_local, matches_email}

-- A sequence that `[^\s@]+` matches.
abbrev pub Word : Chars → Type 0
Word s = (s ≢ []) × All (λ c. is_plain c ≡ true) s

-- The texts that the pattern describes: a word, `@`, a word, a dot and a word.
pub record IsEmail (s : Chars) : Type 0 where
  pub user : Chars
  pub host : Chars
  pub domain : Chars
  pub user_word : Word user
  pub host_word : Word host
  pub domain_word : Word domain
  pub parts : s ≡ user ++ (b'@' ∷ (host ++ (b'.' ∷ domain)))

at_not_plain : is_plain b'@' ≡ false
unfolding is_plain is_space
at_not_plain = refl

dot_plain : is_plain b'.' ≡ true
unfolding is_plain is_space
dot_plain = refl

dot_inside_sound :
    (s : Chars) → dot_inside s ≡ true → (a t : Chars) × (s ≡ a ++ (b'.' ∷ t)) × (t ≢ [])
dot_inside_sound [] h = cc
dot_inside_sound (c ∷ s) h = elim (Bool-cases (dot_inside s)) [
  | inl later ↦ let (a, t, e, k) = dot_inside_sound s later in (c ∷ a, t, ap (λ r. c ∷ r) e, k)
  | inr here ↦ ([], s, ground arith, ground arith)
]

dot_inside_complete : (a t : Chars) → t ≢ [] → dot_inside (a ++ (b'.' ∷ t)) ≡ true
dot_inside_complete [] t h = ground arith
dot_inside_complete (c ∷ a) t h = ground (arith, dot_inside_complete a t)

all_of_All : (s : Chars) → All (λ c. is_plain c ≡ true) s → all is_plain s ≡ true
all_of_All [] h = refl
all_of_All (c ∷ s) h = ground (arith, all_of_All s)

matches_local_sound :
    (s : Chars)
    → matches_local s ≡ true
    → (u d : Chars) × (s ≡ u ++ (b'@' ∷ d))
      × All (λ c. is_plain c ≡ true) u
      × (matches_domain d ≡ true)
matches_local_sound [] h = cc
matches_local_sound (c ∷ s) h = elim (Bool-cases (eqb c b'@')) [
  | inl here ↦ ([], s, ground arith, tt, ground arith)
  | inr later ↦
      let (u, d, e, p, m) = matches_local_sound s (ground arith) in
      (c ∷ u, d, ap (λ r. c ∷ r) e, (ground arith, p), m)
]

matches_local_complete :
    (u d : Chars)
    → All (λ c. is_plain c ≡ true) u
    → matches_domain d ≡ true
    → matches_local (u ++ (b'@' ∷ d)) ≡ true
matches_local_complete [] d h m = ground arith
matches_local_complete (c ∷ u) d h m =
    ground (arith, at_not_plain, matches_local_complete u d h.1 m)

matches_domain_sound :
    (d : Chars)
    → matches_domain d ≡ true
    → (host domain : Chars) × (d ≡ host ++ (b'.' ∷ domain)) × Word host × Word domain
matches_domain_sound [] h = cc
matches_domain_sound (c ∷ s) h =
    let (a, t, e, k) = dot_inside_sound s (ground arith) in
    let plain : All (λ c. is_plain c ≡ true) (a ++ (b'.' ∷ t)) =
      rw e at (all-All is_plain s (ground arith)) in
    let (front, back) = (All-append_iff (λ c. is_plain c ≡ true) a (b'.' ∷ t)).0 plain in
    (c ∷ a, t, ap (λ r. c ∷ r) e, (ground arith, (ground arith, front)), (k, back.1))

matches_domain_complete :
    (host domain : Chars)
    → Word host
    → Word domain
    → matches_domain (host ++ (b'.' ∷ domain)) ≡ true
matches_domain_complete [] domain h k = absurd (h.0 refl)
matches_domain_complete (c ∷ a) domain h k =
    let plain =
      (All-append_iff (λ c. is_plain c ≡ true) (c ∷ a) (b'.' ∷ domain)).1 (h.1, (dot_plain, k.1)) in
    ground (arith, all_of_All ((c ∷ a) ++ (b'.' ∷ domain)) plain, dot_inside_complete a domain k.0)

matches_email_sound : (s : Chars) → matches_email s ≡ true → IsEmail s
unfolding matches_email
matches_email_sound [] h = cc
matches_email_sound (c ∷ s) h =
    let (u, d, e, p, m) = matches_local_sound s (ground arith) in
    let (host, domain, f, hw, dw) = matches_domain_sound d m in
    record {
      user = c ∷ u;
      host = host;
      domain = domain;
      user_word = (ground arith, (ground arith, p));
      host_word = hw;
      domain_word = dw;
      parts = ap (λ r. c ∷ r) (e ∙ ap (λ r. u ++ (b'@' ∷ r)) f);
    }

matches_email_parts :
    (user host domain : Chars)
    → Word user
    → Word host
    → Word domain
    → matches_email (user ++ (b'@' ∷ (host ++ (b'.' ∷ domain)))) ≡ true
unfolding matches_email
matches_email_parts [] host domain h k l = absurd (h.0 refl)
matches_email_parts (c ∷ u) host domain h k l = ground (
  arith,
  matches_local_complete u (host ++ (b'.' ∷ domain)) h.1.1
      (matches_domain_complete host domain k l),
)

matches_email_complete : (s : Chars) → IsEmail s → matches_email s ≡ true
matches_email_complete s e =
    rw e.parts (matches_email_parts e.user e.host e.domain e.user_word e.host_word e.domain_word)

-- The matcher accepts a text exactly when it is a word, `@`, a word, a dot and a word, where a
-- word has at least one unit and neither white space nor `@`.
pub matches_email_iff : (s : Chars) → (matches_email s ≡ true) ↔ IsEmail s
matches_email_iff s = (matches_email_sound s, matches_email_complete s)
