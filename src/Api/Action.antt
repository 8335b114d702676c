-- ===== src/Api/Action.antt =====
-- A handler that awaits calls of the server: `await` of each in turn, where a call that throws ends
-- the `try`. The server is any function of the calls before, the latest first, and the call.
use lapor_kos.Prelude.{String, List, ◌∷◌, ◌≡◌, refl, ap, ◌⊎◌, inl, inr}
use lapor_kos.Api.Request.{Outcome, returned, thrown}

abbrev pub Server : Type 0 → Type 0 → Type 0
Server Q J = List Q → Q → Outcome J

-- What comes of it, and the calls that were made.
abbrev pub Action : Type 0 → Type 0 → Type 0 → Type 0
Action Q J A = Server Q J → List Q → Outcome A × List Q

module _ {Q J A : Type 0} where
  abbrev pub pure : A → Action Q J A
  pure a server calls = (returned a, calls)

abbrev pub ask : {Q J : Type 0} → Q → Action Q J J
ask q server calls = (server calls q, q ∷ calls)

infixl 5 ◌>>=◌ ◌>>◌
abbrev pub ◌>>=◌ : {Q J A B : Type 0} → Action Q J A → (A → Action Q J B) → Action Q J B
◌>>=◌ m f server calls =
    let (o, calls') = m server calls in
    elim o [ returned a ↦ f a server calls' | thrown message ↦ (thrown message, calls') ]

abbrev pub ◌>>◌ : {Q J A B : Type 0} → Action Q J A → Action Q J B → Action Q J B
m >> k = m >>= λ _. k

pub Outcome-cases {ℓ} :
    {A : Type ℓ} (o : Outcome A) → ((a : A) × (o ≡ returned a)) ⊎ ((m : String) × (o ≡ thrown m))
Outcome-cases (returned a) = inl (a, refl)
Outcome-cases (thrown m) = inr (m, refl)

-- A `try` within the handler, whose `catch` goes on.
abbrev pub attempt : {Q J A : Type 0} → Action Q J A → Action Q J (Outcome A)
attempt m server calls = let (o, calls') = m server calls in (returned o, calls')

-- What throws ends the handler.
pub bind_thrown :
    {Q J A B : Type 0} (m : Action Q J A) (f : A → Action Q J B) (server : Server Q J)
    (calls calls' : List Q) (message : String)
    → m server calls ≡ (thrown message, calls')
    → (m >>= f) server calls ≡ (thrown message, calls')
bind_thrown {Q = Q} {B = B} m f server calls calls' message e =
    ap
      (λ r. elim r.0 as (λ _. Outcome B × List Q) [
        | returned a ↦ f a server r.1
        | thrown text ↦ (thrown text, r.1)
      ])
      e

pub ask_thrown :
    {Q J : Type 0} (q : Q) (server : Server Q J) (calls : List Q) (message : String)
    → server calls q ≡ thrown message
    → ask q server calls ≡ (thrown message, q ∷ calls)
ask_thrown q server calls message e = rw e refl
