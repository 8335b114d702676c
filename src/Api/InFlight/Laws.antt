-- ===== src/Api/InFlight/Laws.antt =====
-- The shared requests are exactly the pending ones, whatever the order of calls and answers.
use lapor_kos.Prelude.{
  String, ℕ, ◌+◌, ◌<◌, ◌≡◌, ◌≢◌, ◌↔◌, ◌⊎◌, not, List, [], ◌∷◌, some, arith, eq_iff, eq_refl, eqb,
  filter,
}
use lapor_kos.Api.InFlight.{Pending, InFlight, empty, fetch, clear}

abbrev pub IsPending : List Pending → String → ℕ → Type 0
IsPending [] key p = ⊥
IsPending (c ∷ cs) key p = ((c.key ≡ key) × (c.promise ≡ p)) ⊎ IsPending cs key p

-- The callbacks that have not run are those of the shared requests, one for each key, and no
-- promise is shared under two keys.
pub record IsCoherent (s : InFlight) : Type 0 where
  pub shared : (key : String) (p : ℕ) → (s.requests key ≡ some p) ↔ IsPending s.pending key p
  pub numbered : (key : String) (p : ℕ) → s.requests key ≡ some p → p < s.started
  pub unshared :
      (key other : String) (p : ℕ)
      → s.requests key ≡ some p
      → s.requests other ≡ some p
      → key ≡ other

IsPending-filter :
    (cs : List Pending) (q : ℕ) (key : String) (p : ℕ)
    → IsPending (filter (λ d. not (eqb d.promise q)) cs) key p ↔ (IsPending cs key p × (p ≢ q))
IsPending-filter [] q key p = ground arith
IsPending-filter (c ∷ cs) q key p = ground (arith, IsPending-filter cs q key p)

empty-IsCoherent : IsCoherent empty
empty-IsCoherent = record {
  shared = λ key p. ground arith;
  numbered = λ key p h. ground arith;
  unshared = λ key other p h k. ground arith;
}

fetch-IsCoherent :
    (method key : String) (s : InFlight) → IsCoherent s → IsCoherent (fetch method key s).0
unfolding fetch
fetch-IsCoherent method key s h = record {
  shared = λ k p. ground (arith, h.shared k p, eq_iff key k);
  numbered = λ k p e. ground (arith, h.numbered k p, eq_iff key k);
  unshared = λ k other p e f. ground (
    arith,
    h.unshared k other p,
    h.numbered k p,
    h.numbered other p,
    eq_iff key k,
    eq_iff key other,
  );
}

-- The test in `clear` never fails for a callback that has not run.
held :
    (c : Pending) (s : InFlight)
    → IsCoherent s
    → IsPending s.pending c.key c.promise
    → s.requests c.key ≡ some c.promise
held c s h pending = (h.shared c.key c.promise).1 pending

clear-IsCoherent :
    (c : Pending) (s : InFlight)
    → IsCoherent s
    → IsPending s.pending c.key c.promise
    → IsCoherent (clear c s)
unfolding clear
clear-IsCoherent c s h pending = record {
  shared = λ k p. ground (
    arith,
    held c s h pending,
    h.shared k p,
    h.unshared k c.key p,
    IsPending-filter s.pending c.promise k p,
    eq_iff c.key k,
  );
  numbered = λ k p e. ground (arith, held c s h pending, h.numbered k p, eq_iff c.key k);
  unshared = λ k other p e f.
      ground (arith, held c s h pending, h.unshared k other p, eq_iff c.key k, eq_iff c.key other);
}

-- A call of `apiFetch`, or a callback that has not run.
pub data Step : InFlight → InFlight → Type 0 where
  call : (method key : String) (s : InFlight) → Step s (fetch method key s).0
  settle : (c : Pending) (s : InFlight) → IsPending s.pending c.key c.promise → Step s (clear c s)

pub data Reach : InFlight → Type 0 where
  start : Reach empty
  next : {s t : InFlight} → Reach s → Step s t → Reach t

Step-IsCoherent : {s t : InFlight} → Step s t → IsCoherent s → IsCoherent t
Step-IsCoherent (call method key s) h = fetch-IsCoherent method key s h
Step-IsCoherent (settle c s pending) h = clear-IsCoherent c s h pending

-- After any calls and answers the shared requests are those of the callbacks that have not run,
-- each was started, and no two keys share one.
pub Reach-IsCoherent : (s : InFlight) → Reach s → IsCoherent s
Reach-IsCoherent s start = empty-IsCoherent
Reach-IsCoherent t (next r step) = Step-IsCoherent step (Reach-IsCoherent _ r)

-- A GET whose key has a pending request joins it: nothing goes to the network.
pub get_joins :
    (s : InFlight) (c : Pending)
    → Reach s
    → IsPending s.pending c.key c.promise
    → fetch "GET" c.key s ≡ (s, c.promise)
unfolding fetch
get_joins s c r pending = ground (arith, held c s (Reach-IsCoherent s r) pending)

-- Once its callback has run, the next GET of the key goes to the network and is the one that is
-- shared from then on.
pub get_restarts :
    (s : InFlight) (c : Pending)
    → Reach s
    → IsPending s.pending c.key c.promise
    → let (t, p) = fetch "GET" c.key (clear c s) in
      (t.started ≡ s.started + 1) × (p ≡ s.started) × (fetch "GET" c.key t ≡ (t, p))
unfolding fetch clear
get_restarts s c r pending = ground (arith, held c s (Reach-IsCoherent s r) pending, eq_refl c.key)
