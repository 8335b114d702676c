-- ===== src/Api/InFlight.antt =====
-- frontend/src/lib/api.ts: the GET requests in flight that `apiFetch` shares. A call starts a
-- request or joins one; the `clear` callback of a GET runs when its promise has settled.
pub mod Laws
use lapor_kos.Prelude.{
  String, ℕ, ◌+◌, Bool, true, false, not, List, [], ◌∷◌, Option, none, some, ◌==◌, eqb, filter,
  get_or, if◌then◌else◌,
}

-- A promise by its number in the order of the requests, and the key that its `clear` closes over.
pub record Pending : Type 0 where
  pub promise : ℕ
  pub key : String

-- `requests` is `inFlightGetRequests`; `pending` lists the callbacks that have not run; `started`
-- counts the requests that went to the network.
pub record InFlight : Type 0 where
  pub requests : String → Option ℕ
  pub pending : List Pending
  pub started : ℕ

abbrev pub empty : InFlight
empty = record { requests = λ key. none; pending = []; started = 0 }

abbrev put : String → ℕ → (String → Option ℕ) → String → Option ℕ
put key promise m k = if key == k then some promise else m k

abbrev delete : String → (String → Option ℕ) → String → Option ℕ
delete key m k = if key == k then none else m k

-- A method but GET always starts a request; `method` is upper case here.
unfoldable pub fetch : String → String → InFlight → InFlight × ℕ
fetch method key s =
    if not (method == "GET")
    then (record s { started = s.started + 1 }, s.started)
    else elim (s.requests key) [
      | some existing ↦ (s, existing)
      | none ↦ (
        record {
          requests = put key s.started s.requests;
          pending = record { promise = s.started; key = key } ∷ s.pending;
          started = s.started + 1;
        },
        s.started,
      )
    ]

abbrev is_promise : Option ℕ → ℕ → Bool
is_promise none p = false
is_promise (some q) p = eqb q p

-- `clear`, which runs once.
unfoldable pub clear : Pending → InFlight → InFlight
clear c s =
    let left = filter (λ d. not (eqb d.promise c.promise)) s.pending in
    if is_promise (s.requests c.key) c.promise
    then record s { requests = delete c.key s.requests; pending = left }
    else record s { pending = left }
