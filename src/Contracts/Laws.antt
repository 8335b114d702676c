-- ===== src/Contracts/Laws.antt =====
-- Where the owner's buttons lead.
use lapor_kos.Prelude.{ℕ, ◌+◌, ◌≤◌, ◌<◌, ◌≡◌, ◌≢◌, Any, arith, subst, sym}
use lapor_kos.Contracts.{
  ContractStatus, draft, pending_tenant, scheduled, active, cancelled, owner_transitions, offered,
}

-- The owner may change `s` to `t`.
abbrev pub IsOffered : ContractStatus → ContractStatus → Type 0
IsOffered s t = Any (λ u. t ≡ u) (owner_transitions s)

-- `n` changes of the owner, one after the other.
pub data Changes : ℕ → ContractStatus → ContractStatus → Type 0 where
  none_made : {s : ContractStatus} → Changes 0 s s
  one_more : {n : ℕ} {s t u : ContractStatus} → Changes n s t → IsOffered t u → Changes (n + 1) s u

-- How many changes a state leaves at most.
abbrev rank : ContractStatus → ℕ
rank draft = 2
rank pending_tenant = 1
rank scheduled = 2
rank active = 1
rank _ = 0

IsOffered-rank : (s t : ContractStatus) → IsOffered s t → rank t < rank s
unfolding owner_transitions
IsOffered-rank s t h = ground arith

Changes-rank : {n : ℕ} {s t : ContractStatus} → Changes n s t → n + rank t ≤ rank s
Changes-rank none_made = omega arith
Changes-rank (one_more {t = t} {u = u} before offered) =
    omega (arith, Changes-rank before, IsOffered-rank t u offered)

rank-le : (s : ContractStatus) → rank s ≤ 2
rank-le s = ground arith

-- The states that a draft comes to by the owner alone.
abbrev IsUnaccepted : ContractStatus → Type 0
IsUnaccepted draft = Unit
IsUnaccepted pending_tenant = Unit
IsUnaccepted cancelled = Unit
IsUnaccepted _ = ⊥

offered-IsUnaccepted : (s t : ContractStatus) → IsOffered s t → IsUnaccepted s → IsUnaccepted t
unfolding owner_transitions
offered-IsUnaccepted s t h u = ground arith

Changes-IsUnaccepted :
    {n : ℕ} {s t : ContractStatus} → Changes n s t → IsUnaccepted s → IsUnaccepted t
Changes-IsUnaccepted none_made u = u
Changes-IsUnaccepted (one_more {t = t} {u = v} before offered) u =
    offered-IsUnaccepted t v offered (Changes-IsUnaccepted before u)

-- The owner changes the state of a contract at most twice, whichever buttons are pressed, as long as
-- nobody else changes it; and from a draft these changes lead neither to a scheduled contract nor to
-- an active one, for which the tenant has to accept it.
pub Changes-settle :
    (n : ℕ) (s t : ContractStatus)
    → Changes n s t
    → (n ≤ 2) × (s ≡ draft → (t ≢ scheduled) × (t ≢ active))
Changes-settle n s t changes = (
  omega (arith, Changes-rank changes, rank-le s),
  λ e.
      let waits = Changes-IsUnaccepted changes (subst IsUnaccepted (sym e) tt) in
      (λ h. subst IsUnaccepted h waits, λ h. subst IsUnaccepted h waits),
)
