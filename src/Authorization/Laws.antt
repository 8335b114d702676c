-- ===== src/Authorization/Laws.antt =====
-- What the roles and the explicit permissions allow.
use Prim.Native.String.{len, slice}
use lapor_kos.Prelude.{
  String, ◌-◌, ◌≡◌, refl, ◌≢◌, ◌↔◌, ◌⊎◌, Bool, true, false, not, ◌||◌, List, [], ◌∷◌, Option, none,
  some, arith, ◌==◌, eq_iff, includes, Any, get_or,
}
use lapor_kos.Authorization.{
  MembershipRole, property_owner, manager, finance, maintenance, viewer, role_capabilities, grants,
  has_capability,
}
use lapor_kos.Authorization.Capabilities.{
  CapabilityKey, Capability, capability, property_read, property_create, property_archive,
  property_manage, membership_manage, payment_write, payment_verify, room_write, room_delete,
  tenant_write, tenant_delete, contract_write, contract_delete, rule_write, security_manage,
}

abbrev pub IsListed : String → List String → Type 0
IsListed s = Any (λ x. x ≡ s)

includes_iff : (xs : List String) (s : String) → (includes xs s ≡ true) ↔ IsListed s xs
includes_iff [] s = ground arith
includes_iff (x ∷ xs) s = ground (arith, includes_iff xs s, eq_iff x s)

grants_iff :
    (permissions : Option (List String)) (s : String)
    → (grants permissions s ≡ true) ↔ IsListed s (get_or permissions [])
grants_iff none s = ground arith
grants_iff (some permissions) s = includes_iff permissions s

-- A member has a capability exactly when the explicit permissions list `*` or the capability, or
-- the table of the member's role lists it.
pub has_capability_iff :
    (role : MembershipRole) (c : Capability) (permissions : Option (List String))
    → (has_capability (some role) c permissions ≡ true) ↔ (
        IsListed "*" (get_or permissions [])
        ⊎ IsListed c (get_or permissions [])
        ⊎ IsListed c (role_capabilities role))
unfolding has_capability
has_capability_iff role c permissions = ground (
  arith,
  grants_iff permissions "*",
  grants_iff permissions c,
  includes_iff (role_capabilities role) c,
)

-- Without a role nothing is allowed, whatever is listed; with one, more explicit permissions never
-- take a capability away.
has_capability_mono :
    (role : Option MembershipRole) (c : Capability) (old more : List String)
    → ((s : String) → includes old s ≡ true → includes more s ≡ true)
    → has_capability role c (some old) ≡ true
    → (has_capability role c (some more) ≡ true) × (role ≢ none)
unfolding has_capability
has_capability_mono none c old more keep h = cc
has_capability_mono (some role) c old more keep h = ground (arith, keep "*", keep c)

-- The text of the capability ends in `read`.
abbrev pub ends_in_read : Capability → Bool
ends_in_read c = slice c (len c - 4) (len c) == "read"

viewer_reads_table :
    (k : CapabilityKey)
    → (not (has_capability (some viewer) (capability k) none) || ends_in_read (capability k)) ≡ true
unfolding has_capability role_capabilities
viewer_reads_table property_read = refl
viewer_reads_table _ = refl

-- By the table alone a viewer has only capabilities that read.
pub viewer_reads :
    (k : CapabilityKey)
    → has_capability (some viewer) (capability k) none ≡ true
    → ends_in_read (capability k) ≡ true
viewer_reads k h = ground (arith, viewer_reads_table k)

abbrev pub is_owner : MembershipRole → Bool
is_owner property_owner = true
is_owner _ = false

abbrev pub is_finance : MembershipRole → Bool
is_finance finance = true
is_finance _ = false

abbrev pub is_manager : MembershipRole → Bool
is_manager manager = true
is_manager _ = false

-- Who may take each sensitive action; every other action is left open.
abbrev pub may_hold : CapabilityKey → MembershipRole → Bool
may_hold property_create r = is_owner r
may_hold property_archive r = is_owner r
may_hold membership_manage r = is_owner r
may_hold payment_write r = is_owner r || is_finance r
may_hold payment_verify r = is_owner r || is_finance r
may_hold property_manage r = is_owner r || is_manager r
may_hold room_write r = is_owner r || is_manager r
may_hold room_delete r = is_owner r || is_manager r
may_hold tenant_write r = is_owner r || is_manager r
may_hold tenant_delete r = is_owner r || is_manager r
may_hold contract_write r = is_owner r || is_manager r
may_hold contract_delete r = is_owner r || is_manager r
may_hold rule_write r = is_owner r || is_manager r
may_hold security_manage r = is_owner r || is_manager r
may_hold _ r = true

duties_table :
    (r : MembershipRole) (k : CapabilityKey)
    → (not (has_capability (some r) (capability k) none) || may_hold k r) ≡ true
unfolding has_capability role_capabilities
duties_table property_owner property_create = refl
duties_table manager property_create = refl
duties_table finance property_create = refl
duties_table maintenance property_create = refl
duties_table viewer property_create = refl
duties_table _ _ = refl

-- By the table alone: only an owner creates or archives properties and manages the members; only
-- an owner or finance writes and verifies payments; only an owner or a manager changes the
-- property, rooms, tenants, contracts, rules and security.
pub duties_separated :
    (r : MembershipRole) (k : CapabilityKey)
    → has_capability (some r) (capability k) none ≡ true
    → may_hold k r ≡ true
duties_separated r k h = ground (arith, duties_table r k)
