-- ===== src/Properties/Types.antt =====
-- frontend/src/features/properties/types.ts; an optional or nullable field is an `Option`.
use lapor_kos.Prelude.{String, List, Option}
use lapor_kos.Authorization.{MembershipRole}

pub record PropertySummary : Type 0 where
  pub id : String
  pub name : String
  pub address : Option String
  pub timezone : String
  pub currency : String
  pub status : String
  pub membership_id : String
  pub role : MembershipRole
  pub permissions : Option (List String)
