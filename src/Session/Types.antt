-- ===== src/Session/Types.antt =====
-- frontend/src/features/session/types.ts
use lapor_kos.Prelude.{String, Option}

pub record SessionUser : Type 0 where
  pub id : String
  pub name : String
  pub email : String
  pub phone : Option String
  pub role : String
  pub whatsapp_group_link : Option String
