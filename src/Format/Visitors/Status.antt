-- ===== src/Format/Visitors/Status.antt =====
-- frontend/src/features/guest-permits/types.ts: the statuses.
use lapor_kos.Prelude.{String}

-- `VisitorPermitStatus`
pub data VisitorPermitStatus : Type 0 where
  pending approved rejected change_requested active completed cancelled expired :
      VisitorPermitStatus

-- The text that the type stands for.
abbrev pub visitor_permit_status : VisitorPermitStatus → String
visitor_permit_status pending = "pending"
visitor_permit_status approved = "approved"
visitor_permit_status rejected = "rejected"
visitor_permit_status change_requested = "change_requested"
visitor_permit_status active = "active"
visitor_permit_status completed = "completed"
visitor_permit_status cancelled = "cancelled"
visitor_permit_status expired = "expired"
