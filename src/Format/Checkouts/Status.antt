-- ===== src/Format/Checkouts/Status.antt =====
-- frontend/src/features/checkouts/types.ts: the statuses.
use lapor_kos.Prelude.{String}

-- `CheckoutStatus`
pub data CheckoutStatus : Type 0 where
  submitted inspection_scheduled inspection_completed settlement_pending approved completed
        cancelled :
      CheckoutStatus

-- The text that the type stands for.
abbrev pub checkout_status : CheckoutStatus → String
checkout_status submitted = "submitted"
checkout_status inspection_scheduled = "inspection_scheduled"
checkout_status inspection_completed = "inspection_completed"
checkout_status settlement_pending = "settlement_pending"
checkout_status approved = "approved"
checkout_status completed = "completed"
checkout_status cancelled = "cancelled"
