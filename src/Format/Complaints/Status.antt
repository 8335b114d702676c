-- ===== src/Format/Complaints/Status.antt =====
-- frontend/src/features/complaints/types.ts: the statuses.
use lapor_kos.Prelude.{String}

-- `ComplaintStatus`
pub data ComplaintStatus : Type 0 where
  pending in_progress scheduled waiting_vendor resolved confirmed reopened cancelled processed :
      ComplaintStatus

-- The text that the type stands for.
abbrev pub complaint_status : ComplaintStatus → String
complaint_status pending = "pending"
complaint_status ComplaintStatus.in_progress = "in_progress"
complaint_status ComplaintStatus.scheduled = "scheduled"
complaint_status waiting_vendor = "waiting_vendor"
complaint_status resolved = "resolved"
complaint_status confirmed = "confirmed"
complaint_status reopened = "reopened"
complaint_status ComplaintStatus.cancelled = "cancelled"
complaint_status processed = "processed"

-- `WorkOrderStatus`
pub data WorkOrderStatus : Type 0 where
  draft assigned scheduled in_progress completed cancelled : WorkOrderStatus

-- The text that the type stands for.
abbrev pub work_order_status : WorkOrderStatus → String
work_order_status draft = "draft"
work_order_status assigned = "assigned"
work_order_status WorkOrderStatus.scheduled = "scheduled"
work_order_status WorkOrderStatus.in_progress = "in_progress"
work_order_status completed = "completed"
work_order_status WorkOrderStatus.cancelled = "cancelled"
