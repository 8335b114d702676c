-- ===== src/Format/Notifications/Status.antt =====
-- frontend/src/features/notifications/types.ts: the statuses.
use lapor_kos.Prelude.{String}

-- `OutboxStatus`
pub data OutboxStatus : Type 0 where
  pending processing delivered failed partially_delivered skipped deduplicated : OutboxStatus

-- The text that the type stands for.
abbrev pub outbox_status : OutboxStatus → String
outbox_status OutboxStatus.pending = "pending"
outbox_status processing = "processing"
outbox_status OutboxStatus.delivered = "delivered"
outbox_status OutboxStatus.failed = "failed"
outbox_status partially_delivered = "partially_delivered"
outbox_status skipped = "skipped"
outbox_status OutboxStatus.deduplicated = "deduplicated"

-- `DeliveryStatus`
pub data DeliveryStatus : Type 0 where
  pending delivered failed skipped_quiet_hours opted_out deduplicated : DeliveryStatus

-- The text that the type stands for.
abbrev pub delivery_status : DeliveryStatus → String
delivery_status DeliveryStatus.pending = "pending"
delivery_status DeliveryStatus.delivered = "delivered"
delivery_status DeliveryStatus.failed = "failed"
delivery_status skipped_quiet_hours = "skipped_quiet_hours"
delivery_status opted_out = "opted_out"
delivery_status DeliveryStatus.deduplicated = "deduplicated"
