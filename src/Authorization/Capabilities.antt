-- ===== src/Authorization/Capabilities.antt =====
-- frontend/src/features/authorization/permissions.ts: the table of capabilities.
use lapor_kos.Prelude.{String, List, [], ◌∷◌, map}

-- The keys of `CAPABILITIES`, in its order.
pub data CapabilityKey : Type 0 where
  property_read property_create property_manage property_archive membership_read membership_manage
        room_read room_write room_delete tenant_read tenant_write tenant_delete contract_read
        contract_write contract_delete payment_read payment_write payment_verify invoice_read
        invoice_write invoice_generate report_read report_export complaint_read complaint_manage
        rule_read rule_write calendar_read file_read file_write notification_read notification_retry
        visitor_permit_read visitor_permit_write visitor_permit_approve visitor_permit_check_in_out
        expense_read expense_write expense_approve finance_close finance_adjust finance_export
        audit_read security_manage system_health_read :
      CapabilityKey

-- A capability is the text that the server knows it by.
abbrev pub Capability : Type 0
Capability = String

-- `CAPABILITIES`
abbrev pub capability : CapabilityKey → Capability
capability property_read = "property.read"
capability property_create = "property.create"
capability property_manage = "property.update"
capability property_archive = "property.archive"
capability membership_read = "membership.read"
capability membership_manage = "membership.manage"
capability room_read = "room.read"
capability room_write = "room.write"
capability room_delete = "room.delete"
capability tenant_read = "tenant.read"
capability tenant_write = "tenant.write"
capability tenant_delete = "tenant.delete"
capability contract_read = "contract.read"
capability contract_write = "contract.write"
capability contract_delete = "contract.delete"
capability payment_read = "payment.read"
capability payment_write = "payment.write"
capability payment_verify = "payment.verify"
capability invoice_read = "invoice.read"
capability invoice_write = "invoice.write"
capability invoice_generate = "invoice.generate"
capability report_read = "report.read"
capability report_export = "report.read"
capability complaint_read = "complaint.read"
capability complaint_manage = "complaint.write"
capability rule_read = "house_rule.read"
capability rule_write = "house_rule.write"
capability calendar_read = "calendar.read"
capability file_read = "file.read"
capability file_write = "file.write"
capability notification_read = "notification.read"
capability notification_retry = "notification.retry"
capability visitor_permit_read = "visitor_permit.read"
capability visitor_permit_write = "visitor_permit.write"
capability visitor_permit_approve = "visitor_permit.approve"
capability visitor_permit_check_in_out = "visitor_permit.check_in_out"
capability expense_read = "expense.read"
capability expense_write = "expense.write"
capability expense_approve = "expense.approve"
capability finance_close = "finance.close"
capability finance_adjust = "finance.adjust"
capability finance_export = "finance.export"
capability audit_read = "audit.read"
capability security_manage = "security.manage"
capability system_health_read = "system.health_read"

abbrev pub all_keys : List CapabilityKey
all_keys =
    property_read ∷ property_create ∷ property_manage ∷ property_archive ∷ membership_read
    ∷ membership_manage ∷ room_read ∷ room_write ∷ room_delete ∷ tenant_read ∷ tenant_write
    ∷ tenant_delete ∷ contract_read ∷ contract_write ∷ contract_delete ∷ payment_read
    ∷ payment_write ∷ payment_verify ∷ invoice_read ∷ invoice_write ∷ invoice_generate ∷ report_read
    ∷ report_export ∷ complaint_read ∷ complaint_manage ∷ rule_read ∷ rule_write ∷ calendar_read
    ∷ file_read ∷ file_write ∷ notification_read ∷ notification_retry ∷ visitor_permit_read
    ∷ visitor_permit_write ∷ visitor_permit_approve ∷ visitor_permit_check_in_out ∷ expense_read
    ∷ expense_write ∷ expense_approve ∷ finance_close ∷ finance_adjust ∷ finance_export ∷ audit_read
    ∷ security_manage ∷ system_health_read ∷ []

-- `Object.values(CAPABILITIES)`
abbrev pub all_capabilities : List Capability
all_capabilities = map capability all_keys
