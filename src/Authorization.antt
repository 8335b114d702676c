-- ===== src/Authorization.antt =====
-- frontend/src/features/authorization/permissions.ts: what each role may do.
pub mod Capabilities
pub mod Laws
use lapor_kos.Prelude.{
  String, Bool, true, false, ◌||◌, List, [], ◌∷◌, map, Option, none, some, includes, if◌then◌else◌,
}
use Capabilities.{
  Capability, capability, all_capabilities, property_read, property_manage, membership_read,
  room_read, room_write, room_delete, tenant_read, tenant_write, tenant_delete, contract_read,
  contract_write, contract_delete, payment_read, payment_write, payment_verify, invoice_read,
  invoice_write, invoice_generate, report_read, report_export, complaint_read, complaint_manage,
  rule_read, rule_write, calendar_read, file_read, file_write, notification_read,
  notification_retry, visitor_permit_read, visitor_permit_write, visitor_permit_approve,
  visitor_permit_check_in_out, expense_read, expense_write, expense_approve, finance_close,
  finance_adjust, finance_export, audit_read, security_manage, system_health_read,
}

-- frontend/src/features/properties/types.ts
pub data MembershipRole : Type 0 where
  property_owner manager finance maintenance viewer : MembershipRole

-- `ROLE_CAPABILITIES`
unfoldable pub role_capabilities : MembershipRole → List Capability
role_capabilities property_owner = all_capabilities
role_capabilities manager = map capability (
    property_read ∷ property_manage ∷ membership_read ∷ room_read ∷ room_write ∷ room_delete
    ∷ tenant_read ∷ tenant_write ∷ tenant_delete ∷ contract_read ∷ contract_write ∷ contract_delete
    ∷ payment_read ∷ invoice_read ∷ invoice_write ∷ invoice_generate ∷ report_read ∷ complaint_read
    ∷ complaint_manage ∷ rule_read ∷ rule_write ∷ calendar_read ∷ file_read ∷ file_write
    ∷ notification_read ∷ notification_retry ∷ visitor_permit_read ∷ visitor_permit_write
    ∷ visitor_permit_approve ∷ visitor_permit_check_in_out ∷ expense_read ∷ expense_write
    ∷ expense_approve ∷ finance_close ∷ finance_adjust ∷ finance_export ∷ audit_read
    ∷ security_manage ∷ system_health_read ∷ [])
role_capabilities finance = map capability (
    property_read ∷ room_read ∷ tenant_read ∷ contract_read ∷ payment_read ∷ payment_write
    ∷ payment_verify ∷ invoice_read ∷ invoice_write ∷ invoice_generate ∷ report_read ∷ report_export
    ∷ calendar_read ∷ file_read ∷ notification_read ∷ visitor_permit_read ∷ expense_read
    ∷ expense_write ∷ expense_approve ∷ finance_close ∷ finance_adjust ∷ finance_export ∷ audit_read
    ∷ system_health_read ∷ [])
role_capabilities maintenance = map capability (
    property_read ∷ room_read ∷ complaint_read ∷ complaint_manage ∷ rule_read ∷ calendar_read
    ∷ file_read ∷ file_write ∷ notification_read ∷ visitor_permit_read ∷ visitor_permit_check_in_out
    ∷ expense_read ∷ expense_write ∷ system_health_read ∷ [])
role_capabilities viewer = map capability (
    property_read ∷ room_read ∷ contract_read ∷ payment_read ∷ invoice_read ∷ report_read
    ∷ complaint_read ∷ rule_read ∷ calendar_read ∷ notification_read ∷ visitor_permit_read
    ∷ expense_read ∷ audit_read ∷ system_health_read ∷ [])

-- `explicitPermissions?.includes(s)`
abbrev pub grants : Option (List String) → String → Bool
grants none s = false
grants (some permissions) s = includes permissions s

unfoldable pub has_capability : Option MembershipRole → Capability → Option (List String) → Bool
has_capability none capability permissions = false
has_capability (some role) capability permissions =
    if grants permissions "*" || grants permissions capability
    then true
    else includes (role_capabilities role) capability

unfoldable pub get_role_label : Option MembershipRole → String
get_role_label (some property_owner) = "Owner Properti"
get_role_label (some manager) = "Manager"
get_role_label (some finance) = "Finance"
get_role_label (some maintenance) = "Maintenance"
get_role_label (some viewer) = "Viewer"
get_role_label none = "Tanpa peran"
