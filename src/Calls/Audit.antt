-- ===== src/Calls/Audit.antt =====
-- frontend/src/features/audit/api.ts
use lapor_kos.Prelude.{String, ℕ, Option, [], ◌∷◌, ◌^^◌, truthy, get_or, if◌then◌else◌}
use lapor_kos.Calls.{
  Call, call, with_method, with_params, with_body, for_property, given_params, number_param,
}

pub record AuditFilter : Type 0 where
  pub entity_type : Option String
  pub action : Option String
  pub correlation_id : Option String
  pub actor_id : Option String
  pub start_date : Option String
  pub end_date : Option String
  pub page : Option ℕ
  pub page_size : Option ℕ

pub data AuditCall (P : Type 0) : Type 0 where
  list_financial_audits : (property_id : String) (filter : AuditFilter) → AuditCall P
  get_system_health : AuditCall P
  get_security_checklist : (property_id : Option String) → AuditCall P
  revoke_user_session : (payload : P) → AuditCall P
  revoke_my_sessions : AuditCall P

module _ {P : Type 0} (stringify : P → String) where
  unfoldable pub audit_call : AuditCall P → Call
  audit_call (list_financial_audits property_id f) =
      with_params
        (given_params (
          ("entity_type", f.entity_type)
          ∷ ("action", f.action)
          ∷ ("correlation_id", f.correlation_id)
          ∷ ("actor_id", f.actor_id)
          ∷ ("start_date", f.start_date)
          ∷ ("end_date", f.end_date)
          ∷ ("page", number_param f.page)
          ∷ ("page_size", number_param f.page_size)
          ∷ []))
        (for_property property_id
          (call ("/api/v1/properties/" ^^ property_id ^^ "/audit/financial")))
  audit_call get_system_health = call "/api/ready"
  audit_call (get_security_checklist property_id) =
      if truthy property_id
      then for_property (get_or property_id "") (call "/api/security/checklist")
      else call "/api/security/checklist"
  audit_call (revoke_user_session payload) =
      with_body (stringify payload) (with_method "POST" (call "/api/security/sessions/revoke"))
  audit_call revoke_my_sessions = with_method "POST" (call "/api/auth/revoke-sessions")
