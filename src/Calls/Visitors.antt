-- ===== src/Calls/Visitors.antt =====
-- frontend/src/features/guest-permits/api.ts
use lapor_kos.Prelude.{
  String, ℕ, Bool, true, Option, none, some, List, [], ◌∷◌, ◌^^◌, or_else, get_or, if◌then◌else◌,
  ◌++◌,
}
use lapor_kos.Calls.{
  Call, call, with_method, with_params, with_body, scoped, given_params, number_param, Fields,
  text_field, number_field,
}

pub record PermitFilter : Type 0 where
  pub status : Option String
  pub from_date : Option String
  pub to_date : Option String
  pub is_overnight : Option Bool
  pub search : Option String
  pub page : Option ℕ
  pub per_page : Option ℕ

pub data VisitorCall (P : Type 0) : Type 0 where
  list_visitor_permits : (params : PermitFilter) → VisitorCall P
  get_visitor_permit : (id : String) → VisitorCall P
  get_visitor_summary : VisitorCall P
  approve_visitor_permit : (id : String) (reason : Option String) → VisitorCall P
  reject_visitor_permit request_change_visitor_permit : (id reason : String) → VisitorCall P
  check_in_visitor check_out_visitor : (id : String) → VisitorCall P
  apply_visitor_retention : (older_than_days : ℕ) → VisitorCall P
  tenant_list_visitor_permits : (params : PermitFilter) → VisitorCall P
  tenant_create_visitor_permit : (req : P) → VisitorCall P
  tenant_get_visitor_permit : (id : String) → VisitorCall P
  tenant_cancel_visitor_permit : (id : String) (reason : Option String) → VisitorCall P
  verify_visitor_pass : (token : String) → VisitorCall P

-- `String(b)`, where it is given.
abbrev flag_param : Option Bool → Option String
flag_param none = none
flag_param (some b) = some (if b then "true" else "false")

abbrev period_params : PermitFilter → List (String × Option String)
period_params f = ("status", f.status) ∷ ("from_date", f.from_date) ∷ ("to_date", f.to_date) ∷ []

abbrev page_params : PermitFilter → List (String × Option String)
page_params f =
    ("search", f.search)
    ∷ ("page", number_param f.page)
    ∷ ("per_page", number_param f.per_page)
    ∷ []

module _ {P : Type 0} (stringify : P → String) (stringify_fields : Fields → String) where
  -- A call of staff that tells why.
  abbrev with_reason : String → String → Call
  with_reason endpoint reason = scoped true (
      with_body (stringify_fields (("reason", text_field reason) ∷ []))
        (with_method "POST" (call endpoint)))

  unfoldable pub visitor_call : VisitorCall P → Call
  visitor_call (list_visitor_permits f) = scoped true (
      with_params
        (given_params
          (period_params f ++ (("is_overnight", flag_param f.is_overnight) ∷ page_params f)))
        (call "/api/visitor-permits"))
  visitor_call (get_visitor_permit id) = scoped true (call ("/api/visitor-permits/" ^^ id))
  visitor_call get_visitor_summary = scoped true (call "/api/visitor-permits/summary")
  visitor_call (approve_visitor_permit id reason) =
      with_reason ("/api/visitor-permits/" ^^ id ^^ "/approve") (get_or reason "")
  visitor_call (reject_visitor_permit id reason) =
      with_reason ("/api/visitor-permits/" ^^ id ^^ "/reject") reason
  visitor_call (request_change_visitor_permit id reason) =
      with_reason ("/api/visitor-permits/" ^^ id ^^ "/request-change") reason
  visitor_call (check_in_visitor id) =
      scoped true (with_method "POST" (call ("/api/visitor-permits/" ^^ id ^^ "/check-in")))
  visitor_call (check_out_visitor id) =
      scoped true (with_method "POST" (call ("/api/visitor-permits/" ^^ id ^^ "/check-out")))
  visitor_call (apply_visitor_retention days) = scoped true (
      with_body (stringify_fields (("older_than_days", number_field days) ∷ []))
        (with_method "POST" (call "/api/visitor-permits/retention/apply")))
  visitor_call (tenant_list_visitor_permits f) =
      with_params (given_params (period_params f ++ page_params f)) (call "/api/visitor-permits/my")
  visitor_call (tenant_create_visitor_permit req) =
      with_body (stringify req) (with_method "POST" (call "/api/visitor-permits/my"))
  visitor_call (tenant_get_visitor_permit id) = call ("/api/visitor-permits/my/" ^^ id)
  visitor_call (tenant_cancel_visitor_permit id reason) =
      let text = get_or (or_else reason (some "Dibatalkan oleh penyewa")) "" in
      with_body (stringify_fields (("reason", text_field text) ∷ []))
        (with_method "POST" (call ("/api/visitor-permits/my/" ^^ id ^^ "/cancel")))
  visitor_call (verify_visitor_pass token) = call ("/api/visitor-passes/" ^^ token)
