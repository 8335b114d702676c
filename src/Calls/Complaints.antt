-- ===== src/Calls/Complaints.antt =====
-- frontend/src/features/complaints/api.ts
use lapor_kos.Prelude.{String, Bool, true, not, Option, [], ◌∷◌, ◌^^◌, if◌then◌else◌}
use lapor_kos.Calls.{Call, call, with_method, with_body, scoped, Fields, text_field, optional_field}

pub data ComplaintCall (P : Type 0) : Type 0 where
  get_tenant_complaints : ComplaintCall P
  get_tenant_complaint : (id : String) → ComplaintCall P
  confirm_complaint_resolution : (id : String) (comment : Option String) → ComplaintCall P
  reopen_complaint : (id reason : String) → ComplaintCall P
  get_owner_complaints : ComplaintCall P
  get_complaint : (id : String) → ComplaintCall P
  get_sla_dashboard : ComplaintCall P
  triage_complaint assign_complaint : (id : String) (data' : P) → ComplaintCall P
  update_complaint_status : (id status : String) (notes : Option String) → ComplaintCall P
  get_complaint_timeline : (id : String) (is_tenant : Bool) → ComplaintCall P
  add_timeline_event : (id : String) (is_tenant : Bool) (data' : P) → ComplaintCall P
  get_ai_suggestion : (id : String) → ComplaintCall P
  apply_ai_suggestion : (id : String) (data' : P) → ComplaintCall P
  get_work_orders : (complaint_id : String) → ComplaintCall P
  create_work_order : (complaint_id : String) (data' : P) → ComplaintCall P
  update_work_order : (complaint_id wo_id : String) (data' : P) → ComplaintCall P
  get_vendors : (active_only : Bool) → ComplaintCall P
  create_vendor : (data' : P) → ComplaintCall P
  update_vendor : (id : String) (data' : P) → ComplaintCall P

abbrev complaint_url : String → Bool → String → String
complaint_url id is_tenant part =
    if is_tenant then "/api/complaints/my/" ^^ id ^^ part else "/api/complaints/" ^^ id ^^ part

module _ {P : Type 0} (stringify : P → String) (stringify_fields : Fields → String) where
  -- A call of staff with the data of the caller.
  abbrev send : String → String → P → Call
  send method endpoint data' =
      scoped true (with_body (stringify data') (with_method method (call endpoint)))

  unfoldable pub complaint_call : ComplaintCall P → Call
  complaint_call get_tenant_complaints = call "/api/complaints/my"
  complaint_call (get_tenant_complaint id) = call ("/api/complaints/my/" ^^ id)
  complaint_call (confirm_complaint_resolution id comment) =
      with_body (stringify_fields (("comment", optional_field comment) ∷ []))
        (with_method "POST" (call ("/api/complaints/my/" ^^ id ^^ "/confirm")))
  complaint_call (reopen_complaint id reason) =
      with_body (stringify_fields (("reason", text_field reason) ∷ []))
        (with_method "POST" (call ("/api/complaints/my/" ^^ id ^^ "/reopen")))
  complaint_call get_owner_complaints = scoped true (call "/api/complaints")
  complaint_call (get_complaint id) = scoped true (call ("/api/complaints/" ^^ id))
  complaint_call get_sla_dashboard = scoped true (call "/api/complaints/sla-dashboard")
  complaint_call (triage_complaint id data') =
      send "POST" ("/api/complaints/" ^^ id ^^ "/triage") data'
  complaint_call (assign_complaint id data') =
      send "POST" ("/api/complaints/" ^^ id ^^ "/assign") data'
  complaint_call (update_complaint_status id status notes) = scoped true (
      with_body
        (stringify_fields (("status", text_field status) ∷ ("notes", optional_field notes) ∷ []))
        (with_method "PUT" (call ("/api/complaints/" ^^ id ^^ "/status"))))
  complaint_call (get_complaint_timeline id is_tenant) =
      scoped (not is_tenant) (call (complaint_url id is_tenant "/timeline"))
  complaint_call (add_timeline_event id is_tenant data') = scoped (not is_tenant) (
      with_body (stringify data')
        (with_method "POST" (call (complaint_url id is_tenant "/events"))))
  complaint_call (get_ai_suggestion id) =
      scoped true (call ("/api/complaints/" ^^ id ^^ "/ai-suggestion"))
  complaint_call (apply_ai_suggestion id data') =
      send "POST" ("/api/complaints/" ^^ id ^^ "/ai-suggestion/apply") data'
  complaint_call (get_work_orders complaint_id) =
      scoped true (call ("/api/complaints/" ^^ complaint_id ^^ "/work-orders"))
  complaint_call (create_work_order complaint_id data') =
      send "POST" ("/api/complaints/" ^^ complaint_id ^^ "/work-orders") data'
  complaint_call (update_work_order complaint_id wo_id data') =
      send "PUT" ("/api/complaints/" ^^ complaint_id ^^ "/work-orders/" ^^ wo_id) data'
  complaint_call (get_vendors active_only) =
      scoped true (call ("/api/vendors" ^^ (if active_only then "?active_only=true" else "")))
  complaint_call (create_vendor data') = send "POST" "/api/vendors" data'
  complaint_call (update_vendor id data') = send "PUT" ("/api/vendors/" ^^ id) data'
