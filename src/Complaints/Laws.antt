-- ===== src/Complaints/Laws.antt =====
-- Which complaints are shown, and what becomes of a photo.
use lapor_kos.Prelude.{
  String, ◌≡◌, ◌≢◌, refl, sym, subst, Bool, false, ◌&&◌, ◌||◌, some, List, ◌∷◌, arith, ◌==◌, eq_iff,
}
use lapor_kos.Api.Request.{thrown}
use lapor_kos.Api.Action.{Server, ask, pure, bind_thrown, ask_thrown}
use lapor_kos.Forms.{is_blank}
use lapor_kos.Complaints.{
  Complaint, Filters, is_shown, ComplaintPage, ComplaintCall, Answer, ComplaintForm, photo_url_of,
  upload, create, new_complaint, upload_photo, submit_complaint, handle_submit_complaint,
}

apart : ◌≢◌ {A = String} "in_progress" "processed"
apart = ground (arith, eq_iff "in_progress" "processed")

apart_all : ◌≢◌ {A = String} "in_progress" "all"
apart_all = ground (arith, eq_iff "in_progress" "all")

-- A value is chosen, or all of them are.
abbrev pub is_chosen : String → String → Bool
is_chosen choice value = choice == "all" || value == choice

-- A complaint is shown where its status, its priority and its deadline are chosen; and, whatever
-- priority and deadline are chosen, where those in progress are and its status is the older
-- `processed`.
pub is_shown-chosen :
    (f : Filters) (c : Complaint)
    → is_shown f c ≡ (
        (is_chosen f.status_filter c.status
          && (is_chosen f.priority_filter c.priority && is_chosen f.sla_filter c.sla_status))
        || (f.status_filter == "in_progress" && c.status == "processed"))
unfolding is_shown
is_shown-chosen f c = ground (
  arith,
  eq_iff f.status_filter "in_progress",
  eq_iff f.status_filter "all",
  eq_iff c.status f.status_filter,
  eq_iff c.status "processed",
  apart,
  apart_all,
)

upload_fails :
    (server : Server ComplaintCall Answer) (calls : List ComplaintCall) (f : ComplaintForm)
    (photo message : String)
    → f.photo_file ≡ some photo
    → server calls (upload photo) ≡ thrown message
    → submit_complaint f server calls ≡ (thrown message, upload photo ∷ calls)
upload_fails server calls f photo message chosen failed =
    bind_thrown (upload_photo f.photo_file) (λ url. ask (create (new_complaint f url))) server calls
      (upload photo ∷ calls) message
      (subst (λ p. upload_photo p server calls ≡ (thrown message, upload photo ∷ calls))
        (sym chosen)
        (bind_thrown (ask (upload photo)) (λ answer. pure (photo_url_of answer)) server calls
          (upload photo ∷ calls) message (ask_thrown (upload photo) server calls message failed)))

-- Where the photo of a complete form cannot be uploaded, no complaint is made, and what is filled in
-- stays, the photo too.
pub failed_upload_keeps :
    (failure : String → String) (server : Server ComplaintCall Answer) (calls : List ComplaintCall)
    (s : ComplaintPage) (photo message : String)
    → (is_blank s.form.title || is_blank s.form.description) ≡ false
    → s.form.photo_file ≡ some photo
    → server calls (upload photo) ≡ thrown message
    → let (s', calls') = handle_submit_complaint failure server calls s in
      (calls' ≡ upload photo ∷ calls) × (s'.form ≡ s.form) × (s'.alerted ≡ some (failure message))
unfolding handle_submit_complaint
failed_upload_keeps failure server calls s photo message full chosen failed =
    let whole = upload_fails server calls s.form photo message chosen failed in
    rw (full, whole) (refl, refl, refl)
