-- ===== src/Complaints.antt =====
-- frontend/src/app/(dashboard)/complaints/page.tsx: the filters of the staff, and the form of a
-- tenant. A file is its name. `failure` puts the text of an error after that of the alert.
pub mod Laws
use lapor_kos.Prelude.{
  String, Bool, true, false, not, ◌&&◌, ◌||◌, Option, none, some, List, ◌==◌, filter, if◌then◌else◌,
}
use lapor_kos.Api.Request.{Outcome, returned, thrown}
use lapor_kos.Api.Action.{Action, Server, pure, ask, ◌>>=◌}
use lapor_kos.Forms.{trim_text, is_blank}

pub record Complaint : Type 0 where
  pub id : String
  pub status : String
  pub priority : String
  pub sla_status : String

pub record Filters : Type 0 where
  pub status_filter : String
  pub priority_filter : String
  pub sla_filter : String

-- The test of `filteredComplaints`, its returns in turn.
unfoldable pub is_shown : Filters → Complaint → Bool
is_shown f c =
    if not (f.status_filter == "all") && not (c.status == f.status_filter)
    then f.status_filter == "in_progress" && c.status == "processed"
    else if not (f.priority_filter == "all") && not (c.priority == f.priority_filter)
    then false
    else if not (f.sla_filter == "all") && not (c.sla_status == f.sla_filter)
    then false
    else true

abbrev pub filtered_complaints : Filters → List Complaint → List Complaint
filtered_complaints f complaints = filter (is_shown f) complaints

-- What is filled in, and the file that is chosen.
pub record ComplaintForm : Type 0 where
  pub category : String
  pub priority : String
  pub impact : String
  pub title : String
  pub description : String
  pub access_window : String
  pub preferred_contact : String
  pub photo_file : Option String

pub record NewComplaint : Type 0 where
  pub category : String
  pub priority : String
  pub impact : String
  pub title : String
  pub description : String
  pub access_window : Option String
  pub preferred_contact : Option String
  pub photo_url : Option String

-- The two calls of the submission, and what they answer.
pub data ComplaintCall : Type 0 where
  upload : (photo : String) → ComplaintCall
  create : NewComplaint → ComplaintCall

pub data Answer : Type 0 where
  uploaded : (photo_url : String) → Answer
  created : Complaint → Answer

abbrev pub ComplaintAction : Type 0 → Type 0
ComplaintAction A = Action ComplaintCall Answer A

-- `uploadRes.photo_url`
abbrev pub photo_url_of : Answer → String
photo_url_of (uploaded url) = url
photo_url_of (created c) = ""

-- `s || undefined`
abbrev pub filled : String → Option String
filled s = if s == "" then none else some s

abbrev pub new_complaint : ComplaintForm → String → NewComplaint
new_complaint f url = record {
  category = f.category;
  priority = f.priority;
  impact = f.impact;
  title = f.title;
  description = f.description;
  access_window = filled (trim_text f.access_window);
  preferred_contact = filled (trim_text f.preferred_contact);
  photo_url = filled url;
}

abbrev pub upload_photo : Option String → ComplaintAction String
upload_photo none = pure ""
upload_photo (some photo) = do answer ← ask (upload photo); pure (photo_url_of answer)

-- The `try` of `handleSubmitComplaint`.
abbrev pub submit_complaint : ComplaintForm → ComplaintAction Answer
submit_complaint f = do url ← upload_photo f.photo_file; ask (create (new_complaint f url))

-- The page's part: what is filled in, what was submitted last, and the text of an `alert`.
pub record ComplaintPage : Type 0 where
  pub form : ComplaintForm
  pub just_submitted : Option Answer
  pub alerted : Option String

abbrev pub emptied : ComplaintForm → ComplaintForm
emptied f = record f {
  title = "";
  description = "";
  access_window = "";
  preferred_contact = "";
  photo_file = none;
}

abbrev finished : (String → String) → Outcome Answer → ComplaintPage → ComplaintPage
finished failure (returned a) s = record s { form = emptied s.form; just_submitted = some a }
finished failure (thrown message) s = record s { alerted = some (failure message) }

-- `handleSubmitComplaint`, with the calls before and after; the lists are loaded again after it.
unfoldable pub handle_submit_complaint :
    (String → String)
    → Server ComplaintCall Answer
    → List ComplaintCall
    → ComplaintPage
    → ComplaintPage × List ComplaintCall
handle_submit_complaint failure server calls s =
    if is_blank s.form.title || is_blank s.form.description
    then (record s { alerted = some "Judul dan deskripsi keluhan wajib diisi." }, calls)
    else let (o, calls') = submit_complaint s.form server calls in (finished failure o s, calls')
