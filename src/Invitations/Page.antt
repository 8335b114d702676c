-- ===== src/Invitations/Page.antt =====
-- frontend/src/app/(dashboard)/tenants/invitations/page.tsx: the form and the list of the invitations.
-- A handler takes the outcomes of its calls and returns the page with the calls that were made, the
-- latest first. The flag of a submission and the numbers on the tabs are left out.
pub mod Places
pub mod Laws
use lapor_kos.Prelude.{
  String, ℕ, ◌+◌, ◌-◌, ◌*◌, Bool, true, false, not, ◌&&◌, Option, none, some, List, [], ◌∷◌, ◌^^◌,
  eqb, leb, length, is_none, if◌then◌else◌,
}
use lapor_kos.Api.Request.{Outcome, returned, thrown}
use lapor_kos.Invitations.Chars.{Chars, is_empty, trim}
use lapor_kos.Invitations.Phone.{format_indonesian_phone}
use lapor_kos.Invitations.Form.{InvitationFormErrors, validate_invitation_form}
use lapor_kos.Rooms.Pages.{max}

pub data DeliveryMethod : Type 0 where
  email whatsapp : DeliveryMethod

pub data InvitationStatus : Type 0 where
  pending accepted expired revoked : InvitationStatus

pub record Invitation : Type 0 where
  pub id : String
  pub full_name : String
  pub status : InvitationStatus

pub data NoticeType : Type 0 where
  success warning error : NoticeType

pub record Notice : Type 0 where
  pub type : NoticeType
  pub title : String
  pub detail : String

-- The list as the server answers.
pub record InvitationList : Type 0 where
  pub items : List Invitation
  pub page : ℕ
  pub total : ℕ
  pub total_pages : ℕ

-- How the link was sent, as the server answers.
pub record Delivery : Type 0 where
  pub method : DeliveryMethod
  pub is_sent : Bool

pub record InvitationsPage : Type 0 where
  pub items : List Invitation
  pub full_name : Chars
  pub email_text : Chars
  pub phone : Chars
  pub delivery_method : DeliveryMethod
  pub errors : InvitationFormErrors
  pub notice : Option Notice
  pub pending_revoke : Option Invitation
  pub active_tab : Option InvitationStatus
  pub search : Chars
  pub is_form_open : Bool
  pub current_page : ℕ
  pub items_per_page : ℕ
  pub total : ℕ
  pub total_pages : ℕ

pub record CreateRequest : Type 0 where
  pub full_name : Chars
  pub email : Chars
  pub phone : Chars
  pub delivery_method : DeliveryMethod
  pub expires_in_hours : ℕ

pub record ListRequest : Type 0 where
  pub page : ℕ
  pub page_size : ℕ
  pub status : Option InvitationStatus
  pub search : Option Chars

pub data InvitationCall : Type 0 where
  create_invitation : CreateRequest → InvitationCall
  list_invitations : ListRequest → InvitationCall
  revoke_invitation : (id : String) → InvitationCall

-- The fields that the address of the page suggests.
unfoldable pub suggested : Chars → Chars → Chars → InvitationsPage → InvitationsPage
suggested name address phone s = record s {
  full_name = name;
  email_text = address;
  phone = format_indonesian_phone phone;
}

-- The request of `load`, and its answer.
abbrev pub list_request : ℕ → InvitationsPage → ListRequest
list_request requested s = record {
  page = requested;
  page_size = s.items_per_page;
  status = s.active_tab;
  search = if is_empty (trim s.search) then none else some (trim s.search);
}

unfoldable pub loaded : Outcome InvitationList → InvitationsPage → InvitationsPage
loaded (returned result) s = record s {
  items = result.items;
  current_page = result.page;
  total = result.total;
  total_pages = max 1 result.total_pages;
}
loaded (thrown m) s = record s {
  notice = some (record { type = error; title = "Daftar undangan tidak dapat dimuat"; detail = m });
}

abbrev pub min : ℕ → ℕ → ℕ
min m n = if leb m n then m else n

-- What the page shows of its place in the list.
abbrev pub page : InvitationsPage → ℕ
page s = min s.current_page s.total_pages

abbrev pub page_start : InvitationsPage → ℕ
page_start s = (page s - 1) * s.items_per_page

abbrev pub page_end : InvitationsPage → ℕ
page_end s = min (page_start s + length s.items) s.total

abbrev pub errors_of : InvitationsPage → InvitationFormErrors
errors_of s =
    validate_invitation_form
      (record { full_name = s.full_name; email = s.email_text; phone = s.phone })

abbrev pub has_no_error : InvitationFormErrors → Bool
has_no_error e = is_none e.full_name && (is_none e.email && is_none e.phone)

abbrev pub create_request : InvitationsPage → CreateRequest
create_request s = record {
  full_name = trim s.full_name;
  email = trim s.email_text;
  phone = s.phone;
  delivery_method = s.delivery_method;
  expires_in_hours = 72;
}

abbrev pub channel : DeliveryMethod → String
channel email = "email"
channel whatsapp = "WhatsApp"

abbrev pub delivery_notice : Delivery → Notice
delivery_notice d =
    if d.is_sent
    then record {
      type = success;
      title = "Undangan berhasil dikirim";
      detail = "Tautan aktivasi telah dikirim melalui " ^^ channel d.method ^^ ".";
    }
    else record {
      type = warning;
      title = "Undangan dibuat, tetapi belum terkirim";
      detail =
          "Periksa konfigurasi "
          ^^ channel d.method
          ^^ ", lalu cabut dan buat ulang invitation ini.";
    }

abbrev emptied : InvitationsPage → InvitationsPage
emptied s = record s {
  full_name = [];
  email_text = [];
  phone = [];
  errors = record { full_name = none; email = none; phone = none };
  is_form_open = false;
  notice = none;
}

abbrev pub created :
    Outcome Delivery
    → Outcome InvitationList
    → InvitationsPage
    → InvitationsPage × List InvitationCall
created (returned d) listed s = (
  record (loaded listed (emptied s)) { notice = some (delivery_notice d) },
  list_invitations (list_request 1 s) ∷ create_invitation (create_request s) ∷ [],
)
created (thrown m) listed s = (
  record s { notice = some (record { type = error; title = "Undangan gagal dibuat"; detail = m }) },
  create_invitation (create_request s) ∷ [],
)

unfoldable pub create :
    Outcome Delivery
    → Outcome InvitationList
    → InvitationsPage
    → InvitationsPage × List InvitationCall
create made listed s =
    let checked = record s { errors = errors_of s } in
    if has_no_error (errors_of s) then created made listed checked else (checked, [])

abbrev revoke_one :
    Option Invitation
    → Outcome (Unit {0})
    → Outcome InvitationList
    → InvitationsPage
    → InvitationsPage × List InvitationCall
revoke_one none gone listed s = (s, [])
revoke_one (some i) (returned _) listed s =
    let told : InvitationsPage = record s {
      notice = some (record {
        type = success;
        title = "Undangan dicabut";
        detail = i.full_name ^^ " tidak lagi dapat memakai tautan sebelumnya.";
      });
      pending_revoke = none;
    } in
    (loaded listed told, list_invitations (list_request (page s) s) ∷ revoke_invitation i.id ∷ [])
revoke_one (some i) (thrown m) listed s = (
  record s {
    notice = some (record { type = error; title = "Undangan tidak dapat dicabut"; detail = m });
    pending_revoke = none;
  },
  revoke_invitation i.id ∷ [],
)

unfoldable pub revoke :
    Outcome (Unit {0})
    → Outcome InvitationList
    → InvitationsPage
    → InvitationsPage × List InvitationCall
revoke gone listed s = revoke_one s.pending_revoke gone listed s
