-- ===== src/Invitations/Page/Laws.antt =====
-- What is sent of an invitation, what is told of it, and the pages of the list.
use lapor_kos.Prelude.{
  ◌*◌, ap, none, is_none, String, ℕ, ◌≤◌, ◌≡◌, refl, Bool, true, false, ◌&&◌, Option, some, List,
  [], ◌∷◌, arith, inl, inr, Bool-cases, if◌then◌else◌,
}
use lapor_kos.Api.Request.{Outcome, returned, thrown}
use lapor_kos.Invitations.Chars.{Chars, is_empty, trim}
use lapor_kos.Invitations.Form.{name_error, email_error, phone_error, validate_invitation_form}
use lapor_kos.Invitations.Page.{
  DeliveryMethod, Notice, success, warning, error, email, whatsapp, InvitationList, Delivery,
  InvitationStatus, InvitationsPage, InvitationCall, create_invitation, list_invitations, loaded,
  page, page_end, errors_of, delivery_notice, created, create,
}
use lapor_kos.Invitations.Page.Places.{choose_tab, type_search, resize, previous, next}

abbrev pub is_made : Outcome Delivery → Bool
is_made (returned d) = true
is_made (thrown m) = false

-- The two calls: the invitation, which lasts three days, with the texts of its form trimmed; and the
-- first page of the list, as it is chosen.
abbrev pub invitation : InvitationsPage → InvitationCall
invitation s = create_invitation (record {
  full_name = trim s.full_name;
  email = trim s.email_text;
  phone = s.phone;
  delivery_method = s.delivery_method;
  expires_in_hours = 3 * 24;
})

abbrev pub first_page : InvitationsPage → InvitationCall
first_page s = list_invitations (record {
  page = 1;
  page_size = s.items_per_page;
  status = s.active_tab;
  search = if is_empty (trim s.search) then none else some (trim s.search);
})

-- What the page tells of an invitation, by how the server says it was delivered.
abbrev pub delivered : DeliveryMethod → Bool → Notice
delivered email true = record {
  type = success;
  title = "Undangan berhasil dikirim";
  detail = "Tautan aktivasi telah dikirim melalui email.";
}
delivered whatsapp true = record {
  type = success;
  title = "Undangan berhasil dikirim";
  detail = "Tautan aktivasi telah dikirim melalui WhatsApp.";
}
delivered email false = record {
  type = warning;
  title = "Undangan dibuat, tetapi belum terkirim";
  detail = "Periksa konfigurasi email, lalu cabut dan buat ulang invitation ini.";
}
delivered whatsapp false = record {
  type = warning;
  title = "Undangan dibuat, tetapi belum terkirim";
  detail = "Periksa konfigurasi WhatsApp, lalu cabut dan buat ulang invitation ini.";
}

abbrev pub told : Outcome Delivery → Notice
told (returned d) = delivered d.method d.is_sent
told (thrown m) = record { type = error; title = "Undangan gagal dibuat"; detail = m }

delivered-notice :
    (m : DeliveryMethod) (b : Bool)
    → delivery_notice (record { method = m; is_sent = b }) ≡ delivered m b
delivered-notice email true = refl
delivered-notice whatsapp true = refl
delivered-notice email false = refl
delivered-notice whatsapp false = refl

-- No field has an error.
abbrev pub is_fine : InvitationsPage → Bool
is_fine s =
    is_none (name_error s.full_name)
    && (is_none (email_error s.email_text) && is_none (phone_error s.phone))

abbrev pub Creates :
    Outcome Delivery → InvitationsPage → InvitationsPage × List InvitationCall → Type 0
Creates made s (s', calls) =
    (calls ≡ (
      if is_fine s
      then if is_made made then first_page s ∷ invitation s ∷ [] else invitation s ∷ []
      else []))
    × (s'.notice ≡ (if is_fine s then some (told made) else s.notice))
    × (s'.full_name ≡ (if is_fine s && is_made made then [] else s.full_name))
    × (s'.email_text ≡ (if is_fine s && is_made made then [] else s.email_text))
    × (s'.phone ≡ (if is_fine s && is_made made then [] else s.phone))

-- What is called and changed once the form is fine.
abbrev Sent : Outcome Delivery → InvitationsPage → InvitationsPage × List InvitationCall → Type 0
Sent made s (s', calls) =
    (calls ≡ (if is_made made then first_page s ∷ invitation s ∷ [] else invitation s ∷ []))
    × (s'.notice ≡ some (told made))
    × (s'.full_name ≡ (if is_made made then [] else s.full_name))
    × (s'.email_text ≡ (if is_made made then [] else s.email_text))
    × (s'.phone ≡ (if is_made made then [] else s.phone))

created-Sent :
    (made : Outcome Delivery) (listed : Outcome InvitationList) (s : InvitationsPage)
    → Sent made s (created made listed (record s { errors = errors_of s }))
unfolding loaded
created-Sent (returned d) (returned result) s =
    (refl, ap some (delivered-notice d.method d.is_sent), refl, refl, refl)
created-Sent (returned d) (thrown m) s =
    (refl, ap some (delivered-notice d.method d.is_sent), refl, refl, refl)
created-Sent (thrown m) listed s = (refl, refl, refl, refl, refl)

-- A form with an error sends nothing. One without is sent once, for three days, with its texts trimmed:
-- if the server makes the invitation, the list is asked for, the page says whether and by which channel
-- it was delivered, whether or not the list can be loaded, and the form is emptied; if it does not, the
-- page says so and the form stays.
pub create_lem :
    (made : Outcome Delivery) (listed : Outcome InvitationList) (s : InvitationsPage)
    → Creates made s (create made listed s)
unfolding create validate_invitation_form
create_lem made listed s = elim (Bool-cases (is_fine s)) [
  | inl fine ↦ simp fine (created-Sent made listed s)
  | inr wrong ↦ simp wrong (refl, refl, refl, refl, refl)
]

-- What the user and the server do to the place in the list; the server counts its pages from 1.
pub data Step : InvitationsPage → InvitationsPage → Type 0 where
  tab_chosen : (s : InvitationsPage) (tab : Option InvitationStatus) → Step s (choose_tab tab s)
  searched : (s : InvitationsPage) (text : Chars) → Step s (type_search text s)
  resized : (s : InvitationsPage) (n : ℕ) → Step s (resize n s)
  went_back : (s : InvitationsPage) → Step s (previous s)
  went_on : (s : InvitationsPage) → Step s (next s)
  answered :
      (s : InvitationsPage) (result : InvitationList)
      → 1 ≤ result.page
      → Step s (loaded (returned result) s)
  failed : (s : InvitationsPage) (m : String) → Step s (loaded (thrown m) s)

-- The page is opened on the first of one page.
pub data Reach : InvitationsPage → Type 0 where
  opened : (s : InvitationsPage) → s.current_page ≡ 1 → s.total_pages ≡ 1 → Reach s
  step : {s t : InvitationsPage} → Reach s → Step s t → Reach t

abbrev IsPlaced : InvitationsPage → Type 0
IsPlaced s = (1 ≤ s.current_page) × (1 ≤ s.total_pages)

Step-IsPlaced : {s t : InvitationsPage} → Step s t → IsPlaced s → IsPlaced t
unfolding choose_tab type_search resize previous next loaded
Step-IsPlaced (tab_chosen s tab) p = ground (arith, p)
Step-IsPlaced (searched s text) p = ground (arith, p)
Step-IsPlaced (resized s n) p = ground (arith, p)
Step-IsPlaced (went_back s) p = ground (arith, p)
Step-IsPlaced (went_on s) p = ground (arith, p)
Step-IsPlaced (answered s result h) p = ground (arith, p)
Step-IsPlaced (failed s m) p = p

Reach-IsPlaced : {s : InvitationsPage} → Reach s → IsPlaced s
Reach-IsPlaced (opened s a b) = ground arith
Reach-IsPlaced (step r st) = Step-IsPlaced st (Reach-IsPlaced r)

-- Whatever is chosen and answered, the page that is named is one of the pages, and the numbers of its
-- first and last invitation do not go beyond the total.
pub page_bounds :
    (s : InvitationsPage)
    → Reach s
    → (1 ≤ page s) × (page s ≤ s.total_pages) × (page_end s ≤ s.total)
page_bounds s r = ground (arith, Reach-IsPlaced r)
