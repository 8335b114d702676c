-- ===== src/Audit.antt =====
-- frontend/src/app/(dashboard)/audit/page.tsx: the log of the finances, its filters and pages, and the
-- end of sessions. A load is split at its `await`: the query that is sent stays pending until its
-- answer, which counts whatever was asked for since.
pub mod Laws
use lapor_kos.Prelude.{
  String, ℕ, ◌+◌, ◌-◌, ◌*◌, Bool, true, false, not, ◌||◌, Option, none, some, List, [], ◌∷◌, ◌==◌,
  ◌^^◌, eqb, leb, if◌then◌else◌,
}
use lapor_kos.Api.Request.{Outcome, returned, thrown}
use lapor_kos.Api.Action.{Server, ask}
use lapor_kos.Calls.Audit.{AuditFilter, AuditCall, revoke_user_session, revoke_my_sessions}
use lapor_kos.Forms.{is_blank, message_or, trim_text}
use lapor_kos.Rooms.Pages.{max}

pub data Tab : Type 0 where
  financial health sessions release_gates : Tab

pub record AuditPage : Type 0 where
  pub active_tab : Tab
  pub current_page : ℕ
  pub entity_filter : String
  pub action_filter : String
  pub correlation_search : String
  pub start_date : String
  pub end_date : String
  pub pending : List AuditFilter
  pub answered_query : Option AuditFilter
  pub total_audits : ℕ
  pub error_msg : String
  pub success_msg : String
  pub target_user_id : String
  pub revoke_reason : String

-- `text || undefined`
abbrev filled : String → Option String
filled s = if s == "" then none else some s

-- The query of `loadAuditData`.
abbrev pub audit_filter : AuditPage → AuditFilter
audit_filter s = record {
  entity_type = filled s.entity_filter;
  action = filled s.action_filter;
  correlation_id = filled s.correlation_search;
  actor_id = none;
  start_date = filled s.start_date;
  end_date = filled s.end_date;
  page = some s.current_page;
  page_size = some 20;
}

-- `loadAuditData` with a property, for the query of the render that it belongs to.
abbrev pub load : AuditFilter → AuditPage → AuditPage
load query s = record s { error_msg = ""; pending = query ∷ s.pending }

-- Its answer.
unfoldable pub logs_answered : AuditFilter → Outcome ℕ → AuditPage → AuditPage
logs_answered query (returned total) s = record s {
  answered_query = some query;
  total_audits = total;
}
logs_answered query (thrown m) s = record s {
  error_msg = message_or m "Gagal memuat log audit finansial";
}

-- The effect, on the tab of the log.
abbrev pub reload_on : Tab → AuditPage → AuditPage
reload_on financial s = load (audit_filter s) s
reload_on health s = s
reload_on sessions s = s
reload_on release_gates s = s

abbrev pub reload : AuditPage → AuditPage
reload s = reload_on s.active_tab s

-- `handleSearchSubmit`: it loads with the page of its own render, and a page that changes runs the
-- effect.
unfoldable pub handle_search_submit : AuditPage → AuditPage
handle_search_submit s =
    let searched = record (load (audit_filter s) s) { current_page = 1 } in
    if eqb s.current_page 1 then searched else reload searched

-- The filters that are chosen: that of the entities goes back to the first page, that of the actions
-- does not. The effect runs for both.
unfoldable pub choose_entity : String → AuditPage → AuditPage
choose_entity entity s = reload (record s { entity_filter = entity; current_page = 1 })

unfoldable pub choose_action : String → AuditPage → AuditPage
choose_action action s = reload (record s { action_filter = action })

-- The effect depends on the page and these two filters.
abbrev pub is_watched : AuditPage → Bool
is_watched s =
    not (eqb s.current_page 1) || (not (s.entity_filter == "") || not (s.action_filter == ""))

-- The button that clears the filters: it loads with those of its own render.
unfoldable pub reset_filters : AuditPage → AuditPage
reset_filters s =
    let emptied = record (load (audit_filter s) s) {
      correlation_search = "";
      entity_filter = "";
      action_filter = "";
      start_date = "";
      end_date = "";
      current_page = 1;
    } in
    if is_watched s then reload emptied else emptied

-- The two buttons of the pages, which are disabled at the ends.
unfoldable pub previous_page : AuditPage → AuditPage
previous_page s =
    if leb s.current_page 1
    then s
    else reload (record s { current_page = max 1 (s.current_page - 1) })

unfoldable pub next_page : AuditPage → AuditPage
next_page s =
    if leb s.total_audits (s.current_page * 20)
    then s
    else reload (record s { current_page = s.current_page + 1 })

pub record RevokePayload : Type 0 where
  pub user_id : String
  pub reason : String

pub data Answer : Type 0 where
  done : Answer

abbrev pub AuditServer : Type 0
AuditServer = Server (AuditCall RevokePayload) Answer

abbrev pub AuditHandler : Type 0
AuditHandler =
    AuditServer
    → List (AuditCall RevokePayload)
    → AuditPage
    → AuditPage × List (AuditCall RevokePayload)

abbrev cleared : AuditPage → AuditPage
cleared s = record s { error_msg = ""; success_msg = "" }

abbrev revoked : Outcome Answer → AuditPage → AuditPage
revoked (returned a) s = record s {
  success_msg =
      "Sesi pengguna " ^^ s.target_user_id
      ^^ " berhasil dicabut. Seluruh token sebelumnya ditolak.";
  target_user_id = "";
}
revoked (thrown m) s = record s { error_msg = message_or m "Gagal mencabut sesi" }

-- `handleRevokeSession`
unfoldable pub handle_revoke_session : AuditHandler
handle_revoke_session server calls s =
    if is_blank s.target_user_id
    then (s, calls)
    else let payload : RevokePayload = record {
      user_id = trim_text s.target_user_id;
      reason = s.revoke_reason;
    } in
      let (o, calls') = ask (revoke_user_session payload) server calls in
      (revoked o (cleared s), calls')

abbrev revoked_mine : Outcome Answer → AuditPage → AuditPage
revoked_mine (returned a) s = record s {
  success_msg = "Seluruh sesi aktif lainnya untuk akun Anda berhasil dicabut.";
}
revoked_mine (thrown m) s = record s { error_msg = message_or m "Gagal mencabut sesi Anda" }

-- `handleRevokeMySessions`, with the answer of `confirm`.
unfoldable pub handle_revoke_my_sessions : Bool → AuditHandler
handle_revoke_my_sessions confirmed server calls s =
    if not confirmed
    then (s, calls)
    else let (o, calls') = ask revoke_my_sessions server calls in
      (revoked_mine o (cleared s), calls')
