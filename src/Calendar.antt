-- ===== src/Calendar.antt =====
-- frontend/src/app/(dashboard)/calendar/page.tsx: the events of a month and their filter. An instant
-- is in milliseconds since 1970; `month_of` and `year_of` are `getMonth` and `getFullYear`.
pub mod Laws
use lapor_kos.Prelude.{
  String, ℕ, ◌+◌, ◌/◌, Bool, true, false, ◌&&◌, Option, none, some, List, ◌==◌, ◌^^◌, filter, map,
  show, if◌then◌else◌,
}
use lapor_kos.Api.Request.{Outcome, returned, thrown}

-- An event as the server answers.
pub record CalendarEvent : Type 0 where
  pub id : String
  pub title : String
  pub date : String
  pub type : String
  pub color_status : String

-- An event as the calendar shows it.
pub record FormattedEvent : Type 0 where
  pub id : String
  pub title : String
  pub start : String
  pub background_color : String
  pub border_color : String
  pub extended_props : CalendarEvent

pub data CalendarFilter : Type 0 where
  all contract payment : CalendarFilter

pub record CalendarPage : Type 0 where
  pub events : List FormattedEvent
  pub is_loading : Bool
  pub filter_by : CalendarFilter
  pub selected_event : Option CalendarEvent

-- The month that is asked for: that of the middle of the shown dates, or of now.
abbrev pub asked_instant : ℕ → Option (ℕ × ℕ) → ℕ
asked_instant now none = now
asked_instant now (some (start, end)) = (start + end) / 2

unfoldable pub events_path : (ℕ → ℕ) → (ℕ → ℕ) → ℕ → Option (ℕ × ℕ) → String
events_path month_of year_of now shown =
    let instant = asked_instant now shown in
    "/api/calendar/events?month="
    ^^ show (month_of instant + 1)
    ^^ "&year="
    ^^ show (year_of instant)

abbrev pub colors_of : String → String × String
colors_of color_status =
    if color_status == "yellow"
    then ("#f59e0b", "#d97706")
    else if color_status == "red"
    then ("#f43f5e", "#e11d48")
    else ("#10b981", "#059669")

unfoldable pub formatted : CalendarEvent → FormattedEvent
formatted ev = record {
  id = ev.id;
  title = ev.title;
  start = ev.date;
  background_color = (colors_of ev.color_status).0;
  border_color = (colors_of ev.color_status).1;
  extended_props = ev;
}

-- `fetchEvents` after its `await`.
unfoldable pub events_fetched : Outcome (List CalendarEvent) → CalendarPage → CalendarPage
events_fetched (returned evs) s = record s { events = map formatted evs; is_loading = false }
events_fetched (thrown m) s = record s { is_loading = false }

abbrev pub is_shown : CalendarFilter → FormattedEvent → Bool
is_shown all ev = true
is_shown contract ev = ev.extended_props.type == "contract_expiry"
is_shown payment ev = ev.extended_props.type == "payment_due"

unfoldable pub filtered_events : CalendarPage → List FormattedEvent
filtered_events s = filter (is_shown s.filter_by) s.events

unfoldable pub handle_event_click : FormattedEvent → CalendarPage → CalendarPage
handle_event_click ev s = record s { selected_event = some ev.extended_props }
