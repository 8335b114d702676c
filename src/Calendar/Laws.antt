-- ===== src/Calendar/Laws.antt =====
-- The filters of the calendar.
use lapor_kos.Prelude.{
  ◌≡◌, refl, ap, ◌∙◌, ◌⊎◌, inl, inr, true, List, [], ◌∷◌, arith, All, filter, map, filter_of_All,
  length, ◌+◌,
}
use lapor_kos.Api.Request.{returned}
use lapor_kos.Calendar.{
  CalendarEvent, FormattedEvent, CalendarFilter, all, contract, payment, CalendarPage, formatted,
  events_fetched, is_shown, filtered_events,
}

abbrev pub with_filter : CalendarFilter → CalendarPage → CalendarPage
with_filter f s = record s { filter_by = f }

-- An event of one of the two kinds of the calendar.
abbrev pub IsKnown : CalendarEvent → Type 0
IsKnown ev = (ev.type ≡ "contract_expiry") ⊎ (ev.type ≡ "payment_due")

split_known :
    (evs : List CalendarEvent)
    → All IsKnown evs
    → length evs
      ≡ length (filter (is_shown contract) (map formatted evs))
        + length (filter (is_shown payment) (map formatted evs))
unfolding formatted
split_known [] h = refl
split_known (ev ∷ evs) (inl e, h) = rw e (omega (arith, split_known evs h))
split_known (ev ∷ evs) (inr e, h) = rw e (omega (arith, split_known evs h))

props-formatted :
    (evs : List CalendarEvent) → map (λ ev. ev.extended_props) (map formatted evs) ≡ evs
unfolding formatted
props-formatted [] = refl
props-formatted (ev ∷ evs) = ap (λ t. ev ∷ t) (props-formatted evs)

all_shown : (evs : List FormattedEvent) → All (λ ev. is_shown all ev ≡ true) evs
all_shown [] = tt
all_shown (ev ∷ evs) = (refl, all_shown evs)

-- What the server answers is shown, whole and in its order, under the filter for all; and where
-- the events are ends of contracts and dues of payments, each is under exactly one of the others.
pub events_fetched-filtered :
    (evs : List CalendarEvent) (s : CalendarPage)
    → All IsKnown evs
    → let shown =
        λ (f : CalendarFilter). filtered_events (with_filter f (events_fetched (returned evs) s)) in
      (map (λ ev. ev.extended_props) (shown all) ≡ evs)
      × (length evs ≡ length (shown contract) + length (shown payment))
unfolding filtered_events events_fetched
events_fetched-filtered evs s h =
    let every = filter_of_All (is_shown all) (map formatted evs) (all_shown (map formatted evs)) in
    (ap (map (λ ev. ev.extended_props)) every ∙ props-formatted evs, split_known evs h)
