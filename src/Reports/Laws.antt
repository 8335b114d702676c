-- ===== src/Reports/Laws.antt =====
-- What the handlers of the reports send.
use lapor_kos.Prelude.{
  String, ◌≡◌, refl, true, false, Option, none, some, List, ◌∷◌, ◌==◌, eq_iff, arith, ℤ, Bool-cases,
  inl, inr, if◌then◌else◌,
}
use lapor_kos.Api.Request.{returned, thrown}
use lapor_kos.Api.Action.{Outcome-cases}
use lapor_kos.Calls.Finance.{close_period, create_adjustment, approve_adjustment}
use lapor_kos.Forms.{trim_text, is_blank}
use lapor_kos.Reports.{
  ReportsPage, ReportServer, ReportCall, Answer, closing, deciding, adjustment, adjust,
  AdjustmentForm, chosen_period, handle_close_period_submit, handle_reopen_period,
  handle_adjustment_submit, handle_approve_adjustment,
}

-- What is to be sent as an adjustment of a closure, for an amount.
abbrev pub request : AdjustmentForm → Option String → Option ℤ → Option ReportCall
request f (some closure) (some amount) =
    if closure == "" then none else some (create_adjustment (adjustment closure amount f))
request f _ _ = none

abbrev pub added : Option ReportCall → List ReportCall → List ReportCall
added none calls = calls
added (some q) calls = q ∷ calls

adjust_lem :
    (closure : Option String) (n : Option ℤ) (server : ReportServer) (calls : List ReportCall)
    (s : ReportsPage)
    → s.modal_submitting ≡ false
    → let (s', calls') = adjust closure n server calls s in
      (calls' ≡ added (request s.adjustment_form closure n) calls) × (s'.modal_submitting ≡ false)
adjust_lem none n server calls s h = (refl, h)
adjust_lem (some closure) none server calls s h = elim (Bool-cases (closure == "")) [
  | inl empty ↦ rw empty (refl, h)
  | inr full ↦ rw full (refl, refl)
]
adjust_lem (some closure) (some amount) server calls s h =
    let q = create_adjustment (adjustment closure amount s.adjustment_form) in
    elim (Bool-cases (closure == "")) [
      | inl empty ↦ rw empty (refl, h)
      | inr full ↦ elim (Outcome-cases (server calls q)) [
        | inl (a, o) ↦ rw full (rw o (refl, refl))
        | inr (m, o) ↦ rw full (rw o (refl, refl))
      ]
    ]

-- An adjustment is asked for once, where there is a closure with an id and the amount is a number,
-- and else nothing is sent; afterwards no dialog is left submitting that was not.
pub adjustment_lem :
    (parse_amount : String → Option ℤ) (server : ReportServer) (calls : List ReportCall)
    (s : ReportsPage)
    → s.modal_submitting ≡ false
    → let (s', calls') = handle_adjustment_submit parse_amount true server calls s in
      let amount = parse_amount s.adjustment_form.amount in
      (calls' ≡ added (request s.adjustment_form s.period_closure amount) calls)
      × (s'.modal_submitting ≡ false)
unfolding handle_adjustment_submit
adjustment_lem parse_amount server calls s h =
    adjust_lem s.period_closure (parse_amount s.adjustment_form.amount) server calls s h

-- A period is closed under the key that is chosen, by one call. Where it fails, the dialog stays as
-- it is filled in, with the error; where it succeeds, the dialog is closed and emptied.
pub closing_lem :
    (server : ReportServer) (calls : List ReportCall) (s : ReportsPage)
    → let q = close_period (closing (chosen_period s) (trim_text s.close_notes)) in
      let (s', calls') = handle_close_period_submit true server calls s in
      (calls' ≡ q ∷ calls)
      × (s'.modal_submitting ≡ false)
      × ((m : String)
          → server calls q ≡ thrown m
          → (s'.modal_error ≡ some m)
            × (s'.close_notes ≡ s.close_notes)
            × (s'.is_close_modal_open ≡ s.is_close_modal_open))
      × ((a : Answer)
          → server calls q ≡ returned a
          → (s'.close_notes ≡ "") × (s'.is_close_modal_open ≡ false) × (s'.is_loading ≡ true))
unfolding handle_close_period_submit
closing_lem server calls s =
    let q = close_period (closing (chosen_period s) (trim_text s.close_notes)) in
    elim (Outcome-cases (server calls q)) [
      | inl (a, e) ↦ rw e (refl, refl, λ m h. absurd (ground arith), λ b h. (refl, refl, refl))
      | inr (m, e) ↦ rw e (refl, refl, λ n h. (cc, refl, refl), λ b h. absurd (ground arith))
    ]

-- A period is reopened only for a reason with something in it: else nothing is sent and the page
-- stays as it is.
pub reopening_lem :
    (server : ReportServer) (calls : List ReportCall) (s : ReportsPage) (reason : String)
    → is_blank reason ≡ true
    → (handle_reopen_period true (some reason) server calls s ≡ (s, calls))
      × (handle_reopen_period true none server calls s ≡ (s, calls))
unfolding handle_reopen_period
reopening_lem server calls s reason h = (rw h refl, refl)

-- An adjustment is rejected also for a blank reason, which is sent as the empty text.
pub rejecting_blank :
    (server : ReportServer) (calls : List ReportCall) (s : ReportsPage) (id text : String)
    → is_blank text ≡ true
    → (handle_approve_adjustment true id false (some text) server calls s).1
      ≡ approve_adjustment id (deciding false "" "Ditolak: ") ∷ calls
unfolding handle_approve_adjustment
rejecting_blank server calls s id text h = rw ((eq_iff _ _).0 h) refl
