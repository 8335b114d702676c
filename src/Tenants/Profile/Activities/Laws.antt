-- ===== src/Tenants/Profile/Activities/Laws.antt =====
-- What the filters of the activities show.
use mathlib.Core.Path.{ap₂}
use mathlib.Core.List.{append-nil}
use lapor_kos.Prelude.{
  String, ℕ, ◌≡◌, refl, sym, ap, ◌∙◌, Bool, true, false, ◌||◌, List, [], ◌∷◌, ◌++◌, ◌==◌, arith,
  All, filter, filter-append, filter_of_All, map, if◌then◌else◌,
}
use lapor_kos.Tenants.Profile.{ProfilePayment, ProfileTenant}
use lapor_kos.Tenants.Profile.Activities.{
  Activity, ActivityFilter, all, pembayaran, kontrak, check_in, checkout, filter_text, activity_of,
  activities, passes, shown_activities, contract_made, checked_in, checked_out, document_warning,
}

filter_none :
    (p : Activity → Bool) (xs : List Activity) → All (λ x. p x ≡ false) xs → filter p xs ≡ []
filter_none p [] h = refl
filter_none p (x ∷ xs) h = rw h.0 (filter_none p xs h.1)

all_pass : (xs : List Activity) → All (λ x. passes all x ≡ true) xs
all_pass [] = tt
all_pass (x ∷ xs) = (refl, all_pass xs)

abbrev admits : ActivityFilter → String → Bool
admits f type = filter_text f == "all" || type == filter_text f

filter_by :
    (b : Bool) (p : Activity → Bool) (xs : List Activity)
    → All (λ x. p x ≡ b) xs
    → filter p xs ≡ (if b then xs else [])
filter_by true p xs h = filter_of_All p xs h
filter_by false p xs h = filter_none p xs h

module _ (upper : String → String) (locale : ℕ → String) (date : String → String) where
  activity_of-type : (p : ProfilePayment) → (activity_of upper locale date p).type ≡ "pembayaran"
  activity_of-type p = ground arith

  payments_pass :
      (f : ActivityFilter) (payments : List ProfilePayment)
      → All (λ x. passes f x ≡ admits f "pembayaran") (map (activity_of upper locale date) payments)
  payments_pass f [] = tt
  payments_pass f (p ∷ payments) = (ap (admits f) (activity_of-type p), payments_pass f payments)

  shown-activities :
      (f : ActivityFilter) (t : ProfileTenant) (payments : List ProfilePayment)
      → shown_activities f (activities upper locale date t payments)
        ≡ (if admits f "pembayaran" then map (activity_of upper locale date) payments else [])
          ++ shown_activities f (activities upper locale date t [])
  unfolding shown_activities activities
  shown-activities f t payments =
      filter-append (passes f) (map (activity_of upper locale date) payments) _
      ∙ ap (λ xs. xs ++ filter (passes f) (activities upper locale date t []))
          (filter_by (admits f "pembayaran") (passes f)
            (map (activity_of upper locale date) payments) (payments_pass f payments))

  rest-pembayaran :
      (t : ProfileTenant) → shown_activities pembayaran (activities upper locale date t []) ≡ []
  unfolding shown_activities activities
  rest-pembayaran t = ground arith

  rest-kontrak :
      (t : ProfileTenant)
      → shown_activities kontrak (activities upper locale date t [])
        ≡ contract_made upper locale date t ∷ []
  unfolding shown_activities activities
  rest-kontrak t = ground arith

  rest-check_in :
      (t : ProfileTenant)
      → shown_activities check_in (activities upper locale date t [])
        ≡ checked_in upper locale date t
  unfolding shown_activities activities
  rest-check_in t = ground arith

  rest-checkout :
      (t : ProfileTenant)
      → shown_activities checkout (activities upper locale date t [])
        ≡ checked_out upper locale date t
  unfolding shown_activities activities
  rest-checkout t = ground arith

-- The filter for all shows every activity; each other filter shows those of one kind, the payments
-- in their order, the making of the contract, the check-in and the checkout; and these with the
-- warning of missing documents, which no other filter shows, make up the whole list.
pub shown_activities_lem :
    (upper : String → String) (locale : ℕ → String) (date : String → String) (t : ProfileTenant)
    (payments : List ProfilePayment)
    → let xs = activities upper locale date t payments in
      (shown_activities all xs ≡ xs)
      × (shown_activities pembayaran xs ≡ map (activity_of upper locale date) payments)
      × (shown_activities kontrak xs ≡ contract_made upper locale date t ∷ [])
      × (shown_activities check_in xs ≡ checked_in upper locale date t)
      × (shown_activities checkout xs ≡ checked_out upper locale date t)
      × (xs
          ≡ shown_activities pembayaran xs
            ++ (shown_activities kontrak xs
                ++ (shown_activities check_in xs
                    ++ (shown_activities checkout xs ++ document_warning upper locale date t))))
unfolding shown_activities activities
shown_activities_lem upper locale date t payments =
    let xs = activities upper locale date t payments in
    let part = λ (f : ActivityFilter). shown-activities upper locale date f t payments in
    let bills =
      part pembayaran
      ∙ ap (λ r. map (activity_of upper locale date) payments ++ r)
          (rest-pembayaran upper locale date t)
      ∙ append-nil _ in
    let made = part kontrak ∙ rest-kontrak upper locale date t in
    let entered = part check_in ∙ rest-check_in upper locale date t in
    let gone = part checkout ∙ rest-checkout upper locale date t in
    let whole = ap₂ ◌++◌ bills (
      ap₂ ◌++◌ made
        (ap₂ ◌++◌ entered (ap (λ r. r ++ document_warning upper locale date t) gone))) in
    (filter_of_All (passes all) xs (all_pass xs), bills, made, entered, gone, sym whole)
