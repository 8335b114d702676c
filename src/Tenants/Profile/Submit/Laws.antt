-- ===== src/Tenants/Profile/Submit/Laws.antt =====
-- What the dialogs of a tenant send, and how they end.
use lapor_kos.Prelude.{
  String, ℕ, ◌≡◌, ◌<◌, ◌⊎◌, refl, Bool, true, false, not, ◌&&◌, ◌||◌, Option, none, some, List, [],
  ◌∷◌, ◌==◌, arith, ap, zero, suc, ℤ, pos, negsuc, inl, inr, Bool-cases, if◌then◌else◌,
}
use lapor_kos.Invitations.Chars.{Chars, chars, is_empty}
use lapor_kos.Api.Request.{Outcome, returned, thrown}
use lapor_kos.Invitations.Phone.{digits_of}
use lapor_kos.Tenants.Profile.Money.{
  value_from, nan, infinity, finite, overflow, or_zero, amount, amount_or_zero, money_input,
}
use lapor_kos.Tenants.Profile.Money.Laws.{tens, amount-infinity}
use lapor_kos.Tenants.Profile.Page.{
  ProfileCall, extend_contract, checkout_tenant, Toast, error, ProfilePage, ExtendForm,
  ExtendPayload, rent_text,
}
use lapor_kos.Tenants.Profile.Submit.{
  Answer, ProfileServer, ProfileHandler, int_or_one, extend_payload, extended, checked_out,
  handle_extend_contract_submit, handle_checkout_submit,
}

-- The dialogs that stay where their call fails.
pub data Dialog : Type 0 where
  extension checkout : Dialog

abbrev pub handle : (String → Option ℤ) → Dialog → ProfileHandler
handle parse_int extension = handle_extend_contract_submit parse_int
handle parse_int checkout = handle_checkout_submit

abbrev pub is_open : Dialog → ProfilePage → Bool
is_open extension s = s.show_extend_modal
is_open checkout s = s.show_checkout_modal

-- The day on which is paid: the first, where none is given.
abbrev pub day_or_first : Option ℤ → ℤ
day_or_first none = pos 1
day_or_first (some (pos zero)) = pos 1
day_or_first (some (pos (suc n))) = pos (suc n)
day_or_first (some (negsuc n)) = negsuc n

int_or_one-day : (o : Option ℤ) → int_or_one o ≡ day_or_first o
int_or_one-day none = refl
int_or_one-day (some (pos zero)) = refl
int_or_one-day (some (pos (suc n))) = refl
int_or_one-day (some (negsuc n)) = refl

-- The extension that a form describes: each amount is that of its own field, and a bill or a deposit
-- without a number is 0, but the rent is not.
abbrev pub extension_of : (String → Option ℤ) → ExtendForm → ExtendPayload
extension_of parse_int f = record {
  start_date = f.start_date;
  rental_duration = parse_int f.rental_duration;
  monthly_rent = amount f.monthly_rent;
  electricity_bill = or_zero (amount f.electricity_bill);
  water_bill = or_zero (amount f.water_bill);
  other_bills = or_zero (amount f.other_bills);
  payment_interval = f.payment_interval;
  deposit = or_zero (amount f.deposit);
  payment_due_day = day_or_first (parse_int f.payment_due_day);
  notes = f.notes;
}

extend_payload-extension :
    (parse_int : String → Option ℤ) (f : ExtendForm)
    → extend_payload parse_int f ≡ extension_of parse_int f
unfolding amount_or_zero
extend_payload-extension parse_int f =
    ap (λ day. record (extension_of parse_int f) { payment_due_day = day })
      (int_or_one-day (parse_int f.payment_due_day))

-- What a dialog is to send, if it is filled in.
abbrev pub request : (String → Option ℤ) → Dialog → ProfilePage → Option ProfileCall
request parse_int extension s =
    let f = s.extend_data in
    if f.start_date == "" || (f.rental_duration == "" || is_empty f.monthly_rent)
    then none
    else some (extend_contract (extension_of parse_int f))
request parse_int checkout s = some checkout_tenant

abbrev pub is_thrown : Outcome Answer → Bool
is_thrown (thrown m) = true
is_thrown (returned a) = false

abbrev pub is_error : Option Toast → Bool
is_error (some (error m)) = true
is_error _ = false

abbrev Ended : Dialog → Outcome Answer → ProfilePage → ProfilePage → Type 0
Ended d o s s' =
    (is_open d s' ≡ (is_open d s && is_thrown o))
    × (is_error s'.toast ≡ is_thrown o)
    × (s'.is_loading ≡ (s.is_loading || not (is_thrown o)))

extended-Ended : (o : Outcome Answer) (s : ProfilePage) → Ended extension o s (extended o s)
extended-Ended (returned a) s = ground arith
extended-Ended (thrown m) s = ground arith

checked_out-Ended : (o : Outcome Answer) (s : ProfilePage) → Ended checkout o s (checked_out o s)
checked_out-Ended (returned a) s = ground arith
checked_out-Ended (thrown m) s = ground arith

extension_filled :
    (a b c : Bool)
    → {q r : ProfileCall} → (if a || (b || c) then none else some r) ≡ some q
    → (a ≡ false) × (b ≡ false) × (c ≡ false) × (q ≡ r)
extension_filled a b c h = ground arith

-- A dialog that is filled in, of an extension or of a checkout, makes its one call: an extension with
-- what its fields spell, each in its place. It stays open, with an error, exactly where the call throws;
-- else it is closed, without an error, and the page begins to load again.
pub handle_sends :
    (parse_int : String → Option ℤ) (d : Dialog) (server : ProfileServer) (calls : List ProfileCall)
    (s : ProfilePage) (q : ProfileCall)
    → request parse_int d s ≡ some q
    → let (s', calls') = handle parse_int d server calls s in
      (calls' ≡ q ∷ calls)
      × (is_open d s' ≡ (is_open d s && is_thrown (server calls q)))
      × (is_error s'.toast ≡ is_thrown (server calls q))
      × (s'.is_loading ≡ (s.is_loading || not (is_thrown (server calls q))))
unfolding handle_extend_contract_submit handle_checkout_submit
handle_sends parse_int extension server calls s q h =
    let f = s.extend_data in
    let (dated, lasting, priced, sent) =
      extension_filled (f.start_date == "") (f.rental_duration == "") (is_empty f.monthly_rent) h in
    let (a, b, c) = extended-Ended (server calls (extend_contract (extension_of parse_int f))) s in
    rw sent
      (rw (dated, lasting) (rw (priced, extend_payload-extension parse_int f) (refl, a, b, c)))
handle_sends parse_int checkout server calls s q h =
    let sent : q ≡ checkout_tenant = cc in
    let (a, b, c) = checked_out-Ended (server calls checkout_tenant) s in rw sent (refl, a, b, c)

-- A dialog that is not filled in sends nothing, and all that it changes is an alert.
pub handle_refuses :
    (parse_int : String → Option ℤ) (d : Dialog) (server : ProfileServer) (calls : List ProfileCall)
    (s : ProfilePage)
    → request parse_int d s ≡ none
    → (m : String) × (handle parse_int d server calls s
        ≡ (record s { alerts = m ∷ s.alerts }, calls))
unfolding handle_extend_contract_submit handle_checkout_submit
handle_refuses parse_int extension server calls s h =
    let f = s.extend_data in
    elim (Bool-cases (f.start_date == "")) [
      | inl undated ↦ ("Tanggal mulai wajib diisi", rw undated refl)
      | inr dated ↦ elim (Bool-cases (f.rental_duration == "")) [
        | inl endless ↦ ("Durasi wajib diisi", rw dated (rw endless refl))
        | inr lasting ↦ elim (Bool-cases (is_empty f.monthly_rent)) [
          | inl free ↦ ("Harga sewa wajib diisi", rw dated (rw lasting (rw free refl)))
          | inr priced ↦ absurd (ground arith)
        ]
      ]
    ]
handle_refuses parse_int checkout server calls s h = absurd (ground arith)

-- The rent of the form is empty or spells a number that is not too large.
abbrev pub IsReadable : Chars → Type 0
IsReadable text = (text ≡ []) ⊎ ((n : ℕ) × (amount text ≡ finite n))

-- What is documented of the platform: it writes a number with its digits, which spell such a number
-- again, if not all digits of the same one.
abbrev pub Spells : (ℕ → String) → Type 0
Spells to_locale = (n : ℕ) → n < overflow → (m : ℕ) × (amount (chars (to_locale n)) ≡ finite m)

-- The steps of the page that set the rent of the form: what is loaded, and what is typed, of a number
-- that is not too large, or of none.
pub data RentStep (to_locale : ℕ → String) : Chars → Chars → Type 0 where
  loaded : (text : Chars) (n : ℕ) → n < tens 21 → RentStep to_locale text (rent_text n)
  typed :
      (text value : Chars)
      → value_from 0 (digits_of value) < overflow
      → RentStep to_locale text (money_input to_locale value)

pub data RentReach (to_locale : ℕ → String) : Chars → Type 0 where
  first : RentReach to_locale []
  next : {a b : Chars} → RentReach to_locale a → RentStep to_locale a b → RentReach to_locale b

-- A number from the overflow on is shown as Infinity, which is no empty field, and is read as `NaN`.
pub rent-overflow :
    (to_locale : ℕ → String) (value : Chars)
    → amount value ≡ infinity
    → (is_empty (money_input to_locale value) ≡ false)
      × (amount (money_input to_locale value) ≡ nan)
unfolding money_input
rent-overflow to_locale value large = rw large (refl, amount-infinity to_locale)
