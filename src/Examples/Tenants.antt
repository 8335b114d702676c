-- ===== src/Examples/Tenants.antt =====
-- The list of the tenants: frontend/src/app/(dashboard)/tenants/page.tsx.
use Prim.Native.String.{len}
use lapor_kos.Prelude.{
  String, ℕ, ◌-◌, ◌*◌, ◌≡◌, refl, Bool, Option, none, some, List, [], ◌∷◌, map, ◌==◌, leb,
  if◌then◌else◌, pos, neg,
}
use lapor_kos.Invitations.Chars.{trim, is_space}
use lapor_kos.Tenants.{
  Tenant, ContractAnswer, to_tenant, mapped_tenants, enhanced_tenants, enhance,
  get_payment_status_label, days_until_expiry, days_between, remove_spaces, day, contract_status,
}
use lapor_kos.Tenants.Shown.{Choice, unpaid, closest_expiry, filtered_and_sorted_tenants}

abbrev answer : String → String → Option String → ContractAnswer
answer name end_date paid = record {
  id = "c-1";
  user = some (record {
    id = some name;
    name = some name;
    phone = none;
    email = none;
    ktp_url = some "ktp.png";
    selfie_url = none;
  });
  room_id = "r-1";
  room = none;
  start_date = "start";
  end_date = end_date;
  rental_duration = 6;
  status = "active";
  latest_payment_status = paid;
  created_at = "made";
}

abbrev answers : List ContractAnswer
answers =
    answer "Ani S" "late" (some "overdue")
    ∷ answer "Budi" "soon" (some "unpaid")
    ∷ answer "Citra" "over" none
    ∷ []

abbrev lower : String → String
lower s = s

-- The midnight is the tenth day.
abbrev today : ℕ
today = 10 * day

abbrev time : String → Option ℕ
time s =
    if s == "late"
    then some (100 * day)
    else if s == "soon"
    then some (12 * day)
    else if s == "over"
    then some (8 * day)
    else none

email_test :
    map Tenant.email (mapped_tenants lower (some answers))
    ≡ "AniS@gmail.com" ∷ "Budi@gmail.com" ∷ "Citra@gmail.com" ∷ []
unfolding mapped_tenants to_tenant remove_spaces is_space
email_test = refl

days_test :
    (days_between today (12 * day) ≡ pos 2)
    × (days_between today (8 * day) ≡ neg 2)
    × (days_between today (today - 1) ≡ pos 0)
    × (contract_status (some (pos 30)) ≡ "Segera Habis")
unfolding days_between
days_test = (refl, refl, refl, refl)

abbrev debts : Choice
debts = record { active_tab = unpaid; search_query = " "; sort_by = closest_expiry }

abbrev le : String → String → Bool
le a b = leb (len a) (len b)

debts_test :
    map
      (λ t. t.tenant.name)
      (filtered_and_sorted_tenants time lower le debts
        (enhanced_tenants time today (mapped_tenants lower (some answers))))
    ≡ "Budi" ∷ "Ani S" ∷ []
unfolding filtered_and_sorted_tenants enhanced_tenants enhance mapped_tenants to_tenant
    days_until_expiry days_between get_payment_status_label trim is_space
debts_test = refl
