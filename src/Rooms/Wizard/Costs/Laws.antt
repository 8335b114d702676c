-- ===== src/Rooms/Wizard/Costs/Laws.antt =====
-- The costs of a contract that is paid at once against those of its months.
use lapor_kos.Prelude.{String, ℕ, ◌+◌, ◌*◌, ◌≡◌, refl, Option, arith}
use lapor_kos.Rooms.Wizard.{Wizard}
use lapor_kos.Rooms.Wizard.Costs.{number_of, duration_of, costs}

abbrev pub with_interval : String → Wizard → Wizard
with_interval interval w = record w {
  contract_data = record w.contract_data { payment_interval = interval };
}

-- The deposit is paid once and everything else for each month: the whole contract costs as many
-- times the first month without the deposit as it has months, and the deposit.
pub per_contract-monthly :
    (parse_int : String → Option ℕ) (w : Wizard)
    → let deposit = number_of parse_int w.contract_data.deposit in
      let once = costs parse_int (with_interval "per_contract" w) in
      let month = costs parse_int (with_interval "monthly" w) in
      (r : ℕ) × (month.total_biaya ≡ r + deposit)
      × (once.total_biaya ≡ r * duration_of parse_int w.contract_data + deposit)
      × (once.total_sewa ≡ month.total_sewa * duration_of parse_int w.contract_data)
unfolding costs
per_contract-monthly parse_int w =
    let c = w.contract_data in
    (
      number_of parse_int w.room_data.price_per_month
          + number_of parse_int c.electricity_bill
          + number_of parse_int c.water_bill
          + number_of parse_int c.other_bills,
      refl,
      grind arith,
      refl,
    )
