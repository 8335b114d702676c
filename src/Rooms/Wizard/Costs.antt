-- ===== src/Rooms/Wizard/Costs.antt =====
-- frontend/src/app/(dashboard)/rooms/add/page.tsx: the costs that the last step shows. `parse_int` is
-- `parseInt` of a text without a sign, with `none` for `NaN`.
pub mod Laws
use lapor_kos.Prelude.{String, ℕ, ◌+◌, ◌*◌, Option, none, some, ◌==◌, eqb, get_or, if◌then◌else◌}
use lapor_kos.Rooms.Wizard.{ContractData, Wizard}
use lapor_kos.Rooms.Wizard.Submission.{remove_dots}

pub record Costs : Type 0 where
  pub total_sewa : ℕ
  pub total_biaya : ℕ

module _ (parse_int : String → Option ℕ) where
  -- `parseInt(text.replace(/\./g, '')) || 0`
  abbrev pub number_of : String → ℕ
  number_of text = get_or (parse_int (remove_dots text)) 0

  -- `parseInt(rental_duration) || 1`
  abbrev pub duration_of : ContractData → ℕ
  duration_of c =
      let months = get_or (parse_int c.rental_duration) 0 in if eqb months 0 then 1 else months

  unfoldable pub costs : Wizard → Costs
  costs w =
      let c = w.contract_data in
      let price = number_of w.room_data.price_per_month in
      let duration = duration_of c in
      let electricity = number_of c.electricity_bill in
      let water = number_of c.water_bill in
      let other_bills = number_of c.other_bills in
      let deposit = number_of c.deposit in
      if c.payment_interval == "per_contract"
      then record {
        total_sewa = price * duration;
        total_biaya =
            price * duration
            + electricity * duration
            + water * duration
            + other_bills * duration
            + deposit;
      }
      else if c.payment_interval == "monthly"
      then record {
        total_sewa = price;
        total_biaya = price + electricity + water + other_bills + deposit;
      }
      else record { total_sewa = price; total_biaya = 0 }
