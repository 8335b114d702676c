-- ===== src/Examples/Wizard.antt =====
-- The form that adds a room: frontend/src/app/(dashboard)/rooms/add/page.tsx.
use lapor_kos.Prelude.{◌≡◌, refl, true}
use lapor_kos.Rooms.Wizard.{
  RoomData, TenantData, ContractData, Wizard, room_errors, step_errors, validate_step, handle_next,
}
use lapor_kos.Rooms.Wizard.Laws.{opened, step, next, IsChecked, Reach-IsChecked}

abbrev free_room : RoomData
free_room = record {
  room_number = "101";
  price_per_month = "900.000";
  description = "AC, ";
  type = "Standard";
  status = "available";
  floor = "1";
}

abbrev no_tenant : TenantData
no_tenant = record {
  name = "";
  phone = "";
  email = "";
  date_of_birth = "";
  gender = "";
  job = "";
  emergency_contact_phone = "";
  emergency_contact_relation = "";
  emergency_contact_name = "";
}

abbrev no_contract : ContractData
no_contract = record {
  entry_date = "";
  rental_duration = "";
  electricity_bill = "";
  water_bill = "";
  other_bills = "";
  payment_due_day = "";
  payment_interval = "";
  deposit = "";
  notes = "";
}

abbrev filled : Wizard
filled = record {
  current_step = 1;
  room_data = free_room;
  tenant_data = no_tenant;
  contract_data = no_contract;
}

filled_valid : validate_step 1 filled ≡ true
unfolding step_errors room_errors
filled_valid = refl

review_test : (handle_next filled).current_step ≡ 4
unfolding handle_next step_errors room_errors
review_test = refl

Reach-IsChecked_example : IsChecked (handle_next filled)
Reach-IsChecked_example =
    Reach-IsChecked (handle_next filled) (step (opened filled refl) (next filled))
