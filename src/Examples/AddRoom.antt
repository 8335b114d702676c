-- ===== src/Examples/AddRoom.antt =====
-- A new room with its tenant, from the first step to what is sent.
use lapor_kos.Prelude.{String, true, false, none, some, List, [], Option}
use lapor_kos.Api.Request.{Outcome, returned}
use lapor_kos.Rooms.Wizard.{RoomData, TenantData, ContractData, Wizard}
use lapor_kos.Rooms.Wizard.Submission.{AddRoom, FormFields}

abbrev room : RoomData
room = record {
  room_number = "101";
  price_per_month = "900.000";
  description = "AC, WiFi";
  type = "VIP";
  status = "occupied";
  floor = "1";
}

abbrev tenant : TenantData
tenant = record {
  name = "Ani";
  phone = "+62-812-3456-7890";
  email = "ani@kos.id";
  date_of_birth = "2000-01-01";
  gender = "P";
  job = "Mahasiswa";
  emergency_contact_phone = "+62-813-3456-7890";
  emergency_contact_relation = "Ibu";
  emergency_contact_name = "Sri";
}

abbrev contract : ContractData
contract = record {
  entry_date = "2025-01-01";
  rental_duration = "6";
  electricity_bill = "0";
  water_bill = "0";
  other_bills = "0";
  payment_due_day = "5";
  payment_interval = "monthly";
  deposit = "500.000";
  notes = "";
}

abbrev started : Wizard
started = record {
  current_step = 1;
  room_data = room;
  tenant_data = tenant;
  contract_data = contract;
}

-- On the last step.
abbrev last : Wizard
last = record started { current_step = 4 }

abbrev page : AddRoom
page = record {
  wizard = last;
  draft_id = none;
  is_submitting = false;
  alerts = [];
  path = none;
  keeps_draft = true;
}

abbrev encode : List (String × String) → String
encode params = ""

abbrev accepting : FormFields → Outcome (Option String)
accepting fields = returned (some "r-1")
