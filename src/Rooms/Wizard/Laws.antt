-- ===== src/Rooms/Wizard/Laws.antt =====
-- What has been checked when a step of the form is reached.
use lapor_kos.Prelude.{String, ◌≤◌, ◌≡◌, ◌≢◌, true, [], ◌∷◌, none, arith, eq_iff}
use lapor_kos.Rooms.Wizard.{
  RoomData, TenantData, ContractData, Wizard, Errors, room_errors, tenant_errors, contract_errors,
  step_errors, has_none, validate_step, handle_next, handle_prev,
}

-- The buttons, and the fields that each step shows.
pub data Step : Wizard → Wizard → Type 0 where
  next : (w : Wizard) → Step w (handle_next w)
  prev : (w : Wizard) → Step w (handle_prev w).0
  room_edited :
      (r : RoomData) (w : Wizard) → w.current_step ≡ 1 → Step w (record w { room_data = r })
  tenant_edited :
      (t : TenantData) (w : Wizard) → w.current_step ≡ 2 → Step w (record w { tenant_data = t })
  contract_edited :
      (c : ContractData) (w : Wizard) → w.current_step ≡ 3 → Step w (record w { contract_data = c })

-- The form is opened on its first step, for a new room.
pub data Reach : Wizard → Type 0 where
  opened : (w : Wizard) → w.current_step ≡ 1 → Reach w
  step : {w v : Wizard} → Reach w → Step w v → Reach v

-- The steps behind the current one are filled in; those of the tenant and the contract only where
-- the room is occupied. A free room has no such steps.
pub record IsChecked (w : Wizard) : Type 0 where
  pub first_step : 1 ≤ w.current_step
  pub last_step : w.current_step ≤ 4
  pub free : w.room_data.status ≡ "available" → (w.current_step ≢ 2) × (w.current_step ≢ 3)
  pub room : 2 ≤ w.current_step → room_errors w.room_data ≡ []
  pub tenant :
      3 ≤ w.current_step → w.room_data.status ≡ "occupied" → tenant_errors w.tenant_data ≡ []
  pub contract :
      4 ≤ w.current_step → w.room_data.status ≡ "occupied" → contract_errors w.contract_data ≡ []

has_none-nil : (e : Errors) → has_none e ≡ true → e ≡ []
has_none-nil [] h = ground arith
has_none-nil (x ∷ e) h = cc

apart : ◌≢◌ {A = String} "occupied" "available"
apart = ground (arith, eq_iff "occupied" "available")

Step-IsChecked : {w v : Wizard} → Step w v → IsChecked w → IsChecked v
unfolding handle_next handle_prev step_errors
Step-IsChecked (next w) h = record {
  first_step = ground (arith, h.first_step);
  last_step = ground (arith, h.last_step);
  free = λ e. ground (arith, h.free, eq_iff w.room_data.status "available");
  room = λ k. ground (arith, h.room, h.first_step, has_none-nil (room_errors w.room_data));
  tenant = λ k e. ground (
    arith,
    h.tenant,
    has_none-nil (tenant_errors w.tenant_data),
    apart,
    eq_iff w.room_data.status "available",
    eq_iff w.room_data.status "occupied",
  );
  contract = λ k e. ground (
    arith,
    h.contract,
    has_none-nil (contract_errors w.contract_data),
    apart,
    eq_iff w.room_data.status "available",
    eq_iff w.room_data.status "occupied",
  );
}
Step-IsChecked (prev w) h = record {
  first_step = ground (arith, h.first_step);
  last_step = ground (arith, h.last_step);
  free =
      λ e. ground (arith, h.free, h.first_step, h.last_step, eq_iff w.room_data.status "available");
  room = λ k. ground (arith, h.room);
  tenant = λ k e. ground (arith, h.tenant);
  contract = λ k e. ground (arith, h.contract, h.last_step);
}
Step-IsChecked (room_edited r w at) h = record {
  first_step = h.first_step;
  last_step = h.last_step;
  free = λ e. (ground arith, ground arith);
  room = λ k. absurd (omega (arith, k, at));
  tenant = λ k e. absurd (omega (arith, k, at));
  contract = λ k e. absurd (omega (arith, k, at));
}
Step-IsChecked (tenant_edited t w at) h = record {
  first_step = h.first_step;
  last_step = h.last_step;
  free = h.free;
  room = h.room;
  tenant = λ k e. absurd (omega (arith, k, at));
  contract = λ k e. absurd (omega (arith, k, at));
}
Step-IsChecked (contract_edited c w at) h = record {
  first_step = h.first_step;
  last_step = h.last_step;
  free = h.free;
  room = h.room;
  tenant = h.tenant;
  contract = λ k e. absurd (omega (arith, k, at));
}

-- Whatever buttons are pressed and fields are edited from the first step on: a step is reached only
-- with the steps behind it free of errors, those of tenant and contract where the room is
-- occupied, and a free room is never on these two.
pub Reach-IsChecked : (w : Wizard) → Reach w → IsChecked w
Reach-IsChecked w (opened v at) = record {
  first_step = omega (arith, at);
  last_step = omega (arith, at);
  free = λ e. (ground arith, ground arith);
  room = λ k. absurd (omega (arith, k, at));
  tenant = λ k e. absurd (omega (arith, k, at));
  contract = λ k e. absurd (omega (arith, k, at));
}
Reach-IsChecked w (step r s) = Step-IsChecked s (Reach-IsChecked _ r)

-- From a step that can be left, going on and back again comes to the same form.
pub handle_prev-handle_next :
    (w : Wizard)
    → Reach w
    → w.current_step ≢ 4
    → validate_step w.current_step w ≡ true
    → handle_prev (handle_next w) ≡ (w, none)
unfolding handle_next handle_prev
handle_prev-handle_next w r early valid =
    let h = Reach-IsChecked w r in
    ground (arith, h.free, h.first_step, h.last_step, eq_iff w.room_data.status "available")
