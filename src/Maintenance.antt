-- ===== src/Maintenance.antt =====
-- addons/sa_maintenance: models/maintenance_request.py, and the others in the children. A property,
-- a partner, a user and a contract are numbers.
pub mod Contract
pub mod WorkOrder
use propza_amlak.Prelude.{ℕ, ◌+◌, Option, none, some, is_some, Result, ok, err, not, if◌then◌else◌}

pub data Category : Type 0 where
  plumbing electrical ac painting carpentry cleaning pest appliance other : Category

pub data Priority : Type 0 where
  low normal high urgent : Priority

pub data RequestState : Type 0 where
  new approved scheduled in_progress done cancelled : RequestState

pub data CostBearer : Type 0 where
  owner tenant split : CostBearer

pub record Request : Type 0 where
  pub property_id : ℕ
  pub category : Category
  pub priority : Priority
  pub state : RequestState
  pub supplier_partner_id : Option ℕ
  pub request_date : ℕ
  pub scheduled_date : Option ℕ
  pub completion_date : Option ℕ
  pub materials_cost : ℕ
  pub labor_cost : ℕ
  pub transport_cost : ℕ
  pub cost_bearer : CostBearer
  pub approved_by : Option ℕ
  pub approval_date : Option ℕ
  pub contract_id : Option ℕ

pub data MaintenanceError : Type 0 where
  visit_date_missing supplier_missing technician_missing work_date_missing property_missing
        contract_not_active :
      MaintenanceError

-- `_compute_cost`
abbrev pub cost : Request → ℕ
cost r = r.materials_cost + r.labor_cost + r.transport_cost

abbrev pub action_approve : ℕ → ℕ → Request → Request
action_approve user now r = record r {
  state = approved;
  approved_by = some user;
  approval_date = some now;
}

unfoldable pub action_schedule : Request → Result MaintenanceError Request
action_schedule r =
    if not (is_some r.scheduled_date)
    then err visit_date_missing
    else if not (is_some r.supplier_partner_id)
    then err supplier_missing
    else ok (record r { state = scheduled })

abbrev pub action_start : Request → Request
action_start r = record r { state = in_progress }

abbrev pub action_done : ℕ → Request → Request
action_done today r = record r { state = done; completion_date = some today }

abbrev pub action_cancel : Request → Request
action_cancel r = record r { state = cancelled }

abbrev pub action_set_to_new : Request → Request
action_set_to_new r = record r { state = new }
