-- ===== src/Maintenance/WorkOrder.antt =====
-- models/maintenance_work_order.py. A time counts its seconds.
use propza_amlak.Prelude.{ℕ, ◌-◌, Option, none, some, is_some, Result, ok, err, not, if◌then◌else◌}
use propza_amlak.Maintenance.{MaintenanceError, technician_missing, work_date_missing}

pub data State : Type 0 where
  draft scheduled in_progress done cancelled : State

-- The actual duration is in seconds, where the source rounds it to hundredths of an hour.
pub record Order : Type 0 where
  pub technician_id : Option ℕ
  pub scheduled_date : Option ℕ
  pub actual_start : Option ℕ
  pub actual_end : Option ℕ
  pub duration_actual : ℕ
  pub state : State

unfoldable pub action_schedule : Order → Result MaintenanceError Order
action_schedule w =
    if not (is_some w.technician_id)
    then err technician_missing
    else if not (is_some w.scheduled_date)
    then err work_date_missing
    else ok (record w { state = scheduled })

abbrev pub action_start : ℕ → Order → Order
action_start now w = record w { state = in_progress; actual_start = some now }

abbrev elapsed : ℕ → Option ℕ → ℕ
elapsed now none = 0
elapsed now (some s) = now - s

abbrev pub action_done : ℕ → Order → Order
action_done now w = record w {
  state = done;
  actual_end = some now;
  duration_actual = elapsed now w.actual_start;
}

abbrev pub action_cancel : Order → Order
action_cancel w = record w { state = cancelled }

abbrev pub action_set_to_draft : Order → Order
action_set_to_draft w = record w { state = draft }
