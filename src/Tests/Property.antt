-- ===== src/Tests/Property.antt =====
-- Two properties with a tenancy each, and an inspection.
use propza_amlak.Prelude.{◌+◌, ◌≡◌, refl, true, false, some, none, [], ◌∷◌, ok, arith}
use propza_amlak.Property.Inspection.{
  kitchen, bedroom, good, damaged, InspectionLine, completed, move_out, Inspection,
  total_damages_cost,
}
use propza_amlak.Property.Occupancy.{
  available, on_rent, draft, running, Rentals, take, write_state, starting, act, action_start,
}
use propza_amlak.Property.Occupancy.Tenants.{Reach, start, step, IsHeld, Reach-IsHeld}
use propza_amlak.Property.Occupancy.Taken.{Reach-taken}
use propza_amlak.Rental.Types.{Tenancy}
use propza_amlak.Rental.Deposit.{EndTenancy, sum, action_end_tenancy, close_tenancy}
use propza_amlak.Rental.Schedule.{has_balance}
use propza_amlak.Rental.Deposit.Deductions.{
  cleaning, text, DeductionLine, deduction, manual, new_lines, action_import_from_inspection,
  amounts,
}
use propza_amlak.Rental.Deposit.Deductions.Import.{import-returned}
use propza_amlak.Tests.Rental.{tenancy}

abbrev office : Rentals
office = record {
  tenancies = λ n. record {
    property_id = n;
    partner_id = n + 10;
    start_date = some 1;
    end_date = some 365;
    state = draft;
  };
  properties = λ n. record { state = available; tenant_partner_id = none };
}

-- The first tenancy is started.
abbrev let_office : Rentals
let_office = take 0 10 (write_state 0 running office)

started : Reach office let_office
unfolding act action_start
started = step start starting 0 refl

Reach-IsHeld_example : IsHeld let_office
Reach-IsHeld_example = Reach-IsHeld (λ j r. absurd (ground arith)) started

Reach-taken_example :
    ((let_office.properties 0).state ≡ on_rent)
    × ((let_office.properties 0).tenant_partner_id ≡ some 10)
Reach-taken_example =
    Reach-taken {w = office} 0 (λ j. refl) (λ r. absurd (ground arith)) (λ k h. h) started refl

abbrev broken_door : InspectionLine
broken_door = record {
  id = 4;
  room = kitchen;
  item = "door";
  condition = damaged;
  damage_cost = 120;
}

abbrev report : Inspection
report = record {
  inspection_type = move_out;
  state = completed;
  line_ids =
      broken_door
      ∷ record { id = 5; room = bedroom; item = "wall"; condition = good; damage_cost = 0 }
      ∷ [];
}

abbrev cleaned : DeductionLine
cleaned = record {
  description = text "cleaning";
  category = cleaning;
  amount = 30;
  inspection_line_id = none;
}

abbrev wizard : EndTenancy
wizard = record {
  deduction_amounts = 30 ∷ 120 ∷ [];
  forfeit_remaining = false;
  create_refund_payment = false;
  create_deduction_invoice = false;
}

abbrev over : Tenancy
unfolding close_tenancy
over = close_tenancy wizard tenancy

import-returned_example :
    (over.deposit_returned_amount
        + (sum (amounts (manual (cleaned ∷ []))) + total_damages_cost report.line_ids)
      ≡ 500)
    × (action_import_from_inspection (some report) (cleaned ∷ deduction broken_door ∷ [])
        ≡ ok (cleaned ∷ deduction broken_door ∷ []))
unfolding action_import_from_inspection manual new_lines action_end_tenancy has_balance
import-returned_example =
    import-returned true true report (cleaned ∷ []) wizard tenancy
      {ns = cleaned ∷ deduction broken_door ∷ []} {d = over} refl refl refl refl
