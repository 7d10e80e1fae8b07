-- ===== src/Tests/Maintenance.antt =====
-- A quarterly contract for two properties that is due, and one that is suspended.
use propza_amlak.Prelude.{◌≡◌, refl, true, none, some, List, [], ◌∷◌}
use propza_amlak.Maintenance.{ac}
use propza_amlak.Maintenance.Contract.{
  Contract, quarterly, active, suspended, cron_generate_due_services,
}
use propza_amlak.Maintenance.Contract.Services.{all_due, services_once}
use propza_amlak.Tests.Rental.{calendar, calendar-MovesOn}

abbrev contract : Contract
contract = record {
  supplier_partner_id = 3;
  property_ids = 11 ∷ 12 ∷ [];
  category = ac;
  frequency = quarterly;
  start_date = 0;
  end_date = some 400;
  last_service_date = none;
  state = active;
}

abbrev contracts : List Contract
contracts = contract ∷ record contract { state = suspended } ∷ []

services_once_example :
    let made = cron_generate_due_services calendar (λ r. true) 95 contracts in
    (made.0 ≡ all_due calendar 95 0 contracts)
    × (cron_generate_due_services calendar (λ r. true) 95 made.1 ≡ ([], made.1))
services_once_example = services_once calendar (λ r. true) 95 contracts calendar-MovesOn (λ r. refl)
