-- ===== src/Maintenance/Contract.antt =====
-- models/maintenance_contract.py: a contract of regular maintenance, and the nightly job that makes
-- its requests. Whether a request can be created is a parameter; an exception of the job's loop is
-- caught, and leaves the requests that were made before it.
pub mod Services
use propza_amlak.Prelude.{
  ℕ, suc, zero, Bool, true, false, ◌&&◌, Option, none, some, List, [], ◌∷◌, ◌++◌, Result, ok, err,
  leb, if◌then◌else◌,
}
use propza_amlak.Rental.Schedule.{Calendar}
use propza_amlak.Maintenance.{
  Category, normal, approved, owner, Request, MaintenanceError, property_missing,
  contract_not_active,
}

pub data Frequency : Type 0 where
  monthly quarterly semi_annual annual : Frequency

pub data ContractState : Type 0 where
  draft active suspended expired : ContractState

pub record Contract : Type 0 where
  pub supplier_partner_id : ℕ
  pub property_ids : List ℕ
  pub category : Category
  pub frequency : Frequency
  pub start_date : ℕ
  pub end_date : Option ℕ
  pub last_service_date : Option ℕ
  pub state : ContractState

-- `offset`, in months.
abbrev pub offset : Frequency → ℕ
offset monthly = 1
offset quarterly = 3
offset semi_annual = 6
offset annual = 12

abbrev or_start : Option ℕ → ℕ → ℕ
or_start none d = d
or_start (some l) d = l

abbrev pub next_service_date : Calendar → Contract → ℕ
next_service_date cal c =
    cal.plus_months (or_start c.last_service_date c.start_date) (offset c.frequency)

unfoldable pub action_activate : Contract → Result MaintenanceError Contract
action_activate c = elim c.property_ids [
  | [] ↦ err property_missing
  | p ∷ ps ↦ ok (record c { state = active })
]

abbrev pub action_suspend : Contract → Contract
action_suspend c = record c { state = suspended }

abbrev pub action_expire : Contract → Contract
action_expire c = record c { state = expired }

-- The values of `_generate_request` for one property.
abbrev pub request_for : ℕ → ℕ → Contract → ℕ → Request
request_for id today c property = record {
  property_id = property;
  category = c.category;
  priority = normal;
  state = approved;
  supplier_partner_id = some c.supplier_partner_id;
  request_date = today;
  scheduled_date = none;
  completion_date = none;
  materials_cost = 0;
  labor_cost = 0;
  transport_cost = 0;
  cost_bearer = owner;
  approved_by = none;
  approval_date = none;
  contract_id = some id;
}

-- The requests created, and whether all were.
pub create_requests : (Request → Bool) → ℕ → ℕ → Contract → List ℕ → List Request × Bool
create_requests creates id today c [] = ([], true)
create_requests creates id today c (p ∷ ps) =
    let rest = create_requests creates id today c ps in
    if creates (request_for id today c p)
    then (request_for id today c p ∷ rest.0, rest.1)
    else ([], false)

abbrev pub served : ℕ → Contract → Bool → Contract
served today c true = record c { last_service_date = some today }
served today c false = c

-- `_generate_request` on the contract `id`: the requests, and the contract as it is left.
unfoldable pub generate_request : (Request → Bool) → ℕ → ℕ → Contract → List Request × Contract
unfolding create_requests
generate_request creates id today c =
    let made = create_requests creates id today c c.property_ids in (made.0, served today c made.1)

abbrev is_active : ContractState → Bool
is_active active = true
is_active _ = false

-- `action_generate_request_now`, where every request can be created.
unfoldable pub action_generate_request_now :
    ℕ → ℕ → Contract → Result MaintenanceError (List Request × Contract)
unfolding generate_request
action_generate_request_now id today c =
    if is_active c.state
    then ok (generate_request (λ r. true) id today c)
    else err contract_not_active

abbrev not_over : ℕ → Option ℕ → Bool
not_over today none = true
not_over today (some e) = leb today e

-- The search of `cron_generate_due_services`, over a list of the contracts that are not archived: Odoo
-- leaves the others out of a search.
abbrev pub is_due : Calendar → ℕ → Contract → Bool
is_due cal today c =
    is_active c.state && leb (next_service_date cal c) today && not_over today c.end_date

abbrev pub serve : Calendar → (Request → Bool) → ℕ → ℕ → Contract → List Request × Contract
unfolding generate_request
serve cal creates today id c =
    if is_due cal today c then generate_request creates id today c else ([], c)

-- The loop from the contract `id` on: the requests created, and the contracts as they are left.
pub serve_from : Calendar → (Request → Bool) → ℕ → ℕ → List Contract → List Request × List Contract
unfolding serve
serve_from cal creates today id [] = ([], [])
serve_from cal creates today id (c ∷ cs) =
    let here = serve cal creates today id c in
    let rest = serve_from cal creates today (suc id) cs in (here.0 ++ rest.0, here.1 ∷ rest.1)

unfoldable pub cron_generate_due_services :
    Calendar → (Request → Bool) → ℕ → List Contract → List Request × List Contract
unfolding serve_from
cron_generate_due_services cal creates today cs = serve_from cal creates today 0 cs
