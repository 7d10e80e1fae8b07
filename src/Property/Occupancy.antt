-- ===== src/Property/Occupancy.antt =====
-- models/property_tenancy.py and the fields of models/property_property.py that it writes, with what
-- the wizard of addons/sa_rental_cycle/wizard/sa_end_tenancy_wizard.py writes to them. A record stands
-- under its identifier, in a function of all of them.
pub mod Tenants
mod Effect
pub mod Taken
use propza_amlak.Prelude.{
  ℕ, Bool, true, false, ◌&&◌, not, Option, none, some, Result, ok, err, ltb, ◌==◌, if◌then◌else◌,
}

pub data UnitState : Type 0 where
  available on_rent sold : UnitState

pub record PropertyProperty : Type 0 where
  pub state : UnitState
  pub tenant_partner_id : Option ℕ

pub data LeaseState : Type 0 where
  draft confirm running closed cancelled : LeaseState

pub record PropertyTenancy : Type 0 where
  pub property_id : ℕ
  pub partner_id : ℕ
  pub start_date : Option ℕ
  pub end_date : Option ℕ
  pub state : LeaseState

pub record Rentals : Type 0 where
  pub tenancies : ℕ → PropertyTenancy
  pub properties : ℕ → PropertyProperty

-- `UserError`, by its message.
pub data LeaseError : Type 0 where
  not_draft dates_missing not_confirmed : LeaseError

abbrev pub is_draft : LeaseState → Bool
is_draft draft = true
is_draft _ = false

-- `state in ('confirm', 'draft')`
abbrev pub is_startable : LeaseState → Bool
is_startable confirm = true
is_startable draft = true
is_startable _ = false

abbrev pub is_available : UnitState → Bool
is_available available = true
is_available _ = false

abbrev pub is_on_rent : UnitState → Bool
is_on_rent on_rent = true
is_on_rent _ = false

abbrev pub has_dates : Option ℕ → Option ℕ → Bool
has_dates (some a) (some b) = true
has_dates _ _ = false

abbrev pub put {ℓ} : {A : Type ℓ} → ℕ → A → (ℕ → A) → ℕ → A
put i x f k = if k == i then x else f k

abbrev pub write_state : ℕ → LeaseState → Rentals → Rentals
write_state i s w = record w {
  tenancies = put i (record (w.tenancies i) { state = s }) w.tenancies;
}

abbrev pub write_property : ℕ → PropertyProperty → Rentals → Rentals
write_property j p w = record w { properties = put j p w.properties }

unfoldable pub action_confirm : ℕ → Rentals → Result LeaseError Rentals
action_confirm i w =
    if not (is_draft (w.tenancies i).state)
    then err not_draft
    else if not (has_dates (w.tenancies i).start_date (w.tenancies i).end_date)
    then err dates_missing
    else ok (write_state i confirm w)

-- The property is taken if it is available, and left alone otherwise.
abbrev pub take : ℕ → ℕ → Rentals → Rentals
take j partner w =
    if is_available (w.properties j).state
    then write_property j (record { state = on_rent; tenant_partner_id = some partner }) w
    else w

-- A property on rent is made available, and its tenant is what the caller gives.
abbrev pub release : ℕ → Option ℕ → Rentals → Rentals
release j tenant w =
    if is_on_rent (w.properties j).state
    then write_property j (record { state = available; tenant_partner_id = tenant }) w
    else w

unfoldable pub action_start : ℕ → Rentals → Result LeaseError Rentals
action_start i w =
    if not (is_startable (w.tenancies i).state)
    then err not_confirmed
    else ok (take (w.tenancies i).property_id (w.tenancies i).partner_id (write_state i running w))

unfoldable pub action_close : ℕ → Rentals → Result LeaseError Rentals
action_close i w = ok (release (w.tenancies i).property_id none (write_state i closed w))

unfoldable pub action_cancel : ℕ → Rentals → Result LeaseError Rentals
action_cancel i w = ok (release (w.tenancies i).property_id none (write_state i cancelled w))

unfoldable pub action_set_to_draft : ℕ → Rentals → Result LeaseError Rentals
action_set_to_draft i w = ok (write_state i draft w)

-- What the wizard writes at the end: the tenant of the property stays.
unfoldable pub end_by_wizard : ℕ → Rentals → Result LeaseError Rentals
end_by_wizard i w = ok (
    release (w.tenancies i).property_id (w.properties (w.tenancies i).property_id).tenant_partner_id
      (write_state i closed w))

pub data LeaseAction : Type 0 where
  confirming starting closing cancelling resetting ending : LeaseAction

unfoldable pub act : LeaseAction → ℕ → Rentals → Result LeaseError Rentals
unfolding action_confirm action_start action_close action_cancel action_set_to_draft end_by_wizard
act confirming = action_confirm
act starting = action_start
act closing = action_close
act cancelling = action_cancel
act resetting = action_set_to_draft
act ending = end_by_wizard

-- `_check_dates`
abbrev pub check_dates : PropertyTenancy → Bool
check_dates t = dates_in_order t.start_date t.end_date
  where
    dates_in_order : Option ℕ → Option ℕ → Bool
    dates_in_order (some a) (some b) = not (ltb b a)
    dates_in_order _ _ = true
