-- ===== src/Crm/Reservations.antt =====
-- models/sa_crm_reservation.py, and the actions of models/sa_crm_lead.py on the reservations and the
-- state of a lead.
pub mod Exclusive
pub mod Holder
pub mod Lock
use propza_amlak.Prelude.{
  ℕ, zero, suc, Bool, true, false, ◌&&◌, ◌||◌, not, Option, none, some, List, [], ◌∷◌, map, Result,
  ok, err, ltb, ◌==◌, if◌then◌else◌,
}
use propza_amlak.Ejar.Lifecycle.World.{nth, update_at}
use propza_amlak.Crm.Types.{
  LeadCategory, opportunity, deal, LeadState, open_lead, won, lost, Lead, ReservationState, draft,
  active_reservation, expired, cancelled, converted, Reservation, Crm, CrmError,
  property_is_reserved, no_draft_reservation, no_active_reservation, no_record,
}

abbrev pub is_active : ReservationState → Bool
is_active active_reservation = true
is_active _ = false

abbrev pub is_draft : ReservationState → Bool
is_draft draft = true
is_draft _ = false

-- The property is held by a reservation.
abbrev pub holds : ℕ → Reservation → Bool
holds property r = r.property_id == property && is_active r.state

-- `search([property, active, id != rec.id])`, from the place `j` on.
pub has_conflict : ℕ → ℕ → ℕ → List Reservation → Bool
has_conflict property i j [] = false
has_conflict property i j (r ∷ rs) =
    let rest = has_conflict property i (suc j) rs in (holds property r && not (j == i)) || rest

-- `_compute_is_reserved` of the property.
unfoldable pub is_reserved : ℕ → List Reservation → Bool
is_reserved property [] = false
is_reserved property (r ∷ rs) = let rest = is_reserved property rs in holds property r || rest

abbrev pub set_state : ReservationState → Reservation → Reservation
set_state s r = record r { state = s }

abbrev make_opportunity : Lead → Lead
make_opportunity l = record l { lead_category = opportunity }

-- `action_mark_won` of the lead, with the stage that is won, if there is one.
abbrev pub mark_won : Option ℕ → Lead → Lead
mark_won none l = record l { state = won; lead_category = deal }
mark_won (some stage) l = record l { state = won; lead_category = deal; stage_id = stage }

abbrev pub action_mark_lost : Lead → Lead
action_mark_lost l = record l { state = lost; active = false }

abbrev reopened : LeadCategory → LeadCategory
reopened deal = opportunity
reopened c = c

abbrev pub action_reopen : Lead → Lead
action_reopen l = record l {
  state = open_lead;
  active = true;
  lead_category = reopened l.lead_category;
}

abbrev activate_at : ℕ → Crm → Option Reservation → Result CrmError Crm
unfolding has_conflict
activate_at i c none = err no_record
activate_at i c (some r) =
    if has_conflict r.property_id i 0 c.reservations
    then err property_is_reserved
    else ok (record {
      reservations = update_at i (set_state active_reservation) c.reservations;
      leads = update_at r.lead_id make_opportunity c.leads;
    })

-- `action_activate` on the reservation at a place.
unfoldable pub action_activate : ℕ → Crm → Result CrmError Crm
unfolding activate_at
action_activate i c = activate_at i c (nth c.reservations i)

abbrev pub action_cancel : ℕ → Crm → Crm
action_cancel i c = record c { reservations = update_at i (set_state cancelled) c.reservations }

abbrev convert_at : Option ℕ → ℕ → Crm → Option Reservation → Crm
convert_at stage i c none = c
convert_at stage i c (some r) = record {
  reservations = update_at i (set_state converted) c.reservations;
  leads = update_at r.lead_id (mark_won stage) c.leads;
}

unfoldable pub action_convert_to_deal : Option ℕ → ℕ → Crm → Crm
action_convert_to_deal stage i c = convert_at stage i c (nth c.reservations i)

abbrev pub expire_if_late : ℕ → Reservation → Reservation
expire_if_late today r =
    if is_active r.state && ltb r.date_end today then set_state expired r else r

unfoldable pub cron_expire_reservations : ℕ → Crm → Crm
cron_expire_reservations today c = record c {
  reservations = map (expire_if_late today) c.reservations;
}

-- The first reservation of a lead that passes a test, from the place `j` on.
unfoldable pub find_reservation : (ReservationState → Bool) → ℕ → ℕ → List Reservation → Option ℕ
find_reservation test lead j [] = none
find_reservation test lead j (r ∷ rs) =
    let rest = find_reservation test lead (suc j) rs in
    if r.lead_id == lead && test r.state then some j else rest

abbrev activate_found : Crm → Option ℕ → Result CrmError Crm
unfolding action_activate
activate_found c none = err no_draft_reservation
activate_found c (some i) = action_activate i c

-- `action_confirm_reservation` of the lead at a place.
unfoldable pub action_confirm_reservation : ℕ → Crm → Result CrmError Crm
unfolding activate_found find_reservation
action_confirm_reservation lead c =
    activate_found c (find_reservation is_draft lead 0 c.reservations)

abbrev convert_found : Option ℕ → Crm → Option ℕ → Result CrmError Crm
unfolding action_convert_to_deal
convert_found stage c none = err no_active_reservation
convert_found stage c (some i) = ok (action_convert_to_deal stage i c)

unfoldable pub action_convert_reservation_to_deal : Option ℕ → ℕ → Crm → Result CrmError Crm
unfolding convert_found find_reservation
action_convert_reservation_to_deal stage lead c =
    convert_found stage c (find_reservation is_active lead 0 c.reservations)
