-- ===== src/Tests/Crm.antt =====
-- Two reservations of one property, and leads for two agents.
use propza_amlak.Prelude.{ℕ, true, none, List, [], ◌∷◌, arith, if◌then◌else◌, ◌==◌}
use propza_amlak.Crm.Types.{
  opportunity, lead, open_lead, Lead, draft, active_reservation, Reservation, Crm,
}
use propza_amlak.Crm.Reservations.{set_state, cron_expire_reservations}
use propza_amlak.Crm.Rotation.{cron_auto_assign_unassigned_leads}
use propza_amlak.Crm.Rotation.Assigned.{AllBecome, auto_assign-AllBecome}

abbrev new_lead : Lead
new_lead = record {
  lead_category = lead;
  state = open_lead;
  active = true;
  stage_id = 1;
  user_id = none;
}

abbrev reservation : Reservation
reservation = record { lead_id = 0; property_id = 9; state = draft; date_end = 20 }

abbrev before : Crm
before = record { reservations = reservation ∷ reservation ∷ []; leads = new_lead ∷ [] }

abbrev activated : Crm
activated = record {
  reservations = set_state active_reservation reservation ∷ reservation ∷ [];
  leads = record new_lead { lead_category = opportunity } ∷ [];
}

abbrev after : Crm
unfolding cron_expire_reservations
after = cron_expire_reservations 21 activated

abbrev leads : List Lead
leads = new_lead ∷ new_lead ∷ new_lead ∷ []

abbrev agents : List ℕ
agents = 4 ∷ 5 ∷ []

abbrev counts : ℕ → ℕ → ℕ
counts i a = if a == 4 then 2 else i

auto_assign-AllBecome_example :
    AllBecome counts 0 agents leads (cron_auto_assign_unassigned_leads counts agents leads)
auto_assign-AllBecome_example = auto_assign-AllBecome counts agents leads (λ e. ground arith)
