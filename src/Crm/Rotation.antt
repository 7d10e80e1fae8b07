-- ===== src/Crm/Rotation.antt =====
-- The load-based rotation of models/sa_crm_lead.py: `_get_least_loaded_agent` and the job that
-- assigns what has no agent. The search for eligible agents is a parameter, their list; so is what
-- the query in SQL counts for an agent, since it reads the tables, which lag behind the writes that
-- Odoo has not flushed.
pub mod Assigned
use propza_amlak.Prelude.{
  ℕ, suc, Bool, true, false, ◌&&◌, not, Option, none, some, is_some, List, [], ◌∷◌, ltb,
  if◌then◌else◌,
}
use propza_amlak.Crm.Types.{LeadState, open_lead, Lead}

abbrev pub is_open : LeadState → Bool
is_open open_lead = true
is_open _ = false

-- `min` takes the first of the least.
abbrev pub pick : (ℕ → ℕ) → ℕ → List ℕ → ℕ
pick count best [] = best
pick count best (a ∷ agents) = pick count (if ltb (count a) (count best) then a else best) agents

unfoldable pub get_least_loaded_agent : (ℕ → ℕ) → List ℕ → Option ℕ
get_least_loaded_agent count [] = none
get_least_loaded_agent count (a ∷ agents) = some (pick count a agents)

abbrev pub is_unassigned : Lead → Bool
is_unassigned l = l.active && not (is_some l.user_id) && is_open l.state

abbrev pub assign_to : Option ℕ → Lead → Lead
assign_to none l = l
assign_to (some a) l = if is_unassigned l then record l { user_id = some a } else l

-- The loop from the lead at the place `i` on, where `counts i` are the counts of the query for it.
pub assign_from : (ℕ → ℕ → ℕ) → ℕ → List ℕ → List Lead → List Lead
unfolding get_least_loaded_agent
assign_from counts i agents [] = []
assign_from counts i agents (l ∷ ls) =
    assign_to (get_least_loaded_agent (counts i) agents) l ∷ assign_from counts (suc i) agents ls

unfoldable pub cron_auto_assign_unassigned_leads : (ℕ → ℕ → ℕ) → List ℕ → List Lead → List Lead
unfolding assign_from
cron_auto_assign_unassigned_leads counts agents ls = assign_from counts 0 agents ls
