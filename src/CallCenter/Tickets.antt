-- ===== src/CallCenter/Tickets.antt =====
-- models/call_center_ticket.py, and the ticket of a call. The identifier that a creation gives is a
-- parameter.
use propza_amlak.Prelude.{
  ℕ, not, Option, none, some, is_some, List, ◌∷◌, String, Result, ok, err, if◌then◌else◌,
}
use propza_amlak.CallCenter.Calls.{Call}

pub data TicketState : Type 0 where
  new in_progress done : TicketState

pub record Ticket : Type 0 where
  pub partner_id : Option ℕ
  pub call_id : Option ℕ
  pub property_id : Option ℕ
  pub description : String
  pub state : TicketState
  pub lead_id : Option ℕ
  pub maintenance_request_id : Option ℕ

pub data TicketError : Type 0 where
  converted_to_lead partner_missing converted_to_request property_missing : TicketError

unfoldable pub action_convert_to_lead : ℕ → Ticket → Result TicketError Ticket
action_convert_to_lead lead t =
    if is_some t.lead_id
    then err converted_to_lead
    else if not (is_some t.partner_id)
    then err partner_missing
    else ok (record t { lead_id = some lead; state = in_progress })

unfoldable pub action_convert_to_maintenance : ℕ → Ticket → Result TicketError Ticket
action_convert_to_maintenance request t =
    if is_some t.maintenance_request_id
    then err converted_to_request
    else if not (is_some t.property_id)
    then err property_missing
    else ok (record t { maintenance_request_id = some request; state = in_progress })

unfoldable pub action_close : Ticket → Ticket
action_close t = record t { state = done }

-- The ticket of a call that has none: it is created under `id`, and the call refers to it.
abbrev pub new_ticket : ℕ → Call → Ticket
new_ticket call c = record {
  partner_id = c.partner_id;
  call_id = some call;
  property_id = none;
  description = c.notes;
  state = new;
  lead_id = none;
  maintenance_request_id = none;
}

unfoldable pub action_create_ticket : ℕ → ℕ → Call → List Ticket → Call × List Ticket
action_create_ticket call id c ts =
    if is_some c.ticket_id
    then (c, ts)
    else (record c { ticket_id = some id }, new_ticket call c ∷ ts)
