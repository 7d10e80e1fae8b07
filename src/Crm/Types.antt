-- ===== src/Crm/Types.antt =====
-- The fields of sa.crm.lead and sa.crm.reservation that the actions read and write. A property, a
-- lead and a user are numbers, a date the number of a day.
use propza_amlak.Prelude.{ℕ, Bool, Option, List}

pub data LeadCategory : Type 0 where
  lead opportunity deal : LeadCategory

pub data LeadState : Type 0 where
  open_lead won lost : LeadState

pub record Lead : Type 0 where
  pub lead_category : LeadCategory
  pub state : LeadState
  pub active : Bool
  pub stage_id : ℕ
  pub user_id : Option ℕ

pub data ReservationState : Type 0 where
  draft active_reservation expired cancelled converted : ReservationState

-- The leads are in a list of their own, and `lead_id` is a place in it.
pub record Reservation : Type 0 where
  pub lead_id : ℕ
  pub property_id : ℕ
  pub state : ReservationState
  pub date_end : ℕ

pub record Crm : Type 0 where
  pub reservations : List Reservation
  pub leads : List Lead

pub data CrmError : Type 0 where
  property_is_reserved no_draft_reservation no_active_reservation no_record : CrmError
