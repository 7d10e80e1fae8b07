-- ===== src/Property/Inspection.antt =====
-- models/property_inspection.py: the reports on a property's condition. Costs are numbers of halalas.
use propza_amlak.Prelude.{
  ℕ, ◌+◌, Bool, true, false, not, List, [], ◌∷◌, String, Result, ok, err, if◌then◌else◌,
}

pub data Room : Type 0 where
  living_room bedroom master kitchen bathroom balcony storage parking exterior common other : Room

pub data Condition : Type 0 where
  good minor_wear damaged missing needs_repair replaced : Condition

pub record InspectionLine : Type 0 where
  pub id : ℕ
  pub room : Room
  pub item : String
  pub condition : Condition
  pub damage_cost : ℕ

pub data InspectionState : Type 0 where
  draft completed signed cancelled : InspectionState

pub data InspectionType : Type 0 where
  move_in move_out interim : InspectionType

pub record Inspection : Type 0 where
  pub inspection_type : InspectionType
  pub state : InspectionState
  pub line_ids : List InspectionLine

-- `UserError`, by its message.
pub data InspectionError : Type 0 where
  no_lines not_completed : InspectionError

-- `_compute_total_damages`
unfoldable pub total_damages_cost : List InspectionLine → ℕ
total_damages_cost [] = 0
total_damages_cost (l ∷ ls) = l.damage_cost + total_damages_cost ls

abbrev complete : Inspection → List InspectionLine → Result InspectionError Inspection
complete r [] = err no_lines
complete r (l ∷ ls) = ok (record r { state = completed })

unfoldable pub action_complete : Inspection → Result InspectionError Inspection
action_complete r = complete r r.line_ids

abbrev is_completed : InspectionState → Bool
is_completed completed = true
is_completed _ = false

unfoldable pub action_sign : Inspection → Result InspectionError Inspection
action_sign r =
    if not (is_completed r.state) then err not_completed else ok (record r { state = signed })

unfoldable pub action_cancel : Inspection → Result InspectionError Inspection
action_cancel r = ok (record r { state = cancelled })

unfoldable pub action_set_to_draft : Inspection → Result InspectionError Inspection
action_set_to_draft r = ok (record r { state = draft })
