-- ===== src/Rental/Deposit/Deductions.antt =====
-- wizard/sa_end_tenancy_wizard.py: the deduction lines, and their import from the inspection at the
-- end of a tenancy (addons/sa_property_base/models/property_inspection.py).
pub mod Import
use propza_amlak.Prelude.{
  ℕ, ◌+◌, ◌-◌, ◌≡◌, refl, sym, ap, ◌∙◌, Bool, true, false, not, Option, none, some, List, [], ◌∷◌,
  ◌++◌, map, String, Result, ok, err, ok-injective, ltb, arith, if◌then◌else◌,
}
use propza_amlak.Property.Inspection.{Room, InspectionLine, Inspection, total_damages_cost}
use propza_amlak.Rental.Types.{Tenancy, ended}
use propza_amlak.Rental.Deposit.{EndTenancy, sum, total_deductions, action_end_tenancy}

pub data Category : Type 0 where
  damage cleaning utility penalty unpaid_rent key other : Category

-- `description` is the room with the item, or a text.
pub data Description : Type 0 where
  of_item : Room → String → Description
  text : String → Description

pub record DeductionLine : Type 0 where
  pub description : Description
  pub category : Category
  pub amount : ℕ
  pub inspection_line_id : Option ℕ

pub data ImportError : Type 0 where
  inspection_missing no_damages : ImportError

abbrev pub is_imported : DeductionLine → Bool
is_imported l = imported l.inspection_line_id
  where
    imported : Option ℕ → Bool
    imported none = false
    imported (some i) = true

-- The lines that are added by hand.
unfoldable pub manual : List DeductionLine → List DeductionLine
manual [] = []
manual (l ∷ ls) = let rest = manual ls in if is_imported l then rest else l ∷ rest

-- The category is 'damage' whatever the condition is.
abbrev pub deduction : InspectionLine → DeductionLine
deduction l = record {
  description = of_item l.room l.item;
  category = damage;
  amount = l.damage_cost;
  inspection_line_id = some l.id;
}

unfoldable pub new_lines : List InspectionLine → List DeductionLine
new_lines [] = []
new_lines (l ∷ ls) =
    let rest = new_lines ls in if ltb 0 l.damage_cost then deduction l ∷ rest else rest

abbrev pub created :
    List DeductionLine → List DeductionLine → Result ImportError (List DeductionLine)
created kept [] = err no_damages
created kept (l ∷ ls) = ok (kept ++ l ∷ ls)

unfoldable pub action_import_from_inspection :
    Option Inspection → List DeductionLine → Result ImportError (List DeductionLine)
unfolding manual new_lines
action_import_from_inspection none ls = err inspection_missing
action_import_from_inspection (some r) ls = created (manual ls) (new_lines r.line_ids)

abbrev pub amounts : List DeductionLine → List ℕ
amounts [] = []
amounts (l ∷ ls) = l.amount ∷ amounts ls
