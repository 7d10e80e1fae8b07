-- ===== src/Rental/Deposit/Deductions/Import.antt =====
-- What an import from an inspection does to the deposit.
use propza_amlak.Prelude.{
  ◌+◌, ◌≡◌, refl, sym, ap, ◌∙◌, Bool, false, some, List, [], ◌∷◌, ◌++◌, ok, ok-injective, arith,
}
use propza_amlak.Property.Inspection.{InspectionLine, Inspection, total_damages_cost}
use propza_amlak.Rental.Types.{Tenancy}
use propza_amlak.Rental.Deposit.{
  EndTenancy, sum, total_deductions, close_tenancy, action_end_tenancy,
}
use propza_amlak.Rental.Deposit.Deductions.{
  DeductionLine, manual, new_lines, created, action_import_from_inspection, amounts,
}

sum-append :
    (ls ms : List DeductionLine) → sum (amounts (ls ++ ms)) ≡ sum (amounts ls) + sum (amounts ms)
sum-append [] ms = omega arith
sum-append (l ∷ ls) ms = ground (arith, sum-append ls ms)

-- Lines without a cost add nothing.
sum-new_lines : (ls : List InspectionLine) → sum (amounts (new_lines ls)) ≡ total_damages_cost ls
unfolding new_lines total_damages_cost
sum-new_lines [] = refl
sum-new_lines (l ∷ ls) = ground (arith, sum-new_lines ls)

manual-append : (ls ms : List DeductionLine) → manual (ls ++ ms) ≡ manual ls ++ manual ms
unfolding manual
manual-append [] ms = refl
manual-append (l ∷ ls) ms = ground (arith, manual-append ls ms)

manual-manual : (ls : List DeductionLine) → manual (manual ls) ≡ manual ls
unfolding manual
manual-manual [] = refl
manual-manual (l ∷ ls) = ground (arith, manual-manual ls)

manual-new_lines : (ls : List InspectionLine) → manual (new_lines ls) ≡ []
unfolding manual new_lines
manual-new_lines [] = refl
manual-new_lines (l ∷ ls) = ground (arith, manual-new_lines ls)

append_nil : (ls : List DeductionLine) → ls ++ [] ≡ ls
append_nil [] = refl
append_nil (l ∷ ls) = ap (λ ms. l ∷ ms) (append_nil ls)

created-append :
    (kept ms : List DeductionLine) {ns : List DeductionLine}
    → created kept ms ≡ ok ns
    → ns ≡ kept ++ ms
created-append kept [] h = absurd (ground arith)
created-append kept (m ∷ ms) h = sym (ok-injective h)

import-append :
    (r : Inspection) (ls : List DeductionLine) {ns : List DeductionLine}
    → action_import_from_inspection (some r) ls ≡ ok ns
    → ns ≡ manual ls ++ new_lines r.line_ids
unfolding action_import_from_inspection
import-append r ls h = created-append (manual ls) (new_lines r.line_ids) h

-- The lines by hand are the same after the import.
manual-import :
    (r : Inspection) (ls : List DeductionLine) {ns : List DeductionLine}
    → action_import_from_inspection (some r) ls ≡ ok ns
    → manual ns ≡ manual ls
manual-import r ls h =
    ap manual (import-append r ls h)
    ∙ manual-append (manual ls) (new_lines r.line_ids)
    ∙ ap (λ ms. manual (manual ls) ++ ms) (manual-new_lines r.line_ids)
    ∙ append_nil (manual (manual ls))
    ∙ manual-manual ls

import_again :
    (r : Inspection) (ls : List DeductionLine) {ns : List DeductionLine}
    → action_import_from_inspection (some r) ls ≡ ok ns
    → action_import_from_inspection (some r) ns ≡ ok ns
unfolding action_import_from_inspection
import_again r ls h = ap (λ ms. created ms (new_lines r.line_ids)) (manual-import r ls h) ∙ h

end-returned :
    (sales bank : Bool) (w : EndTenancy) (t : Tenancy) {d : Tenancy}
    → w.forfeit_remaining ≡ false
    → action_end_tenancy sales bank w t ≡ ok d
    → d.deposit_returned_amount + total_deductions w ≡ t.deposit_returned_amount + t.deposit_amount
unfolding action_end_tenancy close_tenancy
end-returned sales bank w t f h = ground arith

-- The damages of an inspection are imported, and the tenancy is ended with the lines that result and
-- without forfeiting the rest of the deposit: what is returned of the deposit is less by all damages
-- of the inspection and by all lines that were added by hand, and by nothing else. Importing once
-- more changes nothing.
pub import-returned :
    (sales bank : Bool) (r : Inspection) (ls : List DeductionLine) (w : EndTenancy) (t : Tenancy)
    {ns : List DeductionLine} {d : Tenancy}
    → action_import_from_inspection (some r) ls ≡ ok ns
    → w.deduction_amounts ≡ amounts ns
    → w.forfeit_remaining ≡ false
    → action_end_tenancy sales bank w t ≡ ok d
    → (d.deposit_returned_amount + (sum (amounts (manual ls)) + total_damages_cost r.line_ids)
        ≡ t.deposit_returned_amount + t.deposit_amount)
      × (action_import_from_inspection (some r) ns ≡ ok ns)
import-returned sales bank r ls w t {ns} {d} h a f e = (
  ap (λ x. d.deposit_returned_amount + x) (sym total) ∙ end-returned sales bank w t f e,
  import_again r ls h,
)
  where
    total : total_deductions w ≡ sum (amounts (manual ls)) + total_damages_cost r.line_ids
    total =
        ap sum (a ∙ ap amounts (import-append r ls h))
        ∙ sum-append (manual ls) (new_lines r.line_ids)
        ∙ ap (λ x. sum (amounts (manual ls)) + x) (sum-new_lines r.line_ids)
