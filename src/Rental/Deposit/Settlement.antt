-- ===== src/Rental/Deposit/Settlement.antt =====
-- The settlement of a deposit when the tenancy ends.
use propza_amlak.Prelude.{◌+◌, ◌-◌, ◌<◌, ◌≡◌, Bool, true, ok, arith}
use propza_amlak.Rental.Types.{forfeited, Tenancy}
use propza_amlak.Rental.Deposit.{
  EndTenancy, total_deductions, new_deposit_state, close_tenancy, action_end_tenancy,
}

-- Where a tenancy of a deposit ends with forfeit, what the wizard books falls short of the deposit by all that is not deducted: the
-- state is forfeited, yet that part is neither returned nor forfeited.
pub end_tenancy-unbooked :
    (sales bank : Bool) (w : EndTenancy) (t : Tenancy) {d : Tenancy}
    → w.forfeit_remaining ≡ true
    → 0 < t.deposit_amount
    → action_end_tenancy sales bank w t ≡ ok d
    → (d.deposit_state ≡ forfeited)
      × (d.deposit_returned_amount
            + d.deposit_forfeited_amount
            + (t.deposit_amount - total_deductions w)
          ≡ t.deposit_returned_amount + t.deposit_forfeited_amount + t.deposit_amount)
unfolding action_end_tenancy close_tenancy new_deposit_state
end_tenancy-unbooked sales bank w t f p h = (ground arith, ground arith)
