-- ===== src/Tests/Commission.antt =====
-- A commission of a year by the month, confirmed and paid in part.
use propza_amlak.Prelude.{refl, false, [], arith}
use propza_amlak.Commission.{
  Commission, percentage, monthly, draft, confirmed, any_paid, all_paid, new_lines, monthly_lines,
  generate_lines, paid_lines, state_of, refresh_state_from_lines, action_confirm,
}
use propza_amlak.Commission.Lines.{action_mark_paid, write, write_state}
use propza_amlak.Commission.Lines.Tracking.{
  IsOpen, Follows, Step, confirm, mark_paid, here, then_step, Reach-Follows,
}
use propza_amlak.Tests.Rental.{calendar}

abbrev commission : Commission
commission = record {
  rent_amount = 300000;
  duration = 12;
  in_years = false;
  commission_type = percentage;
  commission_rate = 500;
  fixed_amount = 0;
  payment_schedule = monthly;
  date_signed = 100;
  line_ids = [];
  state = draft;
}

unfoldable confirmed_commission : Commission
unfolding generate_lines
confirmed_commission = record (generate_lines calendar commission) { state = confirmed }

unfoldable partly_paid : Commission
unfolding action_mark_paid confirmed_commission
partly_paid = action_mark_paid 0 confirmed_commission

confirmation : Step commission confirmed_commission
unfolding action_confirm any_paid confirmed_commission
confirmation = confirm calendar refl refl

payment : Step confirmed_commission partly_paid
unfolding partly_paid
payment = mark_paid 0

partly_paid-IsOpen : IsOpen partly_paid
unfolding partly_paid confirmed_commission action_mark_paid write_state write
    refresh_state_from_lines state_of any_paid all_paid generate_lines new_lines paid_lines
    monthly_lines
partly_paid-IsOpen = ((λ e. ground arith), (λ e. ground arith))

Reach-Follows_example : Follows partly_paid.state partly_paid.line_ids
Reach-Follows_example =
    Reach-Follows {c = commission} {d = partly_paid} refl
      (then_step (then_step here confirmation) payment) partly_paid-IsOpen
