-- ===== src/Rental/Deposit.antt =====
-- models/sa_tenancy_deposit.py and wizard/sa_end_tenancy_wizard.py: the deposit of a tenancy from
-- its receipt to the settlement when the tenancy ends.
pub mod Settlement
pub mod Deductions
use propza_amlak.Prelude.{
  ℕ, ◌+◌, ◌-◌, Bool, true, false, ◌&&◌, not, Option, none, some, List, [], ◌∷◌, Result, ok, err,
  leb, ltb, ◌==◌, if◌then◌else◌,
}
use propza_amlak.Rental.Types.{
  TenancyState, closed, ended, DepositState, not_paid, held, partially_returned, returned,
  forfeited, PropertyState, draft_property, on_rent, Tenancy, RentalError, deposit_missing,
  deposit_registered, balance_outstanding, deductions_too_high, no_sale_journal, no_bank_journal,
}
use propza_amlak.Rental.Schedule.{has_balance}

abbrev is_not_paid : DepositState → Bool
is_not_paid not_paid = true
is_not_paid _ = false

-- The form that the action opens is the client's affair.
unfoldable pub action_register_deposit_receipt : Tenancy → Result RentalError Tenancy
action_register_deposit_receipt t =
    if t.deposit_amount == 0
    then err deposit_missing
    else if not (is_not_paid t.deposit_state)
    then err deposit_registered
    else ok t

abbrev or_today : ℕ → Option ℕ → ℕ
or_today today none = today
or_today today (some d) = d

unfoldable pub action_mark_deposit_held : ℕ → Tenancy → Result RentalError Tenancy
action_mark_deposit_held today t =
    if t.deposit_amount == 0
    then err deposit_missing
    else ok (record t {
      deposit_state = held;
      deposit_date_paid = some (or_today today t.deposit_date_paid);
    })

-- `AccountPaymentDeposit.action_post` on a payment of the tenancy, by its direction and date.
unfoldable pub post_deposit_payment : ℕ → Bool → Option ℕ → Tenancy → Tenancy
post_deposit_payment today is_inbound date t =
    if is_inbound && is_not_paid t.deposit_state
    then record t { deposit_state = held; deposit_date_paid = some (or_today today date) }
    else t

-- The wizard: the amounts of its deduction lines, and its switches.
pub record EndTenancy : Type 0 where
  pub deduction_amounts : List ℕ
  pub forfeit_remaining : Bool
  pub create_refund_payment : Bool
  pub create_deduction_invoice : Bool

abbrev pub sum : List ℕ → ℕ
sum [] = 0
sum (x ∷ xs) = x + sum xs

abbrev pub total_deductions : EndTenancy → ℕ
total_deductions w = sum w.deduction_amounts

-- `max(deposit - total, 0)`
abbrev pub refund_amount : EndTenancy → Tenancy → ℕ
refund_amount w t = if w.forfeit_remaining then 0 else t.deposit_amount - total_deductions w

unfoldable pub new_deposit_state : EndTenancy → Tenancy → DepositState
new_deposit_state w t =
    if t.deposit_amount == 0
    then t.deposit_state
    else if w.forfeit_remaining && total_deductions w == 0
    then forfeited
    else if leb t.deposit_amount (refund_amount w t)
    then returned
    else if refund_amount w t == 0
    then forfeited
    else partially_returned

abbrev free_property : Option PropertyState → Option PropertyState
free_property (some on_rent) = some draft_property
free_property o = o

-- The write to the tenancy and its property.
unfoldable pub close_tenancy : EndTenancy → Tenancy → Tenancy
unfolding new_deposit_state
close_tenancy w t = record t {
  state = closed;
  sa_cycle_state = ended;
  deposit_returned_amount = t.deposit_returned_amount + refund_amount w t;
  deposit_forfeited_amount = t.deposit_forfeited_amount + total_deductions w;
  deposit_state = new_deposit_state w t;
  property_state = free_property t.property_state;
}

-- `action_end_tenancy`; whether there is a journal for an invoice and one for a payment is a
-- parameter. A payment or an invoice that cannot be posted stays a draft.
unfoldable pub action_end_tenancy : Bool → Bool → EndTenancy → Tenancy → Result RentalError Tenancy
unfolding close_tenancy
action_end_tenancy has_sale_journal has_bank_journal w t =
    if has_balance t.sa_payment_ids
    then err balance_outstanding
    else if ltb t.deposit_amount (total_deductions w)
    then err deductions_too_high
    else if w.create_deduction_invoice && ltb 0 (total_deductions w) && not has_sale_journal
    then err no_sale_journal
    else if w.create_refund_payment && ltb 0 (refund_amount w t) && not has_bank_journal
    then err no_bank_journal
    else ok (close_tenancy w t)
