-- ===== src/Rental/Schedule.antt =====
-- models/sa_rent_payment.py, the tenancy's part: the schedule of payments and its totals. The
-- calendar arithmetic of dateutil is a parameter.
pub mod Dates
pub mod Generated
use propza_amlak.Prelude.{
  ℕ, zero, suc, ◌+◌, ◌-◌, ◌*◌, Bool, true, false, ◌&&◌, not, Option, none, some, List, [], ◌∷◌,
  ◌++◌, map, String, Result, ok, err, leb, ltb, ◌==◌, if◌then◌else◌,
}
use propza_amlak.Rental.Types.{
  PaymentType, rent, deposit, PaymentState, pending, overdue, paid, cancelled, RentPayment,
  Schedule, monthly, quarterly, semi_annual, annual, one_time, confirmed, Tenancy, RentalError,
  dates_missing, rent_missing,
}

-- `d + relativedelta(months=n)`, and `years * 12 + months` of `relativedelta(end, start)`.
pub record Calendar : Type 0 where
  pub plus_months : ℕ → ℕ → ℕ
  pub months_between : ℕ → ℕ → ℕ

abbrev pub is_unpaid : PaymentState → Bool
is_unpaid pending = true
is_unpaid overdue = true
is_unpaid _ = false

-- What is left when the unpaid payments are deleted.
pub without_unpaid : List RentPayment → List RentPayment
without_unpaid [] = []
without_unpaid (p ∷ ps) =
    let rest = without_unpaid ps in if is_unpaid p.state then rest else p ∷ rest

-- The records that `create` makes.
abbrev pub new_payment : PaymentType → ℕ → ℕ → RentPayment
new_payment kind amount due = record {
  due_date = due;
  amount = amount;
  payment_type = kind;
  state = pending;
  payment_date = none;
  payment_method = none;
  amount_paid = 0;
  sadad_number = String.[];
  cheque_number = String.[];
  bank_ref = String.[];
  move_id = none;
  payment_id = none;
}

-- `intervals`, in months; `one_time` has none.
abbrev pub interval : Schedule → ℕ
interval monthly = 1
interval quarterly = 3
interval semi_annual = 6
interval annual = 12
interval one_time = 0

-- `_get_period_amount`
abbrev pub get_period_amount : ℕ → Schedule → ℕ
get_period_amount rent_amount monthly = rent_amount
get_period_amount rent_amount quarterly = rent_amount * 3
get_period_amount rent_amount semi_annual = rent_amount * 6
get_period_amount rent_amount annual = rent_amount * 12
get_period_amount rent_amount one_time = rent_amount

-- `_get_total_months`, where both dates are set.
abbrev pub get_total_months : Calendar → ℕ → ℕ → ℕ
get_total_months cal start finish = cal.months_between start finish + 1

-- `while current <= self.end_date`, with a bound on the rounds.
pub due_dates : Calendar → ℕ → ℕ → ℕ → ℕ → List ℕ
due_dates cal step zero current finish = []
due_dates cal step (suc f) current finish =
    let rest = due_dates cal step f (cal.plus_months current step) finish in
    if leb current finish then current ∷ rest else []

-- A round moves on by a day at least, so this many rounds are enough.
abbrev pub rounds : ℕ → ℕ → ℕ
rounds start finish = suc finish - start

unfoldable pub rent_payments : Calendar → Schedule → ℕ → ℕ → ℕ → List RentPayment
unfolding due_dates
rent_payments cal one_time amount start finish =
    new_payment rent (amount * get_total_months cal start finish) start ∷ []
rent_payments cal s amount start finish =
    map (new_payment rent (get_period_amount amount s))
      (due_dates cal (interval s) (rounds start finish) start finish)

-- The deposit, if there is one, stands first.
abbrev pub with_deposit : ℕ → ℕ → List RentPayment → List RentPayment
with_deposit amount start ps = if amount == 0 then ps else new_payment deposit amount start ∷ ps

abbrev pub or_monthly : Option Schedule → Schedule
or_monthly none = monthly
or_monthly (some s) = s

abbrev pub payments_data : Calendar → ℕ → ℕ → Tenancy → List RentPayment
payments_data cal start finish t =
    with_deposit t.deposit_amount start
      (rent_payments cal (or_monthly t.sa_payment_schedule) t.rent_amount start finish)

unfoldable pub generate_between :
    Calendar → Tenancy → Option ℕ → Option ℕ → Result RentalError Tenancy
unfolding without_unpaid
generate_between cal t (some start) (some finish) =
    if t.rent_amount == 0
    then err rent_missing
    else ok (record t {
      sa_payment_ids = without_unpaid t.sa_payment_ids ++ payments_data cal start finish t;
      sa_cycle_state = confirmed;
    })
generate_between cal t _ _ = err dates_missing

unfoldable pub action_generate_payment_schedule : Calendar → Tenancy → Result RentalError Tenancy
unfolding generate_between
action_generate_payment_schedule cal t = generate_between cal t t.start_date t.end_date

abbrev counts : RentPayment → Bool
counts p = elim p.state [ cancelled ↦ false | _ ↦ elim p.payment_type [ rent ↦ true | _ ↦ false ] ]

-- `_compute_payment_stats`: what is due and what is paid, over the rents that are not cancelled.
unfoldable pub sa_total_due : List RentPayment → ℕ
sa_total_due [] = 0
sa_total_due (p ∷ ps) = let rest = sa_total_due ps in if counts p then p.amount + rest else rest

unfoldable pub sa_total_paid : List RentPayment → ℕ
sa_total_paid [] = 0
sa_total_paid (p ∷ ps) =
    let rest = sa_total_paid ps in if counts p then p.amount_paid + rest else rest

-- `sa_total_balance > 0`
unfoldable pub has_balance : List RentPayment → Bool
unfolding sa_total_due sa_total_paid
has_balance ps = ltb (sa_total_paid ps) (sa_total_due ps)
