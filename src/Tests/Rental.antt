-- ===== src/Tests/Rental.antt =====
-- A tenancy with a calendar of months of thirty days, and an accounting that posts everything.
use propza_amlak.Prelude.{
  ℕ, ◌+◌, ◌*◌, ◌≤◌, ◌≡◌, ◌↔◌, refl, false, true, some, none, List, [], ◌∷◌, ◌++◌, map, ok, err,
  arith, if◌then◌else◌,
}
use propza_amlak.Rental.Types.{
  rent, sadad, posted_move, not_settled, Move, RentPayment, quarterly, on_rent, running, active,
  held, draft_tenancy, rent_is_frozen, Tenancy,
}
use propza_amlak.Rental.Payment.{Accounts, Registration}
use propza_amlak.Rental.Schedule.{
  Calendar, interval, without_unpaid, new_payment, get_period_amount, with_deposit,
  action_generate_payment_schedule,
}
use propza_amlak.Rental.Schedule.Dates.{MovesOn, Progression}
use propza_amlak.Rental.Schedule.Generated.{confirmed_with, generate-Progression}
use propza_amlak.Rental.Deposit.{EndTenancy, close_tenancy}
use propza_amlak.Rental.Alerts.{expiry_30, new_alert, cron_check_expiry_alerts}
use propza_amlak.Rental.Alerts.Once.{active_alerts, cron_check-active_alerts}
use propza_amlak.Rental.Renewal.{
  Setting, automatic, period, breaks_freeze, do_renewal, build_renewal_vals,
}
use propza_amlak.Rental.Renewal.Wizard.{open_wizard, new_end_date, confirm, confirm-automatic}
use propza_amlak.Rental.Renewal.Nightly.{do_renewal-adjacent}

abbrev invoice : Move
invoice = record {
  number = 7;
  state = posted_move;
  payment_state = not_settled;
  amount_total = 1000;
}

abbrev pub accounts : Accounts
accounts = record {
  has_sale_journal = true;
  draft = λ p. invoice;
  post = λ m. some m;
  has_payment_journal = λ o. true;
  posts_payment = λ f. true;
  reconcile = λ m f. m;
}

abbrev instalment : ℕ → Registration
instalment n = record {
  amount_paid = n;
  payment_date = 40;
  payment_method = sadad;
  reference = "r-1";
  create_invoice = true;
}

abbrev pub one_rent : RentPayment
one_rent = new_payment rent 1000 30

abbrev pub calendar : Calendar
calendar = record { plus_months = λ d n. d + n * 30; months_between = λ a b. 12 }

abbrev pub tenancy : Tenancy
tenancy = record {
  state = running;
  sa_cycle_state = active;
  start_date = some 100;
  end_date = some 459;
  rent_amount = 1000;
  deposit_amount = 500;
  sa_payment_schedule = some quarterly;
  sa_payment_ids = [];
  property_state = some on_rent;
  rent_freeze_active = true;
  deposit_state = held;
  deposit_date_paid = some 100;
  deposit_returned_amount = 0;
  deposit_forfeited_amount = 0;
  auto_renew = true;
  renewal_period_months = 12;
  renewal_rent_increase_pct = 5;
  renewal_notice_days = 30;
  renewed_to_id = none;
  renewed_from_id = none;
}

abbrev ending : EndTenancy
ending = record {
  deduction_amounts = 120 ∷ 80 ∷ [];
  forfeit_remaining = false;
  create_refund_payment = true;
  create_deduction_invoice = true;
}

abbrev setting : Setting
setting = record { calendar = calendar; today = 440; raised = λ r p. r + p; creates = λ t. true }

pub calendar-MovesOn : MovesOn calendar
calendar-MovesOn d n h = omega arith

generate-Progression_example :
    (due : List ℕ) × Progression calendar (interval quarterly) 459 100 due
    × (action_generate_payment_schedule calendar tenancy
        ≡ ok (
            confirmed_with tenancy (
              without_unpaid []
              ++ with_deposit 500 100
                  (map (new_payment rent (get_period_amount 1000 quarterly)) due))))
generate-Progression_example =
    generate-Progression calendar tenancy quarterly 100 459 calendar-MovesOn (refl, omega arith)
      refl refl (omega arith)

-- The tenancy with the deposit and four quarters.
abbrev scheduled : Tenancy
scheduled =
    confirmed_with tenancy
      (with_deposit 500 100 (map (new_payment rent 3000) (100 ∷ 190 ∷ 280 ∷ 370 ∷ [])))

-- The tenancy after the wizard.
abbrev ended_tenancy : Tenancy
unfolding close_tenancy
ended_tenancy = close_tenancy ending tenancy

-- The tenancy where rents may rise.
abbrev unfrozen : Tenancy
unfrozen = record tenancy { rent_freeze_active = false }

abbrev successor : Tenancy
unfolding build_renewal_vals
successor = build_renewal_vals setting automatic 0 unfrozen

do_renewal-adjacent_example :
    ((do_renewal setting automatic 0 1 unfrozen ≡ err rent_is_frozen)
      ↔ (breaks_freeze unfrozen ≡ true))
    × ((old new : Tenancy)
        → do_renewal setting automatic 0 1 unfrozen ≡ ok (old, new)
        → (new.start_date ≡ some (459 + 1))
          × ((last : ℕ)
              → new.end_date ≡ some last
              → (459 + 1 ≤ last)
                × (last + 1 ≡ calendar.plus_months (459 + 1) (period automatic unfrozen)))
          × (new.rent_amount
              ≡ setting.raised unfrozen.rent_amount
                  (if unfrozen.rent_freeze_active then 0 else unfrozen.renewal_rent_increase_pct))
          × (new.state ≡ draft_tenancy)
          × (new.renewed_from_id ≡ some 0)
          × (old.renewed_to_id ≡ some 1)
          × (old.end_date ≡ some 459))
do_renewal-adjacent_example =
    do_renewal-adjacent setting 0 1 459 unfrozen calendar-MovesOn refl refl

-- The tenancy runs, and ends on day 459.
cron_check-active_alerts_example :
    active_alerts 1 expiry_30
      (cron_check_expiry_alerts 429 (scheduled ∷ tenancy ∷ []) (new_alert 0 expiry_30 ∷ []))
    ≡ 1
cron_check-active_alerts_example =
    cron_check-active_alerts 429 1 expiry_30 (scheduled ∷ tenancy ∷ []) (new_alert 0 expiry_30 ∷ [])
      {t = tenancy} refl (omega arith)

confirm-automatic_example :
    (confirm setting 0 1 (open_wizard setting unfrozen) unfrozen
      ≡ do_renewal setting automatic 0 1 unfrozen)
    × (successor.end_date
        ≡ new_end_date setting
            (open_wizard setting unfrozen).new_start_date
            (open_wizard setting unfrozen).period_months)
unfolding open_wizard successor build_renewal_vals
confirm-automatic_example = confirm-automatic setting 0 1 unfrozen (λ e. absurd (ground arith))
