-- ===== src/Rental/Renewal.antt =====
-- models/sa_tenancy_renewal.py and wizard/sa_tenancy_renewal_wizard.py. The tenancies stand in a
-- list, and the identifier of one is its place. The product of a rent and a percentage is one of
-- floating-point numbers, and a parameter.
pub mod Nightly
pub mod Wizard
use propza_amlak.Prelude.{
  ℕ, zero, suc, ◌+◌, ◌-◌, Bool, true, false, ◌&&◌, ◌||◌, not, Option, none, some, is_some, List, [],
  ◌∷◌, ◌++◌, length, Result, ok, err, leb, ltb, ◌==◌, if◌then◌else◌,
}
use propza_amlak.Rental.Types.{
  TenancyState, draft_tenancy, running, closed, CycleState, draft_cycle, renewed, DepositState,
  not_paid, PropertyState, Tenancy, RentalError, already_renewed, not_renewable, rent_is_frozen,
  rent_not_positive, period_missing,
}
use propza_amlak.Rental.Schedule.{Calendar}

-- The calendar, today, a rent raised by a percentage, and whether `create` accepts a tenancy in the
-- nightly job, with all constraints.
pub record Setting : Type 0 where
  pub calendar : Calendar
  pub today : ℕ
  pub raised : ℕ → ℕ → ℕ
  pub creates : Tenancy → Bool

-- What a caller may give: a rent, a period and a first day; each is left out by `none` or by 0.
pub record Terms : Type 0 where
  pub new_rent : Option ℕ
  pub period_months : ℕ
  pub new_start_date : Option ℕ

abbrev pub automatic : Terms
automatic = record { new_rent = none; period_months = 0; new_start_date = none }

abbrev pub or_number : ℕ → ℕ → ℕ
or_number a b = if a == 0 then b else a

abbrev pub or_day : Option ℕ → ℕ → ℕ
or_day none d = d
or_day (some s) d = s

abbrev pub period : Terms → Tenancy → ℕ
period terms t = or_number terms.period_months (or_number t.renewal_period_months 12)

-- `(new_start_date or end_date + 1) if end_date else today`
abbrev pub start_of : Setting → Terms → Option ℕ → ℕ
start_of s terms none = s.today
start_of s terms (some e) = or_day terms.new_start_date (e + 1)

abbrev pub rent_of : Setting → Option ℕ → Tenancy → ℕ
rent_of s (some r) t = r
rent_of s none t =
    s.raised t.rent_amount (if t.rent_freeze_active then 0 else t.renewal_rent_increase_pct)

-- The tenancy that is created: the values of `_build_renewal_vals`, and else the defaults. The
-- property is the same one.
unfoldable pub build_renewal_vals : Setting → Terms → ℕ → Tenancy → Tenancy
build_renewal_vals s terms id t =
    let start = start_of s terms t.end_date in
    record t {
      state = draft_tenancy;
      sa_cycle_state = draft_cycle;
      start_date = some start;
      end_date = some (s.calendar.plus_months start (period terms t) - 1);
      rent_amount = rent_of s terms.new_rent t;
      sa_payment_schedule = none;
      sa_payment_ids = [];
      deposit_state = not_paid;
      deposit_date_paid = none;
      deposit_returned_amount = 0;
      deposit_forfeited_amount = 0;
      renewed_to_id = none;
      renewed_from_id = some id;
    }

abbrev pub mark_renewed : ℕ → Tenancy → Tenancy
mark_renewed new_id t = record t { renewed_to_id = some new_id; sa_cycle_state = renewed }

-- The test of `_check_rent_freeze`, the constraint on the raise of the next rent.
abbrev pub breaks_freeze : Tenancy → Bool
breaks_freeze t =
    ltb 0 t.renewal_rent_increase_pct && is_some t.property_state && t.rent_freeze_active

unfoldable pub check_rent_freeze : Tenancy → Result RentalError Tenancy
check_rent_freeze t = if breaks_freeze t then err rent_is_frozen else ok t

-- `create(vals)`, and the write to the old tenancy after it.
abbrev pub create_renewal :
    ℕ → Tenancy → Result RentalError Tenancy → Result RentalError (Tenancy × Tenancy)
create_renewal new_id t (err e) = err e
create_renewal new_id t (ok new) = ok (mark_renewed new_id t, new)

-- `_do_renewal` on the tenancy `id`, where the new one becomes `new_id`: both as they are left. The
-- other constraint, on the dates, is met where the calendar moves on.
unfoldable pub do_renewal :
    Setting → Terms → ℕ → ℕ → Tenancy → Result RentalError (Tenancy × Tenancy)
unfolding build_renewal_vals check_rent_freeze
do_renewal s terms id new_id t =
    if is_some t.renewed_to_id
    then err already_renewed
    else create_renewal new_id t (check_rent_freeze (build_renewal_vals s terms id t))

-- `action_open_renewal_wizard`
unfoldable pub action_open_renewal_wizard : Tenancy → Result RentalError Tenancy
action_open_renewal_wizard t =
    if is_some t.renewed_to_id
    then err already_renewed
    else elim t.state [ draft_tenancy ↦ err not_renewable | running ↦ ok t | closed ↦ ok t ]

-- `action_renew` of the wizard, with the percentage that it shows.
unfoldable pub action_renew :
    Setting → ℕ → ℕ → ℕ → Option ℕ → ℕ → ℕ → Tenancy → Result RentalError (Tenancy × Tenancy)
unfolding do_renewal
action_renew s pct new_rent months start id new_id t =
    if t.rent_freeze_active && ltb 0 pct
    then err rent_is_frozen
    else if new_rent == 0
    then err rent_not_positive
    else if not (is_some start) || months == 0
    then err period_missing
    else do_renewal s
        (record { new_rent = some new_rent; period_months = months; new_start_date = start }) id
        new_id t

abbrev is_running : TenancyState → Bool
is_running running = true
is_running _ = false

-- Not past, and at most so many days ahead.
abbrev within : ℕ → ℕ → Option ℕ → Bool
within today notice none = false
within today notice (some e) = leb today e && leb (e - today) notice

-- The search and the test of `cron_auto_renew_tenancies`.
abbrev pub is_due : Setting → Tenancy → Bool
is_due s t =
    is_running t.state
    && t.auto_renew
    && not (is_some t.renewed_to_id)
    && within s.today (or_number t.renewal_notice_days 30) t.end_date

abbrev pub is_created : Setting → ℕ → Tenancy → Bool
unfolding build_renewal_vals
is_created s id t = is_due s t && s.creates (build_renewal_vals s automatic id t)

-- The loop, from the tenancy `id` on, where the next to be created is `new_id`: the tenancies as
-- they are left, and the new ones. A creation that raises leaves its tenancy alone; a row that it
-- inserted before a constraint failed is not followed.
pub renew_from : Setting → ℕ → ℕ → List Tenancy → List Tenancy × List Tenancy
unfolding is_created build_renewal_vals
renew_from s id new_id [] = ([], [])
renew_from s id new_id (t ∷ ts) =
    let created = is_created s id t in
    let rest = renew_from s (suc id) (if created then suc new_id else new_id) ts in
    if created
    then (mark_renewed new_id t ∷ rest.0, build_renewal_vals s automatic id t ∷ rest.1)
    else (t ∷ rest.0, rest.1)

abbrev pub joined : List Tenancy × List Tenancy → List Tenancy
joined p = p.0 ++ p.1

unfoldable pub cron_auto_renew_tenancies : Setting → List Tenancy → List Tenancy
unfolding renew_from
cron_auto_renew_tenancies s ts = joined (renew_from s 0 (length ts) ts)
