-- ===== src/Rental/Renewal/Wizard.antt =====
-- wizard/sa_tenancy_renewal_wizard.py: what the dialog shows when it opens, and that confirming it
-- unchanged is the automatic renewal.
use propza_amlak.Prelude.{
  ℕ, ◌+◌, ◌-◌, ◌≡◌, ◌≢◌, refl, ap, ◌∙◌, Bool, false, ◌&&◌, Option, none, some, is_some, Result, err,
  ltb, ◌==◌, if◌then◌else◌, arith,
}
use propza_amlak.Rental.Types.{Tenancy, RentalError, already_renewed}
use propza_amlak.Rental.Renewal.{
  Setting, automatic, or_number, start_of, build_renewal_vals, create_renewal, check_rent_freeze,
  do_renewal, action_renew,
}

pub record RenewalWizard : Type 0 where
  pub new_start_date : Option ℕ
  pub period_months : ℕ
  pub rent_increase_pct : ℕ
  pub new_rent : ℕ

-- `_compute_default_dates`
abbrev pub default_start : ℕ → Option ℕ → ℕ
default_start today none = today
default_start today (some e) = e + 1

-- `_compute_default_increase`
abbrev pub default_increase : Tenancy → ℕ
default_increase t = if t.rent_freeze_active then 0 else t.renewal_rent_increase_pct

-- The defaults of the dialog, with `_compute_default_period` and `_compute_new_rent`.
unfoldable pub open_wizard : Setting → Tenancy → RenewalWizard
open_wizard s t = record {
  new_start_date = some (default_start s.today t.end_date);
  period_months = or_number t.renewal_period_months 12;
  rent_increase_pct = default_increase t;
  new_rent = s.raised t.rent_amount (default_increase t);
}

-- `_compute_new_end_date`
abbrev pub new_end_date : Setting → Option ℕ → ℕ → Option ℕ
new_end_date s none months = none
new_end_date s (some d) months =
    if months == 0 then none else some (s.calendar.plus_months d months - 1)

-- `_compute_freeze_warning`
abbrev pub rent_freeze_warning : Tenancy → RenewalWizard → Bool
rent_freeze_warning t w = t.rent_freeze_active && ltb 0 w.rent_increase_pct

-- `action_renew` on the dialog.
abbrev pub confirm :
    Setting → ℕ → ℕ → RenewalWizard → Tenancy → Result RentalError (Tenancy × Tenancy)
unfolding action_renew
confirm s id new_id w t =
    action_renew s w.rent_increase_pct w.new_rent w.period_months w.new_start_date id new_id t

default_period : (n : ℕ) → (or_number n 12 == 0) ≡ false
default_period n = ground arith

default_warning : (s : Setting) (t : Tenancy) → rent_freeze_warning t (open_wizard s t) ≡ false
unfolding open_wizard
default_warning s t = ground arith

same_start :
    (s : Setting) (months : ℕ) (r : Option ℕ) (o : Option ℕ)
    → start_of s
        (record {
          new_rent = r;
          period_months = months;
          new_start_date = some (default_start s.today o);
        })
        o
      ≡ start_of s automatic o
same_start s months r none = refl
same_start s months r (some e) = refl

same_period : (n : ℕ) → or_number (or_number n 12) (or_number n 12) ≡ or_number n 12
same_period n = ground arith

-- The terms of the dialog as it opens give the tenancy of the automatic renewal.
same_vals :
    (s : Setting) (id : ℕ) (t : Tenancy)
    → build_renewal_vals s
        (record {
          new_rent = some (s.raised t.rent_amount (default_increase t));
          period_months = or_number t.renewal_period_months 12;
          new_start_date = some (default_start s.today t.end_date);
        })
        id
        t
      ≡ build_renewal_vals s automatic id t
unfolding build_renewal_vals
same_vals s id t =
    rw
      (same_start s (or_number t.renewal_period_months 12)
        (some (s.raised t.rent_amount (default_increase t))) t.end_date)
      (rw (same_period t.renewal_period_months) refl)

start_shown : (s : Setting) (o : Option ℕ) → start_of s automatic o ≡ default_start s.today o
start_shown s none = refl
start_shown s (some e) = refl

not_zero : (n : ℕ) → n ≢ 0 → (n == 0) ≡ false
not_zero n h = ground arith

-- None of three guards refuses.
passes :
    (a b c : Bool) (x y z : RentalError) (r : Result RentalError (Tenancy × Tenancy))
    → a ≡ false
    → b ≡ false
    → c ≡ false
    → (if a then err x else if b then err y else if c then err z else r) ≡ r
passes a b c x y z r h k l = ground arith

same_renewal :
    (s : Setting) (id new_id : ℕ) (t : Tenancy)
    → do_renewal s
        (record {
          new_rent = some (s.raised t.rent_amount (default_increase t));
          period_months = or_number t.renewal_period_months 12;
          new_start_date = some (default_start s.today t.end_date);
        })
        id
        new_id
        t
      ≡ do_renewal s automatic id new_id t
unfolding do_renewal
same_renewal s id new_id t =
    ap
      (λ v.
        if is_some t.renewed_to_id
        then err already_renewed
        else create_renewal new_id t (check_rent_freeze v))
      (same_vals s id t)

confirm-default :
    (s : Setting) (id new_id : ℕ) (t : Tenancy)
    → (open_wizard s t).new_rent ≢ 0
    → confirm s id new_id (open_wizard s t) t ≡ do_renewal s automatic id new_id t
unfolding open_wizard action_renew
confirm-default s id new_id t n =
    passes (rent_freeze_warning t (open_wizard s t))
      (s.raised t.rent_amount (default_increase t) == 0) (or_number t.renewal_period_months 12 == 0)
      _ _ _ _ (default_warning s t) (not_zero (s.raised t.rent_amount (default_increase t)) n)
      (default_period t.renewal_period_months)
    ∙ same_renewal s id new_id t

-- Confirming the dialog as it opens, where its rent is not 0, does what the automatic renewal does,
-- its refusals included: none is added by the dialog's own checks. The last day that the dialog shows
-- is that of the tenancy that is to be created.
pub confirm-automatic :
    (s : Setting) (id new_id : ℕ) (t : Tenancy)
    → (open_wizard s t).new_rent ≢ 0
    → (confirm s id new_id (open_wizard s t) t ≡ do_renewal s automatic id new_id t)
      × ((build_renewal_vals s automatic id t).end_date
          ≡ new_end_date s (open_wizard s t).new_start_date (open_wizard s t).period_months)
unfolding open_wizard build_renewal_vals
confirm-automatic s id new_id t n = (
  confirm-default s id new_id t n,
  rw (default_period t.renewal_period_months) (
      ap (λ d. some (s.calendar.plus_months d (or_number t.renewal_period_months 12) - 1))
        (start_shown s t.end_date)),
)
