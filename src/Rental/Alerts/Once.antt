-- ===== src/Rental/Alerts/Once.antt =====
-- That a tenancy is alerted of its end once.
use mathlib.Core.Path.{subst}
use propza_amlak.Prelude.{
  ℕ, zero, suc, ◌+◌, ◌≤◌, ◌<◌, ◌==◌, ◌≡◌, refl, ap, ◌∙◌, Bool, true, false, Bool-cases, inl, inr,
  ◌&&◌, Option, none, some, List, [], ◌∷◌, ◌++◌, if◌then◌else◌, arith,
}
use propza_amlak.Ejar.Lifecycle.World.{nth}
use propza_amlak.Rental.Types.{Tenancy}
use propza_amlak.Rental.Alerts.{
  AlertType, expiry_30, expiry_14, overdue_payment, ejar_expire, Alert, same_type, is_of, existing,
  new_alert, alert, is_running, by_end, check, check_from, cron_check_expiry_alerts,
}

-- The number of active alerts of a tenancy and a type.
abbrev pub active_alerts : ℕ → AlertType → List Alert → ℕ
active_alerts i ty [] = 0
active_alerts i ty (a ∷ xs) =
    let rest = active_alerts i ty xs in if is_of i ty a then suc rest else rest

-- The alert that a tenancy is due on a day.
abbrev pub ends_in : ℕ → ℕ → Option ℕ → Bool
ends_in days today none = false
ends_in days today (some e) = e == today + days

abbrev pub wants : ℕ → Tenancy → AlertType → Bool
wants today t expiry_30 = is_running t.state && ends_in 30 today t.end_date
wants today t expiry_14 = is_running t.state && ends_in 14 today t.end_date
wants today t overdue_payment = false
wants today t ejar_expire = false

active_alerts-append :
    (i : ℕ) (ty : AlertType) (xs bs : List Alert)
    → active_alerts i ty (xs ++ bs) ≡ active_alerts i ty xs + active_alerts i ty bs
active_alerts-append i ty [] bs = omega arith
active_alerts-append i ty (a ∷ xs) bs = ground (arith, active_alerts-append i ty xs bs)

existing-active_alerts :
    (i : ℕ) (ty : AlertType) (xs : List Alert) → existing i ty xs ≡ true → 1 ≤ active_alerts i ty xs
unfolding existing
existing-active_alerts i ty [] h = absurd (ground arith)
existing-active_alerts i ty (a ∷ xs) h = ground (arith, existing-active_alerts i ty xs)

none-active_alerts :
    (i : ℕ) (ty : AlertType) (xs : List Alert)
    → existing i ty xs ≡ false
    → active_alerts i ty xs ≡ 0
unfolding existing
none-active_alerts i ty [] h = refl
none-active_alerts i ty (a ∷ xs) h = ground (arith, none-active_alerts i ty xs)

same_type_refl : (ty : AlertType) → same_type ty ty ≡ true
same_type_refl ty = ground arith

-- An alert is given where none is active.
alert-own :
    (i : ℕ) (ty : AlertType) (xs : List Alert)
    → active_alerts i ty xs ≤ 1
    → active_alerts i ty (alert i ty xs) ≡ 1
unfolding alert
alert-own i ty xs h = elim (Bool-cases (existing i ty xs)) [
  | inl e ↦ rw e (omega (arith, existing-active_alerts i ty xs e))
  | inr e ↦ rw e (
      active_alerts-append i ty xs (new_alert i ty ∷ [])
      ∙ ground (arith, none-active_alerts i ty xs e, same_type_refl ty))
]

alert-other :
    (i j : ℕ) (ty uy : AlertType) (xs : List Alert)
    → (j == i && same_type uy ty) ≡ false
    → active_alerts i ty (alert j uy xs) ≡ active_alerts i ty xs
unfolding alert
alert-other i j ty uy xs h = elim (Bool-cases (existing j uy xs)) [
  | inl e ↦ rw e refl
  | inr e ↦ rw e (active_alerts-append i ty xs (new_alert j uy ∷ []) ∙ ground arith)
]

by_end-own :
    (today i : ℕ) (ty : AlertType) (o : Option ℕ) (t : Tenancy) (xs : List Alert)
    → t.end_date ≡ o
    → is_running t.state ≡ true
    → active_alerts i ty xs ≤ 1
    → active_alerts i ty (by_end today i o xs)
      ≡ (if wants today t ty then 1 else active_alerts i ty xs)
by_end-own today i ty none t xs e r h = ground arith
by_end-own today i expiry_30 (some d) t xs e r h =
    ground (arith, alert-own i expiry_30 xs h, alert-other i i expiry_30 expiry_14 xs)
by_end-own today i expiry_14 (some d) t xs e r h =
    ground (arith, alert-own i expiry_14 xs h, alert-other i i expiry_14 expiry_30 xs)
by_end-own today i overdue_payment (some d) t xs e r h = ground (
  arith,
  alert-other i i overdue_payment expiry_30 xs,
  alert-other i i overdue_payment expiry_14 xs,
)
by_end-own today i ejar_expire (some d) t xs e r h =
    ground
      (arith, alert-other i i ejar_expire expiry_30 xs, alert-other i i ejar_expire expiry_14 xs)

not_running :
    (today : ℕ) (ty : AlertType) (t : Tenancy)
    → is_running t.state ≡ false
    → wants today t ty ≡ false
not_running today ty t h = ground arith

check-own :
    (today i : ℕ) (ty : AlertType) (t : Tenancy) (xs : List Alert)
    → active_alerts i ty xs ≤ 1
    → active_alerts i ty (check today i t xs)
      ≡ (if wants today t ty then 1 else active_alerts i ty xs)
check-own today i ty t xs h = elim (Bool-cases (is_running t.state)) [
  | inl r ↦ rw r (by_end-own today i ty t.end_date t xs refl r h)
  | inr r ↦ rw r (rw (not_running today ty t r) refl)
]

by_end-other :
    (today i j : ℕ) (ty : AlertType) (o : Option ℕ) (xs : List Alert)
    → (i == j) ≡ false
    → active_alerts j ty (by_end today i o xs) ≡ active_alerts j ty xs
by_end-other today i j ty none xs h = refl
by_end-other today i j ty (some d) xs h =
    ground (arith, alert-other j i ty expiry_30 xs, alert-other j i ty expiry_14 xs)

check-other :
    (today i j : ℕ) (ty : AlertType) (t : Tenancy) (xs : List Alert)
    → (i == j) ≡ false
    → active_alerts j ty (check today i t xs) ≡ active_alerts j ty xs
check-other today i j ty t xs h = ground (arith, by_end-other today i j ty t.end_date xs)

-- Later tenancies leave the alerts of an earlier one.
check_from-earlier :
    (today i j : ℕ) (ty : AlertType) (ts : List Tenancy) (xs : List Alert)
    → j < i
    → active_alerts j ty (check_from today i ts xs) ≡ active_alerts j ty xs
unfolding check_from
check_from-earlier today i j ty [] xs h = refl
check_from-earlier today i j ty (t ∷ ts) xs h =
    check_from-earlier today (suc i) j ty ts (check today i t xs) (omega (arith, h))
    ∙ check-other today i j ty t xs (ground arith)

same_tenancy : (u t : Tenancy) → some u ≡ some t → u ≡ t
same_tenancy u t h = cc

-- The tenancy at a place gets the alert that it wants.
check_from-own :
    (today i k j : ℕ) (ty : AlertType) (ts : List Tenancy) (xs : List Alert) {t : Tenancy}
    → j ≡ i + k
    → nth ts k ≡ some t
    → active_alerts j ty xs ≤ 1
    → active_alerts j ty (check_from today i ts xs)
      ≡ (if wants today t ty then 1 else active_alerts j ty xs)
unfolding check_from
check_from-own today i k j ty [] xs e n h = absurd (ground arith)
check_from-own today i zero j ty (u ∷ ts) xs {t} e n h =
    let here =
      subst
        (λ m.
          active_alerts m ty xs ≤ 1
          → active_alerts m ty (check today i u xs)
            ≡ (if wants today u ty then 1 else active_alerts m ty xs))
        (ground arith) (check-own today i ty u xs) h in
    check_from-earlier today (suc i) j ty ts (check today i u xs) (omega (arith, e))
    ∙ here
    ∙ ap (λ v. if wants today v ty then 1 else active_alerts j ty xs) (same_tenancy u t n)
check_from-own today i (suc k) j ty (u ∷ ts) xs {t} e n h =
    let there = check-other today i j ty u xs (ground (arith, e)) in
    check_from-own today (suc i) k j ty ts (check today i u xs) (omega (arith, e)) n (rw there h)
    ∙ ap (λ x. if wants today t ty then 1 else x) there

-- The daily run, on a tenancy with one active alert of a type at most: afterwards it has exactly one
-- of the type if it runs and ends in the 30 days, or the 14, that the type says, and as many as
-- before otherwise; so that it has never more than one, however often the run is made on a day.
pub cron_check-active_alerts :
    (today j : ℕ) (ty : AlertType) (ts : List Tenancy) (xs : List Alert) {t : Tenancy}
    → nth ts j ≡ some t
    → active_alerts j ty xs ≤ 1
    → active_alerts j ty (cron_check_expiry_alerts today ts xs)
      ≡ (if wants today t ty then 1 else active_alerts j ty xs)
unfolding cron_check_expiry_alerts
cron_check-active_alerts today j ty ts xs n h =
    check_from-own today 0 j j ty ts xs (omega arith) n h
