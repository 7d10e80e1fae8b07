-- ===== src/Rental/Schedule/Generated.antt =====
-- What `action_generate_payment_schedule` leaves on the tenancy.
use mathlib.Core.List.{append-nil}
use mathlib.Core.Path.{subst}
use propza_amlak.Prelude.{
  ℕ, ◌<◌, ◌≡◌, refl, sym, ap, ◌∙◌, false, Bool-cases, inl, inr, some, List, [], ◌∷◌, ◌++◌, map, ok,
  ok-injective, arith, ◌==◌,
}
use propza_amlak.Rental.Types.{
  rent, RentPayment, Schedule, monthly, quarterly, semi_annual, annual, one_time, confirmed,
  Tenancy,
}
use propza_amlak.Rental.Schedule.{
  Calendar, is_unpaid, without_unpaid, new_payment, interval, get_period_amount, due_dates, rounds,
  rent_payments, with_deposit, payments_data, generate_between, or_monthly,
  action_generate_payment_schedule,
}
use propza_amlak.Rental.Schedule.Dates.{MovesOn, Progression, due_dates-Progression}

-- The tenancy repeats its payments with a schedule, which is monthly where none is set.
abbrev pub Repeats : Tenancy → Schedule → Type 0
Repeats t s = (or_monthly t.sa_payment_schedule ≡ s) × (0 < interval s)

repeat_payments :
    (cal : Calendar) (s : Schedule) (amount start finish : ℕ)
    → 0 < interval s
    → rent_payments cal s amount start finish
      ≡ map
          (new_payment rent (get_period_amount amount s))
          (due_dates cal (interval s) (rounds start finish) start finish)
unfolding rent_payments
repeat_payments cal monthly amount start finish h = refl
repeat_payments cal quarterly amount start finish h = refl
repeat_payments cal semi_annual amount start finish h = refl
repeat_payments cal annual amount start finish h = refl
repeat_payments cal one_time amount start finish h = absurd (omega arith)

-- The tenancy with some payments, confirmed.
abbrev pub confirmed_with : Tenancy → List RentPayment → Tenancy
confirmed_with t ps = record t { sa_payment_ids = ps; sa_cycle_state = confirmed }

generated :
    (cal : Calendar) (t : Tenancy) (start finish : ℕ)
    → t.start_date ≡ some start
    → t.end_date ≡ some finish
    → 0 < t.rent_amount
    → action_generate_payment_schedule cal t
      ≡ ok (confirmed_with t (without_unpaid t.sa_payment_ids ++ payments_data cal start finish t))
unfolding action_generate_payment_schedule generate_between
generated cal t start finish a b r = simp (a, b) (rw (rent_set t.rent_amount r) refl)
  where
    rent_set : (n : ℕ) → 0 < n → (n == 0) ≡ false
    rent_set n h = ground arith

-- Where a later month is a later day, a schedule that repeats is generated for a tenancy with dates and a rent: one pending payment of
-- the period's amount for each due date, from the first day on and a period apart, up to the last
-- that the tenancy reaches, behind the deposit if there is one, and behind the payments of before
-- that are neither pending nor overdue, which are kept. This is so however many periods there are.
pub generate-Progression :
    (cal : Calendar) (t : Tenancy) (s : Schedule) (start finish : ℕ)
    → MovesOn cal
    → Repeats t s
    → t.start_date ≡ some start
    → t.end_date ≡ some finish
    → 0 < t.rent_amount
    → (due : List ℕ) × Progression cal (interval s) finish start due
      × (action_generate_payment_schedule cal t
          ≡ ok (
              confirmed_with t (
                without_unpaid t.sa_payment_ids
                ++ with_deposit t.deposit_amount start
                    (map (new_payment rent (get_period_amount t.rent_amount s)) due))))
generate-Progression cal t s start finish m (e, p) a b r = (
  due_dates cal (interval s) (rounds start finish) start finish,
  due_dates-Progression cal (interval s) (rounds start finish) start finish m p (omega arith),
  generated cal t start finish a b r
      ∙ ap
          (λ ps. ok (
            confirmed_with t
              (without_unpaid t.sa_payment_ids ++ with_deposit t.deposit_amount start ps)))
          (ap (λ x. rent_payments cal x t.rent_amount start finish) e
            ∙ repeat_payments cal s t.rent_amount start finish p),
)

without_unpaid-append :
    (ps qs : List RentPayment) → without_unpaid (ps ++ qs) ≡ without_unpaid ps ++ without_unpaid qs
unfolding without_unpaid
without_unpaid-append [] qs = refl
without_unpaid-append (p ∷ ps) qs = elim (Bool-cases (is_unpaid p.state)) [
  | inl h ↦ rw h (without_unpaid-append ps qs)
  | inr h ↦ rw h (ap (λ l. p ∷ l) (without_unpaid-append ps qs))
]

without_unpaid_twice :
    (ps : List RentPayment) → without_unpaid (without_unpaid ps) ≡ without_unpaid ps
unfolding without_unpaid
without_unpaid_twice [] = refl
without_unpaid_twice (p ∷ ps) = elim (Bool-cases (is_unpaid p.state)) [
  | inl h ↦ rw h (without_unpaid_twice ps)
  | inr h ↦ rw (h, h) (ap (λ l. p ∷ l) (without_unpaid_twice ps))
]

without_unpaid-new :
    (amount : ℕ) (due : List ℕ) → without_unpaid (map (new_payment rent amount) due) ≡ []
unfolding without_unpaid
without_unpaid-new amount [] = refl
without_unpaid-new amount (d ∷ due) = without_unpaid-new amount due

without_unpaid-rent :
    (cal : Calendar) (s : Schedule) (amount start finish : ℕ)
    → without_unpaid (rent_payments cal s amount start finish) ≡ []
unfolding without_unpaid rent_payments
without_unpaid-rent cal one_time amount start finish = refl
without_unpaid-rent cal s amount start finish =
    without_unpaid-new (get_period_amount amount s)
      (due_dates cal (interval s) (rounds start finish) start finish)

without_unpaid-deposit :
    (amount start : ℕ) (ps : List RentPayment)
    → without_unpaid (with_deposit amount start ps) ≡ without_unpaid ps
unfolding without_unpaid
without_unpaid-deposit amount start ps = ground arith

-- The kept payments are kept again, and the new ones are replaced by themselves.
kept_again :
    (cal : Calendar) (t : Tenancy) (start finish : ℕ)
    → without_unpaid (without_unpaid t.sa_payment_ids ++ payments_data cal start finish t)
      ≡ without_unpaid t.sa_payment_ids
kept_again cal t start finish =
    without_unpaid-append (without_unpaid t.sa_payment_ids) (payments_data cal start finish t)
    ∙ ap (λ l. without_unpaid (without_unpaid t.sa_payment_ids) ++ l)
        (without_unpaid-deposit t.deposit_amount start _
          ∙ without_unpaid-rent cal (or_monthly t.sa_payment_schedule) t.rent_amount start finish)
    ∙ append-nil _
    ∙ without_unpaid_twice t.sa_payment_ids

-- Generating the schedule of a tenancy with dates and a rent again, with no payment made in
-- between, changes nothing:
-- no payment is lost and none is created twice.
generate_again :
    (cal : Calendar) (t : Tenancy) (start finish : ℕ) {d : Tenancy}
    → t.start_date ≡ some start
    → t.end_date ≡ some finish
    → 0 < t.rent_amount
    → action_generate_payment_schedule cal t ≡ ok d
    → action_generate_payment_schedule cal d ≡ ok d
generate_again cal t start finish {d} a b r h =
    let c =
      confirmed_with t (without_unpaid t.sa_payment_ids ++ payments_data cal start finish t) in
    subst (λ x. action_generate_payment_schedule cal x ≡ ok x)
      (ok-injective (sym (generated cal t start finish a b r) ∙ h))
      (generated cal c start finish a b r
        ∙ ap (λ l. ok (confirmed_with t (l ++ payments_data cal start finish t)))
            (kept_again cal t start finish))
