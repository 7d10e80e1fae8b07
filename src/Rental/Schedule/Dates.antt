-- ===== src/Rental/Schedule/Dates.antt =====
-- The loop over the due dates, against a description of it without a bound.
use propza_amlak.Prelude.{
  ℕ, zero, suc, ◌+◌, ◌≤◌, ◌<◌, Bool-cases, inl, inr, List, [], ◌∷◌, arith, leb,
}
use propza_amlak.Rental.Schedule.{Calendar, due_dates}

-- Documented of relativedelta: a positive number of months later is a later day.
abbrev pub MovesOn : Calendar → Type 0
MovesOn cal = (d n : ℕ) → 0 < n → d < cal.plus_months d n

-- The dates from `current` on, each a step after the one before, up to the last that is not after
-- `finish`.
pub data Progression (cal : Calendar) (step finish : ℕ) : ℕ → List ℕ → Type 0 where
  over : (current : ℕ) → finish < current → Progression cal step finish current []
  next :
      (current : ℕ) {rest : List ℕ}
      → current ≤ finish
      → Progression cal step finish (cal.plus_months current step) rest
      → Progression cal step finish current (current ∷ rest)

pub due_dates-Progression :
    (cal : Calendar) (step f current finish : ℕ)
    → MovesOn cal
    → 0 < step
    → suc finish ≤ f + current
    → Progression cal step finish current (due_dates cal step f current finish)
unfolding due_dates
due_dates-Progression cal step zero current finish m s h = over current (omega arith)
due_dates-Progression cal step (suc f) current finish m s h =
    elim (Bool-cases (leb current finish)) [
      | inl b ↦ rw b (
          next current (ground arith) (
            due_dates-Progression cal step f (cal.plus_months current step) finish m s
              (omega (arith, m current step s))))
      | inr b ↦ rw b (over current (ground arith))
    ]
