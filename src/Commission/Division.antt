-- ===== src/Commission/Division.antt =====
-- The lines of a commission that is confirmed, and their sum.
use native.Mathlib.Nat.{mul-pos, mul-div_cancel}
use propza_amlak.Prelude.{
  ℕ, zero, suc, ◌+◌, ◌*◌, ◌/◌, ◌<◌, ◌≡◌, refl, sym, ap, ◌∙◌, false, List, [], ◌∷◌, All, ok, arith,
}
use propza_amlak.Rental.Schedule.{Calendar}
use propza_amlak.Commission.{
  pending_line, Line, PaymentSchedule, on_signup, monthly, split, Commission, confirmed,
  commission_amount, any_paid, paid_lines, monthly_lines, duration_months, new_lines,
  generate_lines, action_confirm,
}

-- The sum of the amounts, as a quotient.
abbrev pub total : List Line → ℕ × ℕ
total [] = (0, 1)
total (l ∷ ls) =
    let rest = total ls in (l.amount.0 * rest.1 + rest.0 * l.amount.1, l.amount.1 * rest.1)

-- The lines are pending and amount to `amount` in sum.
abbrev pub Divides : ℕ → List Line → Type 0
Divides amount ls =
    (0 < (total ls).1)
    × ((total ls).0 ≡ amount * (total ls).1)
    × All (λ l. l.state ≡ pending_line) ls

-- The sum of `n` of `parts` equal parts is `n` times the amount over `parts`.
monthly_total :
    (cal : Calendar) (amount parts start i n : ℕ)
    → 0 < parts
    → let t = total (monthly_lines cal amount parts start i n) in
      (0 < t.1) × (t.0 * parts ≡ n * amount * t.1)
unfolding monthly_lines
monthly_total cal amount parts start i zero p = (omega arith, omega arith)
monthly_total cal amount parts start i (suc n) p =
    let (q, e) = monthly_total cal amount parts start (suc i) n p in
    let t = total (monthly_lines cal amount parts start (suc i) n) in (mul-pos p q, step t.0 t.1 e)
  where
    step :
        (x d : ℕ)
        → x * parts ≡ n * amount * d
        → (amount * d + x * parts) * parts ≡ suc n * amount * (parts * d)
    step x d e = ap (λ y. (amount * d + y) * parts) e ∙ omega arith

mul_right_cancel : (x y : ℕ) {p : ℕ} → 0 < p → x * p ≡ y * p → x ≡ y
mul_right_cancel x y {p} h e = sym (mul-div_cancel x h) ∙ ap (λ n. n / p) e ∙ mul-div_cancel y h

monthly-pending :
    (cal : Calendar) (amount parts start i n : ℕ)
    → All (λ l. l.state ≡ pending_line) (monthly_lines cal amount parts start i n)
unfolding monthly_lines
monthly-pending cal amount parts start i zero = tt
monthly-pending cal amount parts start i (suc n) =
    (refl, monthly-pending cal amount parts start (suc i) n)

monthly-Divides :
    (cal : Calendar) (amount start n : ℕ)
    → 0 < n
    → Divides amount (monthly_lines cal amount n start 0 n)
monthly-Divides cal amount start n h =
    let (q, e) = monthly_total cal amount n start 0 n h in
    let t = total (monthly_lines cal amount n start 0 n) in
    (
      q,
      mul_right_cancel t.0 (amount * t.1) h (e ∙ swap t.1),
      monthly-pending cal amount n start 0 n,
    )
  where
    swap : (d : ℕ) → n * amount * d ≡ amount * d * n
    swap d = omega arith

duration-pos : (c : Commission) → 0 < duration_months c
duration-pos c = ground arith

new_lines-Divides :
    (cal : Calendar) (c : Commission) (s : PaymentSchedule)
    → Divides (commission_amount c) (new_lines cal c s)
unfolding new_lines
new_lines-Divides cal c on_signup = (omega arith, omega arith, (refl, tt))
new_lines-Divides cal c split = (omega arith, omega arith, (refl, (refl, tt)))
new_lines-Divides cal c monthly =
    monthly-Divides cal (commission_amount c) c.date_signed (duration_months c) (duration-pos c)

paid_lines-none : (ls : List Line) → any_paid ls ≡ false → paid_lines ls ≡ []
unfolding any_paid paid_lines
paid_lines-none [] h = refl
paid_lines-none (l ∷ ls) h = ground (arith, paid_lines-none ls)

-- Confirming a draft of which no line is paid, when it succeeds, leaves lines that are all pending
-- and whose amounts, taken as exact quotients, add up to the commission, whichever the schedule is: at signing, in two
-- halves or over the months of the tenancy.
pub confirm-Divides :
    (cal : Calendar) (c : Commission) {d : Commission}
    → any_paid c.line_ids ≡ false
    → action_confirm cal c ≡ ok d
    → Divides (commission_amount c) d.line_ids × (d.state ≡ confirmed)
unfolding action_confirm generate_lines
confirm-Divides cal c {d} n h =
    ground (arith, paid_lines-none c.line_ids n, new_lines-Divides cal c c.payment_schedule)
