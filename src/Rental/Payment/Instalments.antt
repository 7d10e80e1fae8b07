-- ===== src/Rental/Payment/Instalments.antt =====
-- Instalments registered one after the other.
use native.Mathlib.Nat.{mul-pos}
use propza_amlak.Prelude.{
  ℕ, ◌+◌, ◌<◌, ◌≡◌, refl, ◌∙◌, sym, ap, Bool, true, false, Option, none, some, List, [], ◌∷◌, map,
  ◌&&◌, Result, ok, err, leb, ltb, arith, if◌then◌else◌, All, ◌==◌, Bool-cases, inl, inr,
}
use propza_amlak.Rental.Types.{paid, partial, Move, RentPayment, RentalError, amount_not_positive}
use propza_amlak.Rental.Payment.{
  Accounts, is_open, payment_fraction, mark_if_late, penalty_amount, action_mark_overdue,
  Registration, write_payment, registered, then_register, register_all, try_invoice, try_reconcile,
  create_payment_and_reconcile, action_create_invoice, action_register_payment,
}

-- What one registration leaves.
pub record Registered (w : Registration) (p q : RentPayment) : Type 0 where
  pub total : q.amount_paid ≡ p.amount_paid + w.amount_paid
  pub status : q.state ≡ (if leb p.amount q.amount_paid then paid else partial)
  pub same_amount : q.amount ≡ p.amount
  pub same_due : q.due_date ≡ p.due_date
  pub dated : q.payment_date ≡ some w.payment_date

-- The accounting leaves the payment's own fields alone, and replaces no invoice that is live.
pub record Untouched (p q : RentPayment) : Type 0 where
  pub same_total : q.amount_paid ≡ p.amount_paid
  pub same_state : q.state ≡ p.state
  pub amount : q.amount ≡ p.amount
  pub due : q.due_date ≡ p.due_date
  pub date : q.payment_date ≡ p.payment_date

pub create_invoice-Untouched :
    (acc : Accounts) (p : RentPayment) → Untouched p (action_create_invoice acc p).1
unfolding action_create_invoice
create_invoice-Untouched acc p = ground arith

try_invoice-Untouched :
    (acc : Accounts) (w : Registration) (p : RentPayment) → Untouched p (try_invoice acc w p)
unfolding try_invoice
try_invoice-Untouched acc w p = ground (arith, create_invoice-Untouched acc p)

pub create_payment_and_reconcile-Untouched :
    (acc : Accounts) (p : RentPayment) → Untouched p (create_payment_and_reconcile acc p)
unfolding create_payment_and_reconcile
create_payment_and_reconcile-Untouched acc p = ground arith

try_reconcile-Untouched :
    (acc : Accounts) (p : RentPayment) (o : Option Move) → Untouched p (try_reconcile acc p o)
unfolding try_reconcile
try_reconcile-Untouched acc p none = ground arith
try_reconcile-Untouched acc p (some m) =
    ground (arith, create_payment_and_reconcile-Untouched acc p)

write_payment-Registered : (w : Registration) (p : RentPayment) → Registered w p (write_payment w p)
write_payment-Registered w p = ground arith

Untouched-Registered :
    (w : Registration) (p q r : RentPayment) → Registered w p q → Untouched q r → Registered w p r
Untouched-Registered w p q r h u = ground arith

registered-Registered :
    (acc : Accounts) (w : Registration) (p : RentPayment) → Registered w p (registered acc w p)
unfolding registered
registered-Registered acc w p =
    let invoiced = try_invoice acc w (write_payment w p) in
    Untouched-Registered w p _ _
      (Untouched-Registered w p _ _ (write_payment-Registered w p)
        (try_invoice-Untouched acc w (write_payment w p)))
      (try_reconcile-Untouched acc invoiced invoiced.move_id)

abbrev IsPositive : Registration → Type 0
IsPositive w = 0 < w.amount_paid

-- The amounts of the registrations.
abbrev pub total_of : List Registration → ℕ
total_of [] = 0
total_of (w ∷ ws) = w.amount_paid + total_of ws

-- What registrations amount to, by their result: all amounts are positive, what is paid has grown
-- by their sum and the payment is paid or partial by whether that reaches its amount; or one of
-- them is zero, which is the error.
abbrev pub Settles : RentPayment → List Registration → Result RentalError RentPayment → Type 0
Settles p ws (ok q) =
    All IsPositive ws
    × (q.amount_paid ≡ p.amount_paid + total_of ws)
    × (q.amount ≡ p.amount)
    × (q.state ≡ (if leb q.amount q.amount_paid then paid else partial))
Settles p ws (err e) = (e ≡ amount_not_positive) × ¬ All IsPositive ws

step-Settles :
    (w v : Registration) (ws : List Registration) (p q : RentPayment)
    (r : Result RentalError RentPayment)
    → 0 < w.amount_paid
    → Registered w p q
    → Settles q (v ∷ ws) r
    → Settles p (w ∷ v ∷ ws) r
step-Settles w v ws p q (ok r) h g s = ground arith
step-Settles w v ws p q (err e) h g s = (s.0, λ a. s.1 a.1)

settle :
    (acc : Accounts) (w : Registration) (ws : List Registration) (p : RentPayment) (b : Bool)
    → (w.amount_paid == 0) ≡ b
    → Settles p (w ∷ ws) (
        then_register
          (if b then err amount_not_positive else ok (registered acc w p))
          (register_all acc ws))
unfolding register_all action_register_payment
settle acc w ws p true h = (refl, λ a. ground arith)
settle acc w [] p false h =
    let r = registered-Registered acc w p in
    (
      (ground arith, tt),
      r.total ∙ omega arith,
      r.same_amount,
      r.status ∙ same_test (registered acc w p).amount_paid r.same_amount,
    )
  where
    same_test :
        {a b : ℕ} (c : ℕ)
        → b ≡ a
        → (if leb a c then paid else partial) ≡ (if leb b c then paid else partial)
    same_test c e = ap (λ x. if leb x c then paid else partial) (sym e)
settle acc w (v ∷ vs) p false h =
    step-Settles w v vs p (registered acc w p) _ (ground arith) (registered-Registered acc w p)
      (settle acc v vs (registered acc w p) (v.amount_paid == 0) refl)

-- What the accounting keeps: the number of an invoice that is reconciled.
abbrev pub KeepsNumber : Accounts → Type 0
KeepsNumber acc = (m : Move) (f : ℕ × ℕ) → (acc.reconcile m f).number ≡ m.number

abbrev pub number_of : Option Move → Option ℕ
number_of none = none
number_of (some m) = some m.number

write_payment-move : (w : Registration) (p : RentPayment) → (write_payment w p).move_id ≡ p.move_id
write_payment-move w p = ground arith

try_invoice-move :
    (acc : Accounts) (w : Registration) (p : RentPayment) {m : Move}
    → p.move_id ≡ some m
    → (try_invoice acc w p).move_id ≡ some m
unfolding try_invoice
try_invoice-move acc w p h = ground arith

create_payment_and_reconcile-move :
    (acc : Accounts) (p : RentPayment) (m : Move)
    → KeepsNumber acc
    → p.move_id ≡ some m
    → number_of (create_payment_and_reconcile acc p).move_id ≡ some m.number
unfolding create_payment_and_reconcile
create_payment_and_reconcile-move acc p m k h = ground (arith, k m (payment_fraction p m))

try_reconcile-move :
    (acc : Accounts) (p : RentPayment) (o : Option Move) (m : Move)
    → KeepsNumber acc
    → p.move_id ≡ some m
    → number_of (try_reconcile acc p o).move_id ≡ some m.number
unfolding try_reconcile
try_reconcile-move acc p none m k h = ap number_of h
try_reconcile-move acc p (some n) m k h =
    ground (arith, create_payment_and_reconcile-move acc p m k h)

-- A payment that has an invoice keeps it through the wizard where reconciling an invoice keeps its
-- number.
pub registered-invoice :
    (acc : Accounts) (w : Registration) (p : RentPayment) (m : Move)
    → KeepsNumber acc
    → p.move_id ≡ some m
    → number_of (registered acc w p).move_id ≡ some m.number
unfolding registered
registered-invoice acc w p m k h =
    try_reconcile-move acc (try_invoice acc w (write_payment w p))
      (try_invoice acc w (write_payment w p)).move_id m k
      (try_invoice-move acc w (write_payment w p) (write_payment-move w p ∙ h))

no_penalty : (today : ℕ) (p : RentPayment) → penalty_amount today (mark_if_late today p) ≡ 0
no_penalty today p = elim (Bool-cases (is_open p.state && ltb p.due_date today)) [
  | inl h ↦ ground arith
  | inr h ↦ ground arith
]

All-no_penalty :
    (today : ℕ) (ps : List RentPayment)
    → All (λ q. penalty_amount today q ≡ 0) (map (mark_if_late today) ps)
All-no_penalty today [] = tt
All-no_penalty today (p ∷ ps) = (no_penalty today p, All-no_penalty today ps)

-- The nightly job takes the penalty away that it should bring: a payment that is late, open and
-- of a positive amount has a penalty before it and none after.
mark_overdue-penalty :
    (today : ℕ) (p : RentPayment) (ps : List RentPayment)
    → is_open p.state ≡ true
    → p.due_date < today
    → 0 < p.amount
    → (0 < penalty_amount today p)
      × All (λ q. penalty_amount today q ≡ 0) (action_mark_overdue today (p ∷ ps))
unfolding action_mark_overdue
mark_overdue-penalty today p ps o l a =
    (rw o (mul-pos a (ground arith)), (no_penalty today p, All-no_penalty today ps))
