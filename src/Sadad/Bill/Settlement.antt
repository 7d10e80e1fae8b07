-- ===== src/Sadad/Bill/Settlement.antt =====
-- What a call of the webhook does to the rent payment behind the bill.
use propza_amlak.Prelude.{
  ℕ, ◌≡◌, ◌≢◌, sym, ◌∙◌, true, false, Bool-cases, inl, inr, Option, none, some, List, [], ◌∷◌,
  String, is_set, Result, ok, err, arith, if◌then◌else◌,
}
use text.Mathlib.Text.{◌==◌ as str_eq}
use propza_amlak.Rental.Types.{paid, RentPayment, RentalError}
use propza_amlak.Rental.Payment.{Accounts, action_create_invoice}
use propza_amlak.Rental.Payment.Instalments.{
  Untouched, create_invoice-Untouched, create_payment_and_reconcile-Untouched,
}
use propza_amlak.Sadad.Bill.{
  paid_bill, cancelled_bill, Bill, is_payable, is_received, reconcile_after, invoice_and_reconcile,
  settle, mark_paid, success, raises, Request, answer, find_and_pay, sadad_webhook,
}
use propza_amlak.Sadad.Bill.Payment.{answer-number}

-- The first bill with a number.
abbrev pub first_bill : String → List Bill → Option Bill
first_bill number [] = none
first_bill number (b ∷ bs) =
    let rest = first_bill number bs in if str_eq b.bill_number number then some b else rest

-- The bill is paid, and its rent payment in full.
abbrev pub IsPaidInFull : Bill → Type 0
IsPaidInFull b =
    (b.state ≡ paid_bill)
    × (b.rent_payment.state ≡ paid)
    × (b.rent_payment.amount_paid ≡ b.rent_payment.amount)

Untouched-refl : (p : RentPayment) → Untouched p p
Untouched-refl p = ground arith

Untouched-trans : (p q r : RentPayment) → Untouched p q → Untouched q r → Untouched p r
Untouched-trans p q r h k = ground arith

reconcile_after-Untouched :
    (acc : Accounts) (p : RentPayment) (r : Result RentalError (Unit {0}) × RentPayment)
    → Untouched p r.1
    → Untouched p (reconcile_after acc r)
unfolding reconcile_after
reconcile_after-Untouched acc p (err e, q) u = u
reconcile_after-Untouched acc p (ok x, q) u = elim (Bool-cases (is_received q)) [
  | inl h ↦ rw h (Untouched-trans p q _ u (create_payment_and_reconcile-Untouched acc q))
  | inr h ↦ rw h u
]

invoice_and_reconcile-Untouched :
    (acc : Accounts) (p : RentPayment) → Untouched p (invoice_and_reconcile acc p)
unfolding invoice_and_reconcile
invoice_and_reconcile-Untouched acc p =
    reconcile_after-Untouched acc p (action_create_invoice acc p) (create_invoice-Untouched acc p)

settle-paid :
    (acc : Accounts) (today : ℕ) (number ref : String) (p : RentPayment)
    → is_payable p.state ≡ true
    → let q = settle acc today number ref p in (q.state ≡ paid) × (q.amount_paid ≡ q.amount)
unfolding settle
settle-paid acc today number ref p h =
    rw h
      (let u = invoice_and_reconcile-Untouched acc _ in (u.same_state, u.same_total ∙ sym u.amount))

-- The bill can be paid: it is neither paid nor cancelled, and its rent payment is due.
abbrev pub IsDue : Bill → Type 0
IsDue b =
    (b.state ≢ paid_bill) × (b.state ≢ cancelled_bill) × (is_payable b.rent_payment.state ≡ true)

answer-IsPaidInFull :
    (acc : Accounts) (today now : ℕ) (r : Request) (b : Bill)
    → raises r.amount ≡ false
    → IsDue b
    → ((answer acc today now r b).0 ≡ success) × IsPaidInFull (answer acc today now r b).1
unfolding answer mark_paid
answer-IsPaidInFull acc today now r b a (n, c, p) =
    let s = settle-paid acc today b.bill_number r.payment_ref b.rent_payment p in
    (ground arith, ground arith)

find_and_pay-first :
    (acc : Accounts) (today now : ℕ) (r : Request) (bs : List Bill) (b : Bill)
    → first_bill r.bill_number bs ≡ some b
    → ((find_and_pay acc today now r bs).0 ≡ (answer acc today now r b).0)
      × (first_bill r.bill_number (find_and_pay acc today now r bs).1
          ≡ some (answer acc today now r b).1)
unfolding find_and_pay
find_and_pay-first acc today now r [] b h = ground arith
find_and_pay-first acc today now r (x ∷ bs) b h =
    ground (arith, find_and_pay-first acc today now r bs b, answer-number acc today now r b)

-- A request with the right token that names a due bill by its number, and no amount or one that
-- `float` reads, however far from that of the bill, is answered with success, and pays the bill and, in full, the rent payment behind it: whatever the accounting does, since its
-- exceptions are caught, and even where the bill has expired.
pub sadad_webhook-IsPaidInFull :
    (acc : Accounts) (expected : String) (today now : ℕ) (r : Request) (bs : List Bill) (b : Bill)
    → str_eq r.token expected ≡ true
    → is_set r.bill_number ≡ true
    → first_bill r.bill_number bs ≡ some b
    → raises r.amount ≡ false
    → IsDue b
    → ((sadad_webhook acc expected today now r bs).0 ≡ success)
      × ((paid_one : Bill) × (first_bill r.bill_number (sadad_webhook acc expected today now r bs).1
            ≡ some paid_one)
          × IsPaidInFull paid_one)
unfolding sadad_webhook
sadad_webhook-IsPaidInFull acc expected today now r bs b t n f a d =
    let (e, g) = find_and_pay-first acc today now r bs b f in
    let (s, p) = answer-IsPaidInFull acc today now r b a d in
    rw (t, n) (e ∙ s, ((answer acc today now r b).1, g, p))
