-- ===== src/Sadad/Bill/Payment.antt =====
-- What the webhook does to the bills.
use propza_amlak.Prelude.{ℕ, ◌≡◌, refl, List, [], ◌∷◌, String, arith}
use propza_amlak.Rental.Payment.{Accounts}
use propza_amlak.Sadad.Bill.{
  paid_bill, Bill, mark_paid, Response, already_paid, success, Request, answer, find_and_pay,
  sadad_webhook,
}

-- A second delivery of a request.
abbrev pub redelivered : Response → Response
redelivered success = already_paid
redelivered r = r

mark_paid-paid :
    (acc : Accounts) (today now : ℕ) (ref channel : String) (b : Bill)
    → (mark_paid acc today now ref channel b).state ≡ paid_bill
unfolding mark_paid
mark_paid-paid acc today now ref channel b = ground arith

mark_paid-number :
    (acc : Accounts) (today now : ℕ) (ref channel : String) (b : Bill)
    → (mark_paid acc today now ref channel b).bill_number ≡ b.bill_number
unfolding mark_paid
mark_paid-number acc today now ref channel b = ground arith

answer_again :
    (acc : Accounts) (today now today' now' : ℕ) (r : Request) (b : Bill)
    → answer acc today' now' r (answer acc today now r b).1
      ≡ (redelivered (answer acc today now r b).0, (answer acc today now r b).1)
unfolding answer
answer_again acc today now today' now' r b =
    ground (arith, mark_paid-paid acc today now r.payment_ref r.channel b)

pub answer-number :
    (acc : Accounts) (today now : ℕ) (r : Request) (b : Bill)
    → (answer acc today now r b).1.bill_number ≡ b.bill_number
unfolding answer
answer-number acc today now r b =
    ground (arith, mark_paid-number acc today now r.payment_ref r.channel b)

find_and_pay_again :
    (acc : Accounts) (today now today' now' : ℕ) (r : Request) (bs : List Bill)
    → find_and_pay acc today' now' r (find_and_pay acc today now r bs).1
      ≡ (redelivered (find_and_pay acc today now r bs).0, (find_and_pay acc today now r bs).1)
unfolding find_and_pay
find_and_pay_again acc today now today' now' r [] = refl
find_and_pay_again acc today now today' now' r (b ∷ bs) = ground (
  arith,
  find_and_pay_again acc today now today' now' r bs,
  answer_again acc today now today' now' r b,
  answer-number acc today now r b,
)

-- The webhook is idempotent: a request that is delivered a second time leaves the bills as the
-- first delivery left them, and where the first was answered with success the second is answered
-- that the bill is already paid; every other answer is repeated.
pub sadad_webhook_again :
    (acc : Accounts) (expected : String) (today now today' now' : ℕ) (r : Request) (bs : List Bill)
    → sadad_webhook acc expected today' now' r (sadad_webhook acc expected today now r bs).1 ≡ (
      redelivered (sadad_webhook acc expected today now r bs).0,
      (sadad_webhook acc expected today now r bs).1,
    )
unfolding sadad_webhook
sadad_webhook_again acc expected today now today' now' r bs =
    ground (arith, find_and_pay_again acc today now today' now' r bs)
