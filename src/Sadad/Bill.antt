-- ===== src/Sadad/Bill.antt =====
-- The state of a bill in models/sa_sadad_invoice.py and models/sa_rent_payment.py, and the webhook
-- of controllers/sadad_webhook.py. The bill holds the rent payment that it is for.
pub mod Payment
pub mod Settlement
use propza_amlak.Prelude.{
  ℕ, ◌+◌, Bool, true, false, ◌&&◌, ◌||◌, not, Option, none, some, List, [], ◌∷◌, map, String,
  is_set, Result, ok, err, ltb, if◌then◌else◌,
}
use text.Mathlib.Text.{◌==◌ as str_eq}
use propza_amlak.Rental.Types.{
  PaymentState, pending, overdue, paid, partial, cancelled, sadad, RentPayment, RentalError,
}
use propza_amlak.Rental.Payment.{Accounts, action_create_invoice, create_payment_and_reconcile}

pub data BillState : Type 0 where
  pending_bill paid_bill cancelled_bill expired_bill : BillState

pub record Bill : Type 0 where
  pub state : BillState
  pub bill_number : String
  pub issue_date : ℕ
  pub expiry_date : Option ℕ
  pub paid_date : Option ℕ
  pub payment_ref : String
  pub payment_channel : String
  pub rent_payment : RentPayment

pub data BillError : Type 0 where
  bill_is_paid bill_not_pending payment_not_billable bill_exists : BillError

abbrev pub is_pending : BillState → Bool
is_pending pending_bill = true
is_pending _ = false

abbrev pub is_paid_bill : BillState → Bool
is_paid_bill paid_bill = true
is_paid_bill _ = false

-- `rp.state in ('pending', 'overdue', 'partial')`
abbrev pub is_payable : PaymentState → Bool
is_payable pending = true
is_payable overdue = true
is_payable partial = true
is_payable _ = false

abbrev pub is_received : RentPayment → Bool
is_received p = elim p.state [
  | paid ↦ ltb 0 p.amount_paid
  | partial ↦ ltb 0 p.amount_paid
  | _ ↦ false
]

abbrev pub reconcile_after : Accounts → Result RentalError (Unit {0}) × RentPayment → RentPayment
unfolding create_payment_and_reconcile
reconcile_after acc (err e, p) = p
reconcile_after acc (ok u, p) = if is_received p then create_payment_and_reconcile acc p else p

-- `action_create_invoice_and_reconcile`, whose exception the caller catches.
unfoldable pub invoice_and_reconcile : Accounts → RentPayment → RentPayment
unfolding action_create_invoice reconcile_after
invoice_and_reconcile acc p = reconcile_after acc (action_create_invoice acc p)

abbrev pub settle : Accounts → ℕ → String → String → RentPayment → RentPayment
unfolding invoice_and_reconcile
settle acc today number ref p =
    if is_payable p.state
    then invoice_and_reconcile acc (record p {
      state = paid;
      amount_paid = p.amount;
      payment_date = some today;
      payment_method = some sadad;
      sadad_number = number;
      bank_ref = ref;
    })
    else p

-- `_mark_paid`
unfoldable pub mark_paid : Accounts → ℕ → ℕ → String → String → Bill → Bill
unfolding settle
mark_paid acc today now ref channel b = if is_paid_bill b.state then b else record b {
  state = paid_bill;
  paid_date = some now;
  payment_ref = ref;
  payment_channel = channel;
  rent_payment = settle acc today b.bill_number ref b.rent_payment;
}

unfoldable pub action_cancel : Bill → Result BillError Bill
action_cancel b =
    if is_paid_bill b.state then err bill_is_paid else ok (record b { state = cancelled_bill })

unfoldable pub action_simulate_payment : Accounts → ℕ → ℕ → String → Bill → Result BillError Bill
unfolding mark_paid
action_simulate_payment acc today now ref b =
    if not (is_pending b.state)
    then err bill_not_pending
    else ok (mark_paid acc today now ref "Simulation" b)

abbrev is_past : ℕ → Option ℕ → Bool
is_past today none = false
is_past today (some d) = ltb d today

abbrev pub expire_if_past : ℕ → Bill → Bill
expire_if_past today b =
    if is_pending b.state && is_past today b.expiry_date
    then record b { state = expired_bill }
    else b

unfoldable pub cron_expire_old_invoices : ℕ → List Bill → List Bill
cron_expire_old_invoices today bs = map (expire_if_past today) bs

abbrev any_pending : List Bill → Bool
any_pending [] = false
any_pending (b ∷ bs) = is_pending b.state || any_pending bs

-- `action_generate_sadad` on a rent payment with the bills that it has: whether a bill is made.
unfoldable pub action_generate_sadad : RentPayment → List Bill → Result BillError (Unit {0})
action_generate_sadad p bs = elim p.state [
  | paid ↦ err payment_not_billable
  | cancelled ↦ err payment_not_billable
  | _ ↦ if any_pending bs then err bill_exists else ok tt
]

-- What the webhook answers, or the exception that it raises.
pub data Response : Type 0 where
  invalid_token missing_bill_number bill_not_found already_paid invoice_cancelled success : Response
  bad_amount : Response

-- The amount of a request as `if amount` and `float(amount)` read it: none that is true, a number,
-- or a value that `float` raises on.
pub data Amount : Type 0 where
  no_amount malformed : Amount
  number : ℕ → Amount

-- A call of the webhook: the token of its header, and its body.
pub record Request : Type 0 where
  pub token : String
  pub bill_number : String
  pub amount : Amount
  pub payment_ref : String
  pub channel : String

-- `amount and abs(float(amount) - invoice.amount)`, of which only an exception matters: a
-- difference is logged.
abbrev pub raises : Amount → Bool
raises malformed = true
raises _ = false

abbrev pub answer : Accounts → ℕ → ℕ → Request → Bill → Response × Bill
unfolding mark_paid
answer acc today now r b = elim b.state [
  | paid_bill ↦ (already_paid, b)
  | cancelled_bill ↦ (invoice_cancelled, b)
  | _ ↦
      if raises r.amount
      then (bad_amount, b)
      else (success, mark_paid acc today now r.payment_ref r.channel b)
]

-- The search by number in a list, and what the answer leaves there.
abbrev keep_front : Bill → Response × List Bill → Response × List Bill
keep_front b (r, bs) = (r, b ∷ bs)

abbrev put_front : List Bill → Response × Bill → Response × List Bill
put_front bs (r, b) = (r, b ∷ bs)

pub find_and_pay : Accounts → ℕ → ℕ → Request → List Bill → Response × List Bill
unfolding answer
find_and_pay acc today now r [] = (bill_not_found, [])
find_and_pay acc today now r (b ∷ bs) =
    let rest = keep_front b (find_and_pay acc today now r bs) in
    if str_eq b.bill_number r.bill_number then put_front bs (answer acc today now r b) else rest

-- `sadad_webhook`
unfoldable pub sadad_webhook :
    Accounts → String → ℕ → ℕ → Request → List Bill → Response × List Bill
unfolding find_and_pay
sadad_webhook acc expected today now r bs =
    if not (str_eq r.token expected)
    then (invalid_token, bs)
    else if not (is_set r.bill_number)
    then (missing_bill_number, bs)
    else find_and_pay acc today now r bs
