-- ===== src/Rental/Payment.antt =====
-- models/sa_rent_payment.py, the payment, and wizard/sa_payment_wizard.py. What the accounting of
-- Odoo does with a move is a parameter. An exception that a caller catches does not undo what was
-- written before it, so an operation gives its result and the payment as it leaves it.
pub mod Instalments
use propza_amlak.Prelude.{
  ℕ, ◌+◌, ◌-◌, ◌*◌, Bool, true, false, ◌&&◌, ◌||◌, not, Option, none, some, List, [], ◌∷◌, map,
  String, Result, ok, err, leb, ltb, ◌==◌, if◌then◌else◌,
}
use propza_amlak.Rental.Types.{
  PaymentType, rent, PaymentState, pending, overdue, paid, partial, cancelled, Method, sadad,
  cheque, bank_transfer, MoveState, draft_move, posted_move, cancelled_move, Settlement, in_payment,
  settled, reversed, Move, RentPayment, RentalError, payment_cancelled, already_invoiced,
  no_sale_journal, posting_failed, amount_not_positive,
}

-- The accounting: is there a journal for sales, the draft invoice of a payment, posting it (`none`
-- is an exception), is there a journal for the method of a payment, is a payment of a fraction
-- posted, and the invoice after reconciliation with it.
pub record Accounts : Type 0 where
  pub has_sale_journal : Bool
  pub draft : RentPayment → Move
  pub post : Move → Option Move
  pub has_payment_journal : Option Method → Bool
  pub posts_payment : ℕ × ℕ → Bool
  pub reconcile : Move → ℕ × ℕ → Move

abbrev pub is_open : PaymentState → Bool
is_open pending = true
is_open partial = true
is_open _ = false

abbrev pub is_cancelled : PaymentState → Bool
is_cancelled cancelled = true
is_cancelled _ = false

abbrev pub days_overdue : ℕ → RentPayment → ℕ
days_overdue today p = if is_open p.state && ltb p.due_date today then today - p.due_date else 0

-- In units of 1/1500 of a halala: 2% of the amount for thirty days.
abbrev pub penalty_amount : ℕ → RentPayment → ℕ
penalty_amount today p = p.amount * days_overdue today p

unfoldable pub action_mark_paid : ℕ → RentPayment → Result RentalError RentPayment
action_mark_paid today p =
    if is_cancelled p.state
    then err payment_cancelled
    else ok (record p { state = paid; payment_date = some today; amount_paid = p.amount })

abbrev pub mark_if_late : ℕ → RentPayment → RentPayment
mark_if_late today p =
    if is_open p.state && ltb p.due_date today then record p { state = overdue } else p

unfoldable pub action_mark_overdue : ℕ → List RentPayment → List RentPayment
action_mark_overdue today ps = map (mark_if_late today) ps

abbrev pub action_cancel : RentPayment → RentPayment
action_cancel p = record p { state = cancelled }

abbrev is_cancelled_move : MoveState → Bool
is_cancelled_move cancelled_move = true
is_cancelled_move _ = false

-- `rec.move_id and rec.move_id.state != 'cancel'`
abbrev pub is_live : Option Move → Bool
is_live none = false
is_live (some m) = not (is_cancelled_move m.state)

abbrev store_posted : Move → Option Move → RentPayment → Result RentalError (Unit {0}) × RentPayment
store_posted m none p = (err posting_failed, record p { move_id = some m })
store_posted m (some posted) p = (ok tt, record p { move_id = some posted })

unfoldable pub action_create_invoice :
    Accounts → RentPayment → Result RentalError (Unit {0}) × RentPayment
action_create_invoice acc p =
    if is_live p.move_id
    then (err already_invoiced, p)
    else if not acc.has_sale_journal
    then (err no_sale_journal, p)
    else store_posted (acc.draft p) (acc.post (acc.draft p)) p

abbrev pub is_posted : MoveState → Bool
is_posted posted_move = true
is_posted _ = false

abbrev is_done : Settlement → Bool
is_done settled = true
is_done in_payment = true
is_done reversed = true
is_done _ = false

abbrev is_paid_off : Settlement → Bool
is_paid_off settled = true
is_paid_off in_payment = true
is_paid_off _ = false

-- `inv_total * (paid_amount / rec.amount)`
abbrev pub payment_fraction : RentPayment → Move → ℕ × ℕ
payment_fraction p m =
    let total = if m.amount_total == 0 then p.amount_paid else m.amount_total in
    if ltb 0 p.amount then (total * p.amount_paid, p.amount) else (p.amount_paid, 1)

abbrev reconcile_with : Accounts → RentPayment → Option Move → RentPayment
reconcile_with acc p none = p
reconcile_with acc p (some m) =
    if not (is_posted m.state)
    then p
    else if is_done m.payment_state
    then p
    else if p.amount_paid == 0
    then p
    else if not (acc.has_payment_journal p.payment_method)
    then p
    else if not (acc.posts_payment (payment_fraction p m))
    then p
    else record p {
      move_id = some (acc.reconcile m (payment_fraction p m));
      payment_id = some (payment_fraction p m);
    }

-- `_create_account_payment_and_reconcile`
unfoldable pub create_payment_and_reconcile : Accounts → RentPayment → RentPayment
create_payment_and_reconcile acc p = reconcile_with acc p p.move_id

-- The wizard's input.
pub record Registration : Type 0 where
  pub amount_paid : ℕ
  pub payment_date : ℕ
  pub payment_method : Method
  pub reference : String
  pub create_invoice : Bool

abbrev pub store_reference : Method → String → RentPayment → RentPayment
store_reference sadad r p = record p { sadad_number = r }
store_reference cheque r p = record p { cheque_number = r }
store_reference bank_transfer r p = record p { bank_ref = r }
store_reference _ r p = p

-- The write of the wizard.
abbrev pub write_payment : Registration → RentPayment → RentPayment
write_payment w p =
    let total = p.amount_paid + w.amount_paid in
    store_reference w.payment_method w.reference (record p {
      payment_date = some w.payment_date;
      payment_method = some w.payment_method;
      amount_paid = total;
      state = if leb p.amount total then paid else partial;
    })

abbrev is_rent : PaymentType → Bool
is_rent rent = true
is_rent _ = false

abbrev is_none : Option Move → Bool
is_none none = true
is_none (some m) = false

-- The `try` round the invoice: its exception is caught.
unfoldable pub try_invoice : Accounts → Registration → RentPayment → RentPayment
unfolding action_create_invoice
try_invoice acc w p =
    if w.create_invoice && is_none p.move_id && is_rent p.payment_type
    then (action_create_invoice acc p).1
    else p

unfoldable pub try_reconcile : Accounts → RentPayment → Option Move → RentPayment
unfolding create_payment_and_reconcile
try_reconcile acc p none = p
try_reconcile acc p (some m) =
    if is_posted m.state && ltb 0 p.amount_paid && not (is_paid_off m.payment_state)
    then create_payment_and_reconcile acc p
    else p

-- The write, the invoice and the reconciliation.
unfoldable pub registered : Accounts → Registration → RentPayment → RentPayment
unfolding try_invoice try_reconcile
registered acc w p =
    let invoiced = try_invoice acc w (write_payment w p) in
    try_reconcile acc invoiced invoiced.move_id

unfoldable pub action_register_payment :
    Accounts → Registration → RentPayment → Result RentalError RentPayment
unfolding registered
action_register_payment acc w p =
    if w.amount_paid == 0 then err amount_not_positive else ok (registered acc w p)

abbrev pub then_register :
    Result RentalError RentPayment
    → (RentPayment → Result RentalError RentPayment)
    → Result RentalError RentPayment
then_register (ok q) f = f q
then_register (err e) f = err e

-- Registrations one after the other, up to the first that raises.
pub register_all : Accounts → List Registration → RentPayment → Result RentalError RentPayment
unfolding action_register_payment
register_all acc [] p = ok p
register_all acc (w ∷ ws) p = then_register (action_register_payment acc w p) (register_all acc ws)
