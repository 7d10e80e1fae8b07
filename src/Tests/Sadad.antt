-- ===== src/Tests/Sadad.antt =====
-- A bill's number, and a bill that is paid by the webhook.
use propza_amlak.Prelude.{
  ◌≡◌, ◌≢◌, ◌+◌, ◌%◌, ◌<◌, ℕ, refl, Option, some, none, List, [], ◌∷◌, arith,
}
use propza_amlak.Sadad.BillNumber.{luhn_sum, luhn_check_digit, generate_bill_number}
use propza_amlak.Sadad.BillNumber.Laws.{
  check_digit-detects, payment_in, partner_in, bill_number-read_back,
}
use propza_amlak.Sadad.Bill.{pending_bill, Bill, success, number, Request, sadad_webhook}
use propza_amlak.Sadad.Bill.Payment.{redelivered, sadad_webhook_again}
use propza_amlak.Sadad.Bill.Settlement.{first_bill, IsPaidInFull, sadad_webhook-IsPaidInFull}
use propza_amlak.Tests.Rental.{accounts, one_rent}

check_digit-detects_example :
    (luhn_check_digit (7 ∷ 9 ∷ 9 ∷ []) < 10)
    × ((luhn_sum (7 ∷ 9 ∷ 9 ∷ []) + luhn_check_digit (7 ∷ 9 ∷ 9 ∷ [])) % 10 ≡ 0)
    × (luhn_check_digit (7 ∷ 9 ∷ 9 ∷ []) ≢ luhn_check_digit (7 ∷ 2 ∷ 9 ∷ []))
check_digit-detects_example =
    check_digit-detects (7 ∷ []) (9 ∷ []) 9 2 (omega arith) (omega arith) (omega arith)

abbrev biller : List (Option ℕ)
biller = some 9 ∷ some 0 ∷ some 1 ∷ []

bill_number-read_back_example :
    (number : List ℕ) × (generate_bill_number biller 42 1207 ≡ some number)
    × (payment_in number ≡ 42)
    × (partner_in number ≡ 1207)
bill_number-read_back_example =
    bill_number-read_back biller 42 1207 refl (omega arith) (omega arith)

abbrev bill : Bill
bill = record {
  state = pending_bill;
  bill_number = "090100042012071";
  issue_date = 10;
  expiry_date = some 50;
  paid_date = none;
  payment_ref = "";
  payment_channel = "";
  rent_payment = one_rent;
}

abbrev request : Request
request = record {
  token = "t";
  bill_number = "090100042012071";
  amount = number 5;
  payment_ref = "S-1";
  channel = "app";
}

sadad_webhook_again_example :
    sadad_webhook accounts "t" 41 4100 request
      (sadad_webhook accounts "t" 40 4000 request (bill ∷ [])).1
    ≡ (
      redelivered (sadad_webhook accounts "t" 40 4000 request (bill ∷ [])).0,
      (sadad_webhook accounts "t" 40 4000 request (bill ∷ [])).1,
    )
sadad_webhook_again_example = sadad_webhook_again accounts "t" 40 4000 41 4100 request (bill ∷ [])

sadad_webhook-IsPaidInFull_example :
    ((sadad_webhook accounts "t" 40 4000 request (bill ∷ [])).0 ≡ success)
    × ((paid_one : Bill) × (first_bill "090100042012071"
            (sadad_webhook accounts "t" 40 4000 request (bill ∷ [])).1
          ≡ some paid_one)
        × IsPaidInFull paid_one)
sadad_webhook-IsPaidInFull_example =
    sadad_webhook-IsPaidInFull accounts "t" 40 4000 request (bill ∷ []) bill refl refl refl refl
      ((λ e. ground arith), (λ e. ground arith), refl)
