-- ===== src/Rental/Types.antt =====
-- The fields of sa.rent.payment and property.tenancy that the cycle reads and writes. An amount is
-- a whole number of halalas, a date the number of a day, an unset text the empty text.
use propza_amlak.Prelude.{ℕ, Option, List, String, Bool}

pub data PaymentType : Type 0 where
  rent deposit penalty other : PaymentType

pub data PaymentState : Type 0 where
  pending overdue paid partial cancelled : PaymentState

pub data Method : Type 0 where
  sadad mada bank_transfer cheque cash : Method

-- The state and the payment state of an `account.move`.
pub data MoveState : Type 0 where
  draft_move posted_move cancelled_move : MoveState

pub data Settlement : Type 0 where
  not_settled partly_settled in_payment settled reversed : Settlement

pub record Move : Type 0 where
  pub number : ℕ
  pub state : MoveState
  pub payment_state : Settlement
  pub amount_total : ℕ

-- `payment_id`: the amount of the `account.payment` that was registered, as a fraction.
pub record RentPayment : Type 0 where
  pub due_date : ℕ
  pub amount : ℕ
  pub payment_type : PaymentType
  pub state : PaymentState
  pub payment_date : Option ℕ
  pub payment_method : Option Method
  pub amount_paid : ℕ
  pub sadad_number : String
  pub cheque_number : String
  pub bank_ref : String
  pub move_id : Option Move
  pub payment_id : Option (ℕ × ℕ)

pub data Schedule : Type 0 where
  monthly quarterly semi_annual annual one_time : Schedule

pub data TenancyState : Type 0 where
  draft_tenancy running closed : TenancyState

pub data CycleState : Type 0 where
  draft_cycle confirmed ejar_sent active expiring ended renewed : CycleState

pub data DepositState : Type 0 where
  not_paid held partially_returned returned forfeited : DepositState

pub data PropertyState : Type 0 where
  draft_property on_rent other_state : PropertyState

-- `property_id` is the state of the property, if there is one, and whether its rent is frozen.
pub record Tenancy : Type 0 where
  pub state : TenancyState
  pub sa_cycle_state : CycleState
  pub start_date : Option ℕ
  pub end_date : Option ℕ
  pub rent_amount : ℕ
  pub deposit_amount : ℕ
  pub sa_payment_schedule : Option Schedule
  pub sa_payment_ids : List RentPayment
  pub property_state : Option PropertyState
  pub rent_freeze_active : Bool
  pub deposit_state : DepositState
  pub deposit_date_paid : Option ℕ
  pub deposit_returned_amount : ℕ
  pub deposit_forfeited_amount : ℕ
  pub auto_renew : Bool
  pub renewal_period_months : ℕ
  pub renewal_rent_increase_pct : ℕ
  pub renewal_notice_days : ℕ
  pub renewed_to_id : Option ℕ
  pub renewed_from_id : Option ℕ

-- `UserError`, by its message.
pub data RentalError : Type 0 where
  payment_cancelled already_invoiced no_sale_journal posting_failed amount_not_positive :
      RentalError
  dates_missing rent_missing : RentalError
  deposit_missing deposit_registered balance_outstanding deductions_too_high no_bank_journal :
      RentalError
  already_renewed not_renewable rent_is_frozen rent_not_positive period_missing : RentalError
