-- ===== src/Commission.antt =====
-- addons/sa_broker_commission: models/sa_broker_commission.py and models/sa_broker_commission_line.py.
-- A line is the place that it has among the lines of its commission. Its amount is kept as the whole and
-- the number of parts: the source divides in floating-point numbers, whose parts need not add up.
pub mod Lines
pub mod Division
use propza_amlak.Prelude.{
  ℕ, zero, suc, ◌*◌, Bool, true, false, ◌&&◌, ◌||◌, not, Option, none, some, List, [], ◌∷◌, ◌++◌,
  Result, ok, err, ◌==◌, if◌then◌else◌,
}
use propza_amlak.Ejar.Lifecycle.World.{nth, update_at}
use propza_amlak.Rental.Types.{posted_move, settled, Move}
use propza_amlak.Rental.Payment.{is_live, is_posted}
use propza_amlak.Rental.Schedule.{Calendar}

pub data LineState : Type 0 where
  pending_line billed_line paid_line cancelled_line : LineState

-- The amount is a quotient, of 1/10000 of a halala.
pub record Line : Type 0 where
  pub due_date : ℕ
  pub amount : ℕ × ℕ
  pub state : LineState
  pub bill_id : Option Move

pub data CommissionType : Type 0 where
  percentage fixed : CommissionType

pub data PaymentSchedule : Type 0 where
  on_signup monthly split : PaymentSchedule

pub data CommissionState : Type 0 where
  draft confirmed partial paid cancelled : CommissionState

-- The rent, the duration and whether that is in years are the tenancy's. The rate counts
-- hundredths of a percent.
pub record Commission : Type 0 where
  pub rent_amount : ℕ
  pub duration : ℕ
  pub in_years : Bool
  pub commission_type : CommissionType
  pub commission_rate : ℕ
  pub fixed_amount : ℕ
  pub payment_schedule : PaymentSchedule
  pub date_signed : ℕ
  pub line_ids : List Line
  pub state : CommissionState

pub data CommissionError : Type 0 where
  not_draft amount_not_positive has_paid_lines no_line : CommissionError
  line_is_cancelled bill_exists no_purchase_journal bill_missing bill_not_posted bill_posted :
      CommissionError

abbrev pub annual_rent : Commission → ℕ
annual_rent c = c.rent_amount * 12

-- `_compute_commission_amount`, in 1/10000 of a halala.
abbrev pub commission_amount : Commission → ℕ
commission_amount c = elim c.commission_type [
  | percentage ↦ annual_rent c * c.commission_rate
  | fixed ↦ c.fixed_amount * 10000
]

abbrev pub is_paid : LineState → Bool
is_paid paid_line = true
is_paid _ = false

unfoldable pub any_paid : List Line → Bool
any_paid [] = false
any_paid (l ∷ ls) = let rest = any_paid ls in is_paid l.state || rest

unfoldable pub all_paid : List Line → Bool
all_paid [] = true
all_paid (l ∷ ls) = let rest = all_paid ls in is_paid l.state && rest

-- What is left when the lines that are not paid are deleted.
unfoldable pub paid_lines : List Line → List Line
paid_lines [] = []
paid_lines (l ∷ ls) = let rest = paid_lines ls in if is_paid l.state then l ∷ rest else rest

abbrev pub new_line : ℕ → ℕ → ℕ → Line
new_line due amount parts = record {
  due_date = due;
  amount = (amount, parts);
  state = pending_line;
  bill_id = none;
}

-- The months from `i` on, `n` of them.
unfoldable pub monthly_lines : Calendar → ℕ → ℕ → ℕ → ℕ → ℕ → List Line
monthly_lines cal amount parts start i zero = []
monthly_lines cal amount parts start i (suc n) =
    new_line (cal.plus_months start i) amount parts ∷ monthly_lines cal amount parts start (suc i) n

abbrev or_twelve : ℕ → ℕ
or_twelve n = if n == 0 then 12 else n

abbrev pub duration_months : Commission → ℕ
duration_months c = if c.in_years then or_twelve c.duration * 12 else or_twelve c.duration

-- The lines that are created.
unfoldable pub new_lines : Calendar → Commission → PaymentSchedule → List Line
unfolding monthly_lines
new_lines cal c on_signup = new_line c.date_signed (commission_amount c) 1 ∷ []
new_lines cal c split =
    new_line c.date_signed (commission_amount c) 2
    ∷ new_line (cal.plus_months c.date_signed 6) (commission_amount c) 2
    ∷ []
new_lines cal c monthly =
    monthly_lines cal (commission_amount c) (duration_months c) c.date_signed 0 (duration_months c)

-- `_generate_lines`
unfoldable pub generate_lines : Calendar → Commission → Commission
unfolding paid_lines new_lines
generate_lines cal c = record c {
  line_ids =
      if commission_amount c == 0
      then paid_lines c.line_ids
      else paid_lines c.line_ids ++ new_lines cal c c.payment_schedule;
}

abbrev is_draft : CommissionState → Bool
is_draft draft = true
is_draft _ = false

unfoldable pub action_confirm : Calendar → Commission → Result CommissionError Commission
unfolding generate_lines
action_confirm cal c =
    if not (is_draft c.state)
    then err not_draft
    else if commission_amount c == 0
    then err amount_not_positive
    else ok (record (generate_lines cal c) { state = confirmed })

unfoldable pub action_cancel : Commission → Result CommissionError Commission
unfolding any_paid
action_cancel c =
    if any_paid c.line_ids then err has_paid_lines else ok (record c { state = cancelled })

unfoldable pub action_set_to_draft : Commission → Result CommissionError Commission
unfolding any_paid
action_set_to_draft c =
    if any_paid c.line_ids then err has_paid_lines else ok (record c { state = draft })

unfoldable pub state_of : List Line → CommissionState
unfolding any_paid all_paid
state_of [] = confirmed
state_of (l ∷ ls) =
    if all_paid (l ∷ ls) then paid else if any_paid (l ∷ ls) then partial else confirmed

-- `_refresh_state_from_lines`
unfoldable pub refresh_state_from_lines : Commission → Commission
unfolding state_of
refresh_state_from_lines c = elim c.state [
  | draft ↦ c
  | cancelled ↦ c
  | _ ↦ record c { state = state_of c.line_ids }
]
