-- ===== src/Commission/Lines.antt =====
-- models/sa_broker_commission_line.py: the actions on one line.
pub mod Tracking
use propza_amlak.Prelude.{
  ℕ, Bool, true, false, ◌&&◌, not, Option, none, some, List, [], ◌∷◌, Result, ok, err,
  if◌then◌else◌,
}
use propza_amlak.Ejar.Lifecycle.World.{nth, update_at}
use propza_amlak.Rental.Types.{posted_move, Settlement, settled, Move}
use propza_amlak.Rental.Payment.{is_live, is_posted}
use propza_amlak.Commission.{
  LineState, billed_line, paid_line, cancelled_line, Line, Commission, CommissionError, no_line,
  line_is_cancelled, bill_exists, no_purchase_journal, bill_missing, bill_not_posted, bill_posted,
  is_paid, refresh_state_from_lines,
}

-- The accounting: is there a journal for purchases, the draft bill of a line, and posting it (`none`
-- is an exception).
pub record Purchases : Type 0 where
  pub has_purchase_journal : Bool
  pub draft : Line → Move
  pub post : Move → Option Move

abbrev pub set_state : LineState → Line → Line
set_state s l = record l { state = s }

abbrev pub set_bill : Move → Line → Line
set_bill m l = record l { bill_id = some m }

abbrev is_settled : Settlement → Bool
is_settled settled = true
is_settled _ = false

abbrev has_settled_bill : Option Move → Bool
has_settled_bill none = false
has_settled_bill (some m) = is_settled m.payment_state

abbrev pub set_line : ℕ → (Line → Line) → Commission → Commission
set_line i f c = record c { line_ids = update_at i f c.line_ids }

-- What `write` does after the values are written.
abbrev pub after_write : ℕ → Commission → Option Line → Commission
unfolding refresh_state_from_lines
after_write i c none = c
after_write i c (some l) =
    if has_settled_bill l.bill_id && not (is_paid l.state)
    then refresh_state_from_lines (set_line i (set_state paid_line) c)
    else c

unfoldable pub write : ℕ → (Line → Line) → Commission → Commission
unfolding after_write
write i f c = after_write i (set_line i f c) (nth (set_line i f c).line_ids i)

-- The write of a state, and the refresh that follows it.
unfoldable pub write_state : ℕ → LineState → Commission → Commission
unfolding write refresh_state_from_lines
write_state i s c = refresh_state_from_lines (write i (set_state s) c)

-- An exception of the posting is caught, and leaves the draft.
abbrev pub posted : Move → Option Move → Move
posted m none = m
posted m (some p) = p

unfoldable pub create_bill_at :
    Purchases → ℕ → Commission → Option Line → Result CommissionError Commission
unfolding write write_state
create_bill_at ps i c none = err no_line
create_bill_at ps i c (some l) = elim l.state [
  | cancelled_line ↦ err line_is_cancelled
  | _ ↦
      if is_live l.bill_id
      then err bill_exists
      else if not ps.has_purchase_journal
      then err no_purchase_journal
      else ok (
          write_state i billed_line
            (write i (set_bill (posted (ps.draft l) (ps.post (ps.draft l)))) c))
]

unfoldable pub action_create_bill : Purchases → ℕ → Commission → Result CommissionError Commission
unfolding create_bill_at
action_create_bill ps i c = create_bill_at ps i c (nth c.line_ids i)

-- The form that `action_register_payment` opens is the client's affair.
unfoldable pub action_register_payment : Line → Result CommissionError Line
action_register_payment l = elim l.bill_id [
  | none ↦ err bill_missing
  | some m ↦ if is_posted m.state then ok l else err bill_not_posted
]

unfoldable pub action_mark_paid : ℕ → Commission → Commission
unfolding write_state
action_mark_paid i c = write_state i paid_line c

abbrev has_posted_bill : Option Move → Bool
has_posted_bill none = false
has_posted_bill (some m) = is_posted m.state

unfoldable pub cancel_at : ℕ → Commission → Option Line → Result CommissionError Commission
unfolding write_state
cancel_at i c none = err no_line
cancel_at i c (some l) =
    if has_posted_bill l.bill_id then err bill_posted else ok (write_state i cancelled_line c)

unfoldable pub action_cancel : ℕ → Commission → Result CommissionError Commission
unfolding cancel_at
action_cancel i c = cancel_at i c (nth c.line_ids i)
