-- ===== src/Commission/Lines/Tracking.antt =====
-- That the state of a commission follows those of its lines.
use mathlib.Core.Path.{subst}
use propza_amlak.Prelude.{
  ℕ, zero, suc, ◌≡◌, ◌≢◌, ◌↔◌, ◌⊎◌, refl, sym, ap, ◌∙◌, Bool, true, false, inl, inr, ◌&&◌, ◌||◌,
  Option, none, some, List, [], ◌∷◌, All, ok, arith, if◌then◌else◌,
}
use propza_amlak.Ejar.Lifecycle.World.{nth, update_at}
use propza_amlak.Rental.Types.{Move}
use propza_amlak.Rental.Schedule.{Calendar}
use propza_amlak.Commission.{
  LineState, pending_line, billed_line, paid_line, cancelled_line, Line, CommissionState, draft,
  confirmed, partial, paid, cancelled, Commission, CommissionError, is_paid, any_paid, all_paid,
  state_of, refresh_state_from_lines, action_confirm, action_set_to_draft,
}
use propza_amlak.Commission as Whole
use propza_amlak.Commission.Division.{confirm-Divides}
use propza_amlak.Commission.Lines.{
  Purchases, posted, set_state, set_bill, set_line, write, write_state, create_bill_at,
  action_create_bill, action_mark_paid, cancel_at, action_cancel,
}

-- The commission is neither a draft nor cancelled.
abbrev pub IsOpen : Commission → Type 0
IsOpen c = (c.state ≢ draft) × (c.state ≢ cancelled)

Tracks : Commission → Type 0
Tracks c = IsOpen c → c.state ≡ state_of c.line_ids

abbrev is_open : CommissionState → Bool
is_open draft = false
is_open cancelled = false
is_open _ = true

refresh-Tracks : (c : Commission) → Tracks (refresh_state_from_lines c)
unfolding refresh_state_from_lines Tracks
refresh-Tracks c = ground arith

create_found :
    (ps : Purchases) (i : ℕ) (c : Commission) (o : Option Line) {d : Commission}
    → create_bill_at ps i c o ≡ ok d
    → Tracks d
unfolding create_bill_at write_state
create_found ps i c none h = ground arith
create_found ps i c (some l) h = ground (
  arith,
  refresh-Tracks (
      write i (set_state billed_line)
        (write i (set_bill (posted (ps.draft l) (ps.post (ps.draft l)))) c)),
)

cancel_found :
    (i : ℕ) (c : Commission) (o : Option Line) {d : Commission} → cancel_at i c o ≡ ok d → Tracks d
unfolding cancel_at write_state
cancel_found i c none h = ground arith
cancel_found i c (some l) h = ground (arith, refresh-Tracks (write i (set_state cancelled_line) c))

-- A change of a bill changes no state.
any_paid-set_bill :
    (i : ℕ) (m : Move) (ls : List Line) → any_paid (update_at i (set_bill m) ls) ≡ any_paid ls
unfolding any_paid
any_paid-set_bill i m [] = refl
any_paid-set_bill zero m (l ∷ ls) = refl
any_paid-set_bill (suc i) m (l ∷ ls) = ap (λ b. is_paid l.state || b) (any_paid-set_bill i m ls)

all_paid-set_bill :
    (i : ℕ) (m : Move) (ls : List Line) → all_paid (update_at i (set_bill m) ls) ≡ all_paid ls
unfolding all_paid
all_paid-set_bill i m [] = refl
all_paid-set_bill zero m (l ∷ ls) = refl
all_paid-set_bill (suc i) m (l ∷ ls) = ap (λ b. is_paid l.state && b) (all_paid-set_bill i m ls)

state_of-set_bill :
    (i : ℕ) (m : Move) (ls : List Line) → state_of (update_at i (set_bill m) ls) ≡ state_of ls
unfolding state_of
state_of-set_bill i m [] = refl
state_of-set_bill zero m (l ∷ ls) = refl
state_of-set_bill (suc i) m (l ∷ ls) =
    rw (any_paid-set_bill (suc i) m (l ∷ ls), all_paid-set_bill (suc i) m (l ∷ ls)) refl

pending-unpaid : (ls : List Line) → All (λ l. l.state ≡ pending_line) ls → any_paid ls ≡ false
unfolding any_paid
pending-unpaid [] a = refl
pending-unpaid (l ∷ ls) (e, a) = rw e (pending-unpaid ls a)

unpaid_state : (ls : List Line) → any_paid ls ≡ false → state_of ls ≡ confirmed
unfolding any_paid all_paid state_of
unpaid_state [] h = refl
unpaid_state (l ∷ ls) h = ground arith

-- What happens here to a commission: the actions on it and on its lines, a confirmation of it
-- while no line is paid, an edit of the lines of a draft or a cancelled commission, and any change of a
-- line's bill by the accounting. The form also lets users add and change the lines of any other
-- commission by hand, which does not refresh its state; such edits are not among the steps.
pub data Step (c : Commission) : Commission → Type 0 where
  confirm :
      (cal : Calendar) {d : Commission}
      → any_paid c.line_ids ≡ false
      → action_confirm cal c ≡ ok d
      → Step c d
  cancel : {d : Commission} → Whole.action_cancel c ≡ ok d → Step c d
  set_to_draft : {d : Commission} → action_set_to_draft c ≡ ok d → Step c d
  create_bill :
      (ps : Purchases) (i : ℕ) {d : Commission} → action_create_bill ps i c ≡ ok d → Step c d
  mark_paid : (i : ℕ) → Step c (action_mark_paid i c)
  cancel_line : (i : ℕ) {d : Commission} → action_cancel i c ≡ ok d → Step c d
  edit_lines : (ls : List Line) → ¬ IsOpen c → Step c (record c { line_ids = ls })
  change_bill : (i : ℕ) (m : Move) → Step c (set_line i (set_bill m) c)

pub data Reach (c : Commission) : Commission → Type 0 where
  here : Reach c c
  then_step : {d e : Commission} → Reach c d → Step d e → Reach c e

Step-Tracks : {c d : Commission} → Step c d → Tracks c → Tracks d
unfolding Tracks Whole.action_cancel action_set_to_draft action_create_bill action_mark_paid
    action_cancel write_state
Step-Tracks {c} {d} (confirm cal n h) t o =
    let (a, e) = confirm-Divides cal c n h in
    e ∙ sym (unpaid_state d.line_ids (pending-unpaid d.line_ids a.2))
Step-Tracks {c} (cancel h) t o = ground arith
Step-Tracks {c} (set_to_draft h) t o = ground arith
Step-Tracks {c} (create_bill ps i h) t o = create_found ps i c (nth c.line_ids i) h o
Step-Tracks {c} (mark_paid i) t o = refresh-Tracks (write i (set_state paid_line) c) o
Step-Tracks {c} (cancel_line i h) t o = cancel_found i c (nth c.line_ids i) h o
Step-Tracks {c} (edit_lines ls n) t o = absurd (n o)
Step-Tracks {c} (change_bill i m) t o = t o ∙ sym (state_of-set_bill i m c.line_ids)

Reach-Tracks : {c d : Commission} → Tracks c → Reach c d → Tracks d
Reach-Tracks t here = t
Reach-Tracks t (then_step r s) = Step-Tracks s (Reach-Tracks t r)

abbrev pub IsPaid : Line → Type 0
IsPaid l = l.state ≡ paid_line

-- The state says what the lines say: paid, that there are lines and all are paid; confirmed, that
-- none is; and partial in every other case.
abbrev pub Follows : CommissionState → List Line → Type 0
Follows s ls =
    ((s ≡ paid) ↔ ((ls ≢ []) × All IsPaid ls))
    × ((s ≡ confirmed) ↔ All (λ l. ¬ IsPaid l) ls)
    × ((s ≡ paid) ⊎ (s ≡ confirmed) ⊎ (s ≡ partial))

all_paid-All : (ls : List Line) → (all_paid ls ≡ true) ↔ All IsPaid ls
unfolding all_paid
all_paid-All [] = ((λ h. tt), (λ a. refl))
all_paid-All (l ∷ ls) =
    let (f, g) = all_paid-All ls in
    (λ h. (ground arith, f (ground arith)), λ (e, a). ground (arith, g a))

any_paid-All : (ls : List Line) → (any_paid ls ≡ false) ↔ All (λ l. ¬ IsPaid l) ls
unfolding any_paid
any_paid-All [] = ((λ h. tt), (λ a. refl))
any_paid-All (l ∷ ls) =
    let (f, g) = any_paid-All ls in
    (λ h. (ground arith, f (ground arith)), λ (e, a). ground (arith, g a))

-- The choice of a state by two tests, of which the first implies the second.
decided :
    (a b : Bool)
    → (a ≡ true → b ≡ true)
    → let s = (if a then paid else if b then partial else confirmed) in
      ((s ≡ paid) ↔ (a ≡ true))
      × ((s ≡ confirmed) ↔ (b ≡ false))
      × ((s ≡ paid) ⊎ (s ≡ confirmed) ⊎ (s ≡ partial))
decided true true h = ((λ e. refl, λ e. refl), (λ e. ground arith, λ e. ground arith), inl refl)
decided true false h = absurd (ground arith)
decided false true h =
    ((λ e. ground arith, λ e. ground arith), (λ e. ground arith, λ e. ground arith), inr (inr refl))
decided false false h =
    ((λ e. ground arith, λ e. ground arith), (λ e. refl, λ e. refl), inr (inl refl))

some_paid : (l : Line) (ls : List Line) → all_paid (l ∷ ls) ≡ true → any_paid (l ∷ ls) ≡ true
unfolding all_paid any_paid
some_paid l ls e = ground arith

state_of-Follows : (ls : List Line) → Follows (state_of ls) ls
unfolding state_of
state_of-Follows [] =
    ((λ e. ground arith, λ (n, u). absurd (n refl)), (λ e. tt, λ u. refl), inr (inl refl))
state_of-Follows (l ∷ ls) =
    let (f, g) = all_paid-All (l ∷ ls) in
    let (h, k) = any_paid-All (l ∷ ls) in
    let (p, q, r) = decided (all_paid (l ∷ ls)) (any_paid (l ∷ ls)) (some_paid l ls) in
    (
      (λ e. (λ n. ground arith, f (p.0 e)), λ (n, a). p.1 (g a)),
      (λ e. h (q.0 e), λ a. q.1 (k a)),
      r,
    )

-- From a draft, after any sequence of the actions on a commission and on its lines and of changes of
-- the lines' bills by the accounting, where a confirmation finds no paid line, and lines are edited by
-- hand only while the commission is a draft or cancelled: a commission that is neither a draft nor cancelled is paid if it has lines and all
-- are paid, confirmed if none is paid, and otherwise partial.
pub Reach-Follows :
    {c d : Commission} → c.state ≡ draft → Reach c d → IsOpen d → Follows d.state d.line_ids
unfolding Tracks
Reach-Follows {c} {d} s r o =
    subst (λ x. Follows x d.line_ids) (sym (Reach-Tracks (λ p. absurd (p.0 s)) r o))
      (state_of-Follows d.line_ids)
