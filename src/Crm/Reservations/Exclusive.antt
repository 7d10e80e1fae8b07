-- ===== src/Crm/Reservations/Exclusive.antt =====
-- That no property is reserved twice, over any sequence of actions.
use propza_amlak.Prelude.{
  ℕ, suc, ◌≤◌, ◌<◌, ◌≡◌, refl, true, false, Bool-cases, inl, inr, Option, some, List, [], ◌∷◌, ◌++◌,
  map, ok, arith, if◌then◌else◌,
}
use propza_amlak.Ejar.Lifecycle.World.{nth, update_at}
use propza_amlak.Crm.Types.{Lead, ReservationState, draft, Reservation, Crm}
use propza_amlak.Crm.Reservations.{
  is_active, holds, has_conflict, action_activate, action_cancel, action_convert_to_deal,
  expire_if_late, cron_expire_reservations, action_confirm_reservation,
  action_convert_reservation_to_deal,
}

-- How many reservations hold a property.
abbrev pub holders : ℕ → List Reservation → ℕ
holders property [] = 0
holders property (r ∷ rs) =
    let rest = holders property rs in if holds property r then suc rest else rest

-- A change of the state at one place never adds a holder, unless it is an activation.
abbrev IsQuiet : ReservationState → Type 0
IsQuiet s = is_active s ≡ false

-- Without a conflict from a later place on, nothing holds the property there.
pub no_holders :
    (property i j : ℕ) (rs : List Reservation)
    → i < j
    → has_conflict property i j rs ≡ false
    → holders property rs ≡ 0
unfolding has_conflict
no_holders property i j [] l h = refl
no_holders property i j (r ∷ rs) l h =
    ground (arith, no_holders property i (suc j) rs (omega arith) (ground arith))

pub holders-expire :
    (property today : ℕ) (rs : List Reservation)
    → holders property (map (expire_if_late today) rs) ≤ holders property rs
holders-expire property today [] = omega arith
holders-expire property today (r ∷ rs) = ground (arith, holders-expire property today rs)

-- An edit that leaves the state, and the property while the reservation is active.
pub record Edit (r q : Reservation) : Type 0 where
  pub state_kept : q.state ≡ r.state
  pub property_kept : is_active r.state ≡ true → q.property_id ≡ r.property_id

pub Edit-holds : (property : ℕ) (r q : Reservation) → Edit r q → holds property q ≡ holds property r
Edit-holds property r q e = elim (Bool-cases (is_active r.state)) [
  | inl h ↦ rw (e.state_kept, e.property_kept h) refl
  | inr h ↦ rw (e.state_kept, h) (ground arith)
]

-- No property is held by two reservations.
abbrev pub IsExclusive : Crm → Type 0
IsExclusive c = (property : ℕ) → holders property c.reservations ≤ 1

-- What happens here: a reservation is created as a draft, the actions, the nightly job, an edit of a
-- reservation on its form, and any change of the leads. The form also lets the property of an active
-- reservation be changed, which nothing checks; that edit is not among the steps, nor is a deletion.
pub data Step (c : Crm) : Crm → Type 0 where
  create :
      (r : Reservation)
      → r.state ≡ draft
      → Step c (record c { reservations = c.reservations ++ r ∷ [] })
  activate : (i : ℕ) {d : Crm} → action_activate i c ≡ ok d → Step c d
  cancel : (i : ℕ) → Step c (action_cancel i c)
  convert : (stage : Option ℕ) (i : ℕ) → Step c (action_convert_to_deal stage i c)
  expire : (today : ℕ) → Step c (cron_expire_reservations today c)
  confirm : (lead : ℕ) {d : Crm} → action_confirm_reservation lead c ≡ ok d → Step c d
  convert_lead :
      (stage : Option ℕ) (lead : ℕ) {d : Crm}
      → action_convert_reservation_to_deal stage lead c ≡ ok d
      → Step c d
  edit :
      (i : ℕ) (r q : Reservation)
      → nth c.reservations i ≡ some r
      → Edit r q
      → Step c (record c { reservations = update_at i (λ x. q) c.reservations })
  change_leads : (ls : List Lead) → Step c (record c { leads = ls })

pub data Reach (c : Crm) : Crm → Type 0 where
  here : Reach c c
  then_step : {d e : Crm} → Reach c d → Step d e → Reach c e
