-- ===== src/Crm/Reservations/Holder.antt =====
-- The reservation that holds a property, and what one change of the reservations makes of it.
use mathlib.Core.Path.{subst}
use propza_amlak.Prelude.{
  ℕ, zero, suc, ◌+◌, ◌≤◌, ◌≡◌, ◌≢◌, refl, sym, ap, Bool, true, false, Option, none, some, List, [],
  ◌∷◌, ◌++◌, map, arith, if◌then◌else◌,
}
use propza_amlak.Ejar.Lifecycle.World.{nth, update_at}
use propza_amlak.Crm.Types.{ReservationState, active_reservation, Reservation}
use propza_amlak.Crm.Reservations.{is_active, holds, has_conflict, set_state, expire_if_late}
use propza_amlak.Crm.Reservations.Exclusive.{holders, no_holders, holders-expire}

abbrev shift : Option ℕ → Option ℕ
shift none = none
shift (some i) = some (suc i)

-- The place of the first reservation that holds a property.
abbrev pub holder : ℕ → List Reservation → Option ℕ
holder property [] = none
holder property (r ∷ rs) =
    let rest = shift (holder property rs) in if holds property r then some zero else rest

-- A lock is kept as it is, taken when it is free, or freed by who has it.
pub data Moves : Option ℕ → Option ℕ → Type 0 where
  keep : (o : Option ℕ) → Moves o o
  acquire : (i : ℕ) → Moves none (some i)
  release : (i : ℕ) → Moves (some i) none

shift-Moves : {o p : Option ℕ} → Moves o p → Moves (shift o) (shift p)
shift-Moves (keep o) = keep (shift o)
shift-Moves (acquire i) = acquire (suc i)
shift-Moves (release i) = release (suc i)

pub same-Moves : {o p : Option ℕ} → p ≡ o → Moves o p
same-Moves {o} e = subst (λ x. Moves o x) (sym e) (keep o)

holders-holder :
    (property : ℕ) (rs : List Reservation) → holders property rs ≡ 0 → holder property rs ≡ none
holders-holder property [] h = refl
holders-holder property (r ∷ rs) h = ground (arith, holders-holder property rs)

-- One reservation more in front: it may stop to hold the property, if no other holds it then.
first-Moves :
    (a b : Bool) {o p : Option ℕ}
    → (b ≡ true → a ≡ true)
    → (a ≡ true → b ≡ false → p ≡ none)
    → Moves o p
    → Moves (if a then some zero else shift o) (if b then some zero else shift p)
first-Moves true true h f m = keep (some zero)
first-Moves true false h f m =
    subst (λ x. Moves (some zero) (shift x)) (sym (f refl refl)) (release zero)
first-Moves false true h f m = absurd (ground (arith, h refl))
first-Moves false false h f m = shift-Moves m

pub set_state-Moves :
    (property i : ℕ) (s : ReservationState) (rs : List Reservation)
    → is_active s ≡ false
    → holders property rs ≤ 1
    → Moves (holder property rs) (holder property (update_at i (set_state s) rs))
set_state-Moves property i s [] q e = keep none
set_state-Moves property zero s (r ∷ rs) q e =
    first-Moves (holds property r) (holds property (set_state s r)) (λ h. ground arith)
      (λ a b. holders-holder property rs (ground arith)) (keep (holder property rs))
set_state-Moves property (suc i) s (r ∷ rs) q e =
    first-Moves (holds property r) (holds property r) (λ h. h) (λ a b. ground arith)
      (set_state-Moves property i s rs q (ground arith))

pub expire-Moves :
    (property today : ℕ) (rs : List Reservation)
    → holders property rs ≤ 1
    → Moves (holder property rs) (holder property (map (expire_if_late today) rs))
expire-Moves property today [] e = keep none
expire-Moves property today (r ∷ rs) e =
    first-Moves (holds property r) (holds property (expire_if_late today r)) (λ h. ground arith)
      (λ a b.
        holders-holder property (map (expire_if_late today) rs)
          (ground (arith, holders-expire property today rs)))
      (expire-Moves property today rs (ground arith))

pub append-holder :
    (property : ℕ) (rs : List Reservation) (r : Reservation)
    → is_active r.state ≡ false
    → holder property (rs ++ r ∷ []) ≡ holder property rs
append-holder property [] r h = ground arith
append-holder property (x ∷ rs) r h =
    ap (λ o. if holds property x then some zero else shift o) (append-holder property rs r h)

pub edit-holder :
    (property i : ℕ) (r q : Reservation) (rs : List Reservation)
    → nth rs i ≡ some r
    → holds property q ≡ holds property r
    → holder property (update_at i (λ x. q) rs) ≡ holder property rs
edit-holder property i r q [] e h = ground arith
edit-holder property zero r q (x ∷ rs) e h = ground arith
edit-holder property (suc i) r q (x ∷ rs) e h =
    ap (λ o. if holds property x then some zero else shift o) (edit-holder property i r q rs e h)

pub other-holder :
    (property i : ℕ) (rs : List Reservation) (r : Reservation)
    → nth rs i ≡ some r
    → r.property_id ≢ property
    → holder property (update_at i (set_state active_reservation) rs) ≡ holder property rs
other-holder property i [] r e n = ground arith
other-holder property zero (x ∷ rs) r e n = ground arith
other-holder property (suc i) (x ∷ rs) r e n =
    ap (λ o. if holds property x then some zero else shift o) (other-holder property i rs r e n)

activated_first :
    (a b : Bool) {o : Option ℕ}
    → o ≡ none
    → b ≡ true
    → Moves (if a then some zero else shift o) (if b then some zero else shift o)
activated_first true true n h = keep (some zero)
activated_first true false n h = absurd (ground arith)
activated_first false true n h = subst (λ o. Moves (shift o) (some zero)) (sym n) (acquire zero)
activated_first false false n h = absurd (ground arith)

-- An activation without conflict takes the lock, or finds it taken by the reservation itself.
pub activation-Moves :
    (i j : ℕ) (rs : List Reservation) (r : Reservation)
    → nth rs i ≡ some r
    → has_conflict r.property_id (i + j) j rs ≡ false
    → Moves
        (holder r.property_id rs)
        (holder r.property_id (update_at i (set_state active_reservation) rs))
unfolding has_conflict
activation-Moves i j [] r e h = keep none
activation-Moves zero j (x ∷ rs) r e h =
    activated_first (holds r.property_id x) (holds r.property_id (set_state active_reservation x))
      (holders-holder r.property_id rs
        (no_holders r.property_id j (suc j) rs (omega arith) (ground arith)))
      (ground arith)
activation-Moves (suc i) j (x ∷ rs) r e h =
    first-Moves (holds r.property_id x) (holds r.property_id x) (λ q. q) (λ a b. ground arith)
      (activation-Moves i (suc j) rs r e (ground arith))
