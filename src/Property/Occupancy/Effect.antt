-- ===== src/Property/Occupancy/Effect.antt =====
-- The effect of an action, read at each tenancy and each property.
use mathlib.Core.Path.{subst}
use propza_amlak.Prelude.{
  ℕ, ◌≡◌, refl, ap, Bool-cases, inl, inr, not, Option, none, ok, ok-injective, ◌==◌, arith,
  if◌then◌else◌,
}
use propza_amlak.Property.Occupancy.{
  UnitState, available, on_rent, LeaseState, draft, confirm, running, closed, cancelled,
  PropertyTenancy, Rentals, not_draft, dates_missing, not_confirmed, is_draft, has_dates,
  is_startable, is_available, write_state, take, release, put, action_confirm, action_start,
  action_close, action_cancel, action_set_to_draft, end_by_wizard, LeaseAction, confirming,
  starting, closing, cancelling, resetting, ending, act,
}
use propza_amlak.Property.Occupancy.Tenants.{release-tenancies, unrefused, same}

-- What an action makes of the state of its tenancy, and of that of the tenancy's property.
abbrev pub state_after : LeaseAction → LeaseState
state_after confirming = confirm
state_after starting = running
state_after closing = closed
state_after cancelling = cancelled
state_after resetting = draft
state_after ending = closed

abbrev pub taken : UnitState → UnitState
taken available = on_rent
taken s = s

abbrev pub freed : UnitState → UnitState
freed on_rent = available
freed s = s

abbrev pub unit_after : LeaseAction → UnitState → UnitState
unit_after starting s = taken s
unit_after closing s = freed s
unit_after cancelling s = freed s
unit_after ending s = freed s
unit_after confirming s = s
unit_after resetting s = s

abbrev pub unit_at : Rentals → ℕ → UnitState
unit_at w m = (w.properties m).state

-- The effect of an action, read at each tenancy and each property.
pub record IsEffect (a : LeaseAction) (k : ℕ) (w v : Rentals) : Type 0 where
  pub tenancies :
      (m : ℕ)
      → v.tenancies m ≡ put k (record (w.tenancies k) { state = state_after a }) w.tenancies m
  pub units :
      (m : ℕ)
      → unit_at v m
        ≡ (if m == (w.tenancies k).property_id then unit_after a (unit_at w m) else unit_at w m)

kept_unit : (w : Rentals) (j m : ℕ) → unit_at w m ≡ (if m == j then unit_at w m else unit_at w m)
kept_unit w j m = ground arith

take-unit :
    (w : Rentals) (j partner m : ℕ)
    → unit_at (take j partner w) m ≡ (if m == j then taken (unit_at w m) else unit_at w m)
take-unit w j partner m = ground (arith, same m j)

take-tenancies : (w : Rentals) (j partner : ℕ) → (take j partner w).tenancies ≡ w.tenancies
take-tenancies w j partner = elim (Bool-cases (is_available (w.properties j).state)) [
  | inl a ↦ rw a refl
  | inr a ↦ rw a refl
]

release-unit :
    (w : Rentals) (j m : ℕ) (tenant : Option ℕ)
    → unit_at (release j tenant w) m ≡ (if m == j then freed (unit_at w m) else unit_at w m)
release-unit w j m tenant = ground (arith, same m j)

write-IsEffect :
    (a : LeaseAction) (k : ℕ) (w : Rentals)
    → ((s : UnitState) → unit_after a s ≡ s)
    → IsEffect a k w (write_state k (state_after a) w)
write-IsEffect a k w h = record {
  tenancies = λ m. refl;
  units = λ m. ground (arith, h (unit_at w m));
}

start-IsEffect :
    (k : ℕ) (w : Rentals)
    → IsEffect starting k w
        (take (w.tenancies k).property_id (w.tenancies k).partner_id (write_state k running w))
start-IsEffect k w = record {
  tenancies = λ m.
      ap (λ (f : ℕ → PropertyTenancy). f m)
        (take-tenancies (write_state k running w) (w.tenancies k).property_id
          (w.tenancies k).partner_id);
  units =
      take-unit (write_state k running w) (w.tenancies k).property_id (w.tenancies k).partner_id;
}

release-IsEffect :
    (a : LeaseAction) (k : ℕ) (w : Rentals) (tenant : Option ℕ)
    → ((s : UnitState) → unit_after a s ≡ freed s)
    → IsEffect a k w (release (w.tenancies k).property_id tenant (write_state k (state_after a) w))
release-IsEffect a k w tenant h = record {
  tenancies = λ m.
      ap (λ (f : ℕ → PropertyTenancy). f m)
        (release-tenancies (write_state k (state_after a) w) (w.tenancies k).property_id tenant);
  units = λ m.
      rw (h (unit_at w m))
        (release-unit (write_state k (state_after a) w) (w.tenancies k).property_id m tenant);
}

pub act-IsEffect : (a : LeaseAction) (k : ℕ) {w v : Rentals} → act a k w ≡ ok v → IsEffect a k w v
unfolding act action_confirm action_start action_close action_cancel action_set_to_draft
    end_by_wizard
act-IsEffect confirming k {w} e =
    unrefused (IsEffect confirming k w) (not (is_draft (w.tenancies k).state)) not_draft _
      (unrefused (IsEffect confirming k w)
        (not (has_dates (w.tenancies k).start_date (w.tenancies k).end_date)) dates_missing _
        (λ h.
          subst (IsEffect confirming k w) (ok-injective h)
            (write-IsEffect confirming k w (λ s. refl))))
      e
act-IsEffect starting k {w} e =
    unrefused (IsEffect starting k w) (not (is_startable (w.tenancies k).state)) not_confirmed _
      (λ h. subst (IsEffect starting k w) (ok-injective h) (start-IsEffect k w)) e
act-IsEffect closing k {w} e =
    subst (IsEffect closing k w) (ok-injective e) (release-IsEffect closing k w none (λ s. refl))
act-IsEffect cancelling k {w} e =
    subst (IsEffect cancelling k w) (ok-injective e)
      (release-IsEffect cancelling k w none (λ s. refl))
act-IsEffect resetting k {w} e =
    subst (IsEffect resetting k w) (ok-injective e) (write-IsEffect resetting k w (λ s. refl))
act-IsEffect ending k {w} e =
    subst (IsEffect ending k w) (ok-injective e) (release-IsEffect ending k w _ (λ s. refl))
