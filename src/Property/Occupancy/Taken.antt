-- ===== src/Property/Occupancy/Taken.antt =====
-- That a tenancy which runs has its property.
use mathlib.Core.Path.{subst}
use propza_amlak.Prelude.{
  ℕ, ◌≡◌, ◌≢◌, refl, sym, ap, ◌∙◌, Bool, true, false, Bool-cases, inl, inr, some, ◌==◌, arith,
  if◌then◌else◌,
}
use propza_amlak.Property.Occupancy.{
  UnitState, available, on_rent, sold, LeaseState, running, PropertyTenancy, Rentals, put,
  LeaseAction,
}
use propza_amlak.Property.Occupancy.Tenants.{
  Reach, start, step, same, put_other, put_same, Reach-IsHeld,
}
use propza_amlak.Property.Occupancy.Effect.{
  state_after, unit_after, unit_at, IsEffect, act-IsEffect,
}

-- A tenancy is the only one of its property.
abbrev pub IsSole : Rentals → ℕ → Type 0
IsSole w i = (k : ℕ) → (w.tenancies k).property_id ≡ (w.tenancies i).property_id → k ≡ i

-- What the actions keep of tenancy `i` and its property.
record IsServed (w : Rentals) (i : ℕ) (v : Rentals) : Type 0 where
  unmoved : (k : ℕ) → (v.tenancies k).property_id ≡ (w.tenancies k).property_id
  unsold : unit_at v (w.tenancies i).property_id ≢ sold
  served : (v.tenancies i).state ≡ running → unit_at v (w.tenancies i).property_id ≡ on_rent

put-property_id :
    (w : Rentals) (k m : ℕ) (s : LeaseState)
    → (put k (record (w.tenancies k) { state = s }) w.tenancies m).property_id
      ≡ (w.tenancies m).property_id
put-property_id w k m s = ground (arith, same m k)

unsold_before :
    (a : LeaseAction) (b : Bool) (s : UnitState)
    → (if b then unit_after a s else s) ≡ sold
    → s ≡ sold
unsold_before a b s h = ground arith

on_rent_after :
    (a : LeaseAction) (s : UnitState)
    → state_after a ≡ running
    → s ≢ sold
    → unit_after a s ≡ on_rent
on_rent_after a s h n = ground arith

equal : (m n : ℕ) → m ≡ n → (m == n) ≡ true
equal m n h = ground arith

module _ (w u v : Rentals) (a : LeaseAction) (k i : ℕ) (sole : IsSole w i) (h : IsServed w i u)
    (e : IsEffect a k u v) where
  abbrev unit : ℕ
  unit = (w.tenancies i).property_id

  -- The property of the tenancy that is acted on.
  target : (u.tenancies k).property_id ≡ (w.tenancies k).property_id
  target = h.unmoved k

  -- The tenancy itself is acted on.
  own_step : i ≡ k → (v.tenancies i).state ≡ running → unit_at v unit ≡ on_rent
  own_step q r =
      let s =
        ap (λ (t : PropertyTenancy). t.state)
          (subst
              (λ m.
                v.tenancies m
                ≡ put k (record (u.tenancies k) { state = state_after a }) u.tenancies k)
              (sym q) (e.tenancies k)
            ∙ put_same k _ u.tenancies) in
      let here = target ∙ ap (λ m. (w.tenancies m).property_id) (sym q) in
      e.units unit
      ∙ rw (equal unit _ (sym here)) (on_rent_after a (unit_at u unit) (sym s ∙ r) h.unsold)

  other_step : (i == k) ≡ false → (v.tenancies i).state ≡ running → unit_at v unit ≡ on_rent
  other_step q r =
      let s =
        ap (λ (t : PropertyTenancy). t.state) (e.tenancies i ∙ put_other k i _ u.tenancies q) in
      let there =
        elim (Bool-cases (unit == (u.tenancies k).property_id))
          as (λ x. (unit == (u.tenancies k).property_id) ≡ false) [
            | inl x ↦ absurd (ground (arith, sole k (sym target ∙ sym (same unit _ x))))
            | inr x ↦ x
          ] in
      e.units unit ∙ rw there (h.served (sym s ∙ r))

  step-IsServed : IsServed w i v
  step-IsServed = record {
    unmoved = λ m.
        ap (λ (t : PropertyTenancy). t.property_id) (e.tenancies m)
        ∙ put-property_id u k m _
        ∙ h.unmoved m;
    unsold = λ r.
        h.unsold (unsold_before a (unit == (u.tenancies k).property_id) _ (sym (e.units unit) ∙ r));
    served = λ r. elim (Bool-cases (i == k)) [
      | inl q ↦ own_step (same i k q) r
      | inr q ↦ other_step q r
    ];
  }

Reach-IsServed :
    {w v : Rentals} (i : ℕ)
    → ((j : ℕ) → (w.properties j).state ≡ available)
    → (w.tenancies i).state ≢ running
    → IsSole w i
    → Reach w v
    → IsServed w i v
Reach-IsServed {w} i free n sole start = record {
  unmoved = λ k. refl;
  unsold = λ r. ground (arith, free (w.tenancies i).property_id);
  served = λ r. absurd (n r);
}
Reach-IsServed {w} {v} i free n sole (step {u} r a k e) =
    step-IsServed w u v a k i sole (Reach-IsServed i free n sole r) (act-IsEffect a k e)

-- From a world in which every property is available, whatever sequence of actions of the form and of
-- the wizard follows: a tenancy that did not run at first and is the only one of its property has the
-- property on rent, to its own tenant, whenever it runs.
pub Reach-taken :
    {w v : Rentals} (i : ℕ)
    → ((j : ℕ) → (w.properties j).state ≡ available)
    → (w.tenancies i).state ≢ running
    → IsSole w i
    → Reach w v
    → (v.tenancies i).state ≡ running
    → ((v.properties (w.tenancies i).property_id).state ≡ on_rent)
      × ((v.properties (w.tenancies i).property_id).tenant_partner_id
          ≡ some ((v.tenancies i).partner_id))
Reach-taken {w} {v} i free n sole r q =
    let o = (Reach-IsServed i free n sole r).served q in
    let (k, h) = Reach-IsHeld (λ j x. ground (arith, free j)) r (w.tenancies i).property_id o in
    let m = sole k (sym ((Reach-IsServed i free n sole r).unmoved k) ∙ h.of_property) in
    (o, h.of_tenant ∙ ap (λ x. some ((v.tenancies x).partner_id)) m)
