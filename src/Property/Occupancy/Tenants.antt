-- ===== src/Property/Occupancy/Tenants.antt =====
-- Who has a property that is on rent.
use mathlib.Core.Path.{subst}
use propza_amlak.Prelude.{
  ℕ, ◌≡◌, ◌≢◌, refl, sym, ap, ◌∙◌, Bool, true, false, Bool-cases, inl, inr, Option, none, some,
  Result, ok, err, ok-injective, ◌==◌, arith, if◌then◌else◌,
}
use propza_amlak.Property.Occupancy.{
  on_rent, PropertyProperty, LeaseState, draft, confirm, running, closed, cancelled,
  PropertyTenancy, Rentals, LeaseError, not_draft, dates_missing, not_confirmed, is_available,
  is_on_rent, write_state, write_property, take, release, put, action_confirm, action_start,
  action_close, action_cancel, action_set_to_draft, end_by_wizard, LeaseAction, confirming,
  starting, closing, cancelling, resetting, ending, act,
}

-- The worlds that actions lead to; an action that is refused leads nowhere.
pub data Reach (w : Rentals) : Rentals → Type 0 where
  start : Reach w w
  step : {u v : Rentals} → Reach w u → (a : LeaseAction) (i : ℕ) → act a i u ≡ ok v → Reach w v

abbrev pub is_open : LeaseState → Bool
is_open draft = true
is_open confirm = true
is_open running = true
is_open _ = false

-- Tenancy `i` is an open one of property `j` and of the property's tenant.
pub record Holds (w : Rentals) (j i : ℕ) : Type 0 where
  pub of_property : (w.tenancies i).property_id ≡ j
  pub of_tenant : (w.properties j).tenant_partner_id ≡ some ((w.tenancies i).partner_id)
  pub open_tenancy : is_open (w.tenancies i).state ≡ true

abbrev pub IsHeld : Rentals → Type 0
IsHeld w = (j : ℕ) → (w.properties j).state ≡ on_rent → (i : ℕ) × Holds w j i

write_state-Holds :
    (w : Rentals) (j k i : ℕ) (s : LeaseState)
    → is_open s ≡ true
    → Holds w j k
    → Holds (write_state i s w) j k
write_state-Holds w j k i s o h = record {
  of_property = ground (arith, h.of_property);
  of_tenant = ground (arith, h.of_tenant);
  open_tenancy = ground (arith, h.open_tenancy);
}

-- A write of an open state.
write_state-IsHeld :
    (w : Rentals) (i : ℕ) (s : LeaseState)
    → is_open s ≡ true
    → IsHeld w
    → IsHeld (write_state i s w)
write_state-IsHeld w i s o h j r = let (k, q) = h j r in (k, write_state-Holds w j k i s o q)

-- A property that holds a rental, for the worlds before and after a write of a property.
Holds-elsewhere :
    (w : Rentals) (j k i : ℕ) (p : PropertyProperty)
    → (k == j) ≡ false
    → Holds w k i
    → Holds (write_property j p w) k i
Holds-elsewhere w j k i p e h = record {
  of_property = h.of_property;
  of_tenant = rw e h.of_tenant;
  open_tenancy = h.open_tenancy;
}

pub same : (k j : ℕ) → (k == j) ≡ true → k ≡ j
same k j e = ground arith

pub put_other : {A : Type 0} (j k : ℕ) (x : A) (f : ℕ → A) → (k == j) ≡ false → put j x f k ≡ f k
put_other j k x f e = rw e refl

pub put_same : {A : Type 0} (j : ℕ) (x : A) (f : ℕ → A) → put j x f j ≡ x
put_same j x f = ground arith

write_property-IsHeld :
    (w : Rentals) (j : ℕ) (p : PropertyProperty)
    → (p.state ≡ on_rent → (i : ℕ) × Holds (write_property j p w) j i)
    → IsHeld w
    → IsHeld (write_property j p w)
write_property-IsHeld w j p q h k r =
    elim (Bool-cases (k == j)) as (λ x. (i : ℕ) × Holds (write_property j p w) k i) [
      | inl e ↦
          subst
            (λ k.
              (put j p w.properties k).state ≡ on_rent → (i : ℕ) × Holds (write_property j p w) k i)
            (sym (same k j e))
            (λ s. q (sym (ap (λ (x : PropertyProperty). x.state) (put_same j p w.properties)) ∙ s))
            r
      | inr e ↦
          let (i, o) =
            h k
              (sym (ap (λ (x : PropertyProperty). x.state) (put_other j k p w.properties e)) ∙ r) in
          (i, Holds-elsewhere w j k i p e o)
    ]

-- The tenancy that takes the property is there, and is open.
take-IsHeld :
    (w : Rentals) (i j partner : ℕ)
    → (w.tenancies i).property_id ≡ j
    → (w.tenancies i).partner_id ≡ partner
    → is_open (w.tenancies i).state ≡ true
    → IsHeld w
    → IsHeld (take j partner w)
take-IsHeld w i j partner p q o h = elim (Bool-cases (is_available (w.properties j).state)) [
  | inl a ↦ rw a (
      write_property-IsHeld w j _
        (λ e. (
          i,
          record {
            of_property = p;
            of_tenant =
                ap (λ (x : PropertyProperty). x.tenant_partner_id) (put_same j _ w.properties)
                ∙ sym (ap some q);
            open_tenancy = o;
          },
        ))
        h)
  | inr a ↦ rw a h
]

start-IsHeld :
    (w : Rentals) (i : ℕ)
    → IsHeld w
    → IsHeld (take (w.tenancies i).property_id (w.tenancies i).partner_id (write_state i running w))
start-IsHeld w i h =
    let t = put_same i (record (w.tenancies i) { state = running }) w.tenancies in
    take-IsHeld (write_state i running w) i _ _ (ap (λ (x : PropertyTenancy). x.property_id) t)
      (ap (λ (x : PropertyTenancy). x.partner_id) t)
      (ap (λ (x : PropertyTenancy). is_open x.state) t) (write_state-IsHeld w i running refl h)

-- What is on rent after a release is another property.
release_on_rent :
    (w : Rentals) (j k : ℕ) (tenant : Option ℕ)
    → ((release j tenant w).properties k).state ≡ on_rent
    → (k == j) ≡ false
release_on_rent w j k tenant r = elim (Bool-cases (k == j)) [
  | inl e ↦ absurd (ground (arith, same k j e))
  | inr e ↦ e
]

release_other :
    (w : Rentals) (j k : ℕ) (tenant : Option ℕ)
    → (k == j) ≡ false
    → (release j tenant w).properties k ≡ w.properties k
release_other w j k tenant e = elim (Bool-cases (is_on_rent (w.properties j).state)) [
  | inl a ↦ rw a (put_other j k _ w.properties e)
  | inr a ↦ rw a refl
]

pub release-tenancies :
    (w : Rentals) (j : ℕ) (tenant : Option ℕ) → (release j tenant w).tenancies ≡ w.tenancies
release-tenancies w j tenant = elim (Bool-cases (is_on_rent (w.properties j).state)) [
  | inl a ↦ rw a refl
  | inr a ↦ rw a refl
]

-- The holder of another property is another tenancy.
other_holder :
    (w : Rentals) (i k m : ℕ)
    → (k == (w.tenancies i).property_id) ≡ false
    → (w.tenancies m).property_id ≡ k
    → (m == i) ≡ false
other_holder w i k m e o = elim (Bool-cases (m == i)) [
  | inl a ↦ absurd (ground (arith, ap (λ x. (w.tenancies x).property_id) (same m i a)))
  | inr a ↦ a
]

-- The holder of another property than that of a tenancy that is closed keeps it.
release-Holds :
    (w : Rentals) (i k m : ℕ) (s : LeaseState) (tenant : Option ℕ)
    → (k == (w.tenancies i).property_id) ≡ false
    → Holds w k m
    → Holds (release (w.tenancies i).property_id tenant (write_state i s w)) k m
release-Holds w i k m s tenant e o =
    let t =
      ap (λ (f : ℕ → PropertyTenancy). f m)
        (release-tenancies (write_state i s w) (w.tenancies i).property_id tenant)
      ∙ put_other i m _ w.tenancies (other_holder w i k m e o.of_property) in
    let p = release_other (write_state i s w) (w.tenancies i).property_id k tenant e in
    record {
      of_property = ap (λ (x : PropertyTenancy). x.property_id) t ∙ o.of_property;
      of_tenant =
          ap (λ (x : PropertyProperty). x.tenant_partner_id) p
          ∙ o.of_tenant
          ∙ sym (ap (λ (x : PropertyTenancy). some x.partner_id) t);
      open_tenancy = ap (λ (x : PropertyTenancy). is_open x.state) t ∙ o.open_tenancy;
    }

release-IsHeld :
    (w : Rentals) (i : ℕ) (s : LeaseState) (tenant : Option ℕ)
    → IsHeld w
    → IsHeld (release (w.tenancies i).property_id tenant (write_state i s w))
release-IsHeld w i s tenant h k r =
    let e = release_on_rent (write_state i s w) (w.tenancies i).property_id k tenant r in
    let p = release_other (write_state i s w) (w.tenancies i).property_id k tenant e in
    let (m, o) = h k (sym (ap (λ (x : PropertyProperty). x.state) p) ∙ r) in
    (m, release-Holds w i k m s tenant e o)

-- What a step that is not refused keeps.
pub unrefused :
    (P : Rentals → Type 0) (b : Bool) (e : LeaseError) (x : Result LeaseError Rentals) {v : Rentals}
    → (x ≡ ok v → P v)
    → (if b then err e else x) ≡ ok v
    → P v
unrefused P true e x p h = absurd (ground arith)
unrefused P false e x p h = p h

act-IsHeld : (a : LeaseAction) (i : ℕ) {w v : Rentals} → IsHeld w → act a i w ≡ ok v → IsHeld v
unfolding act action_confirm action_start action_close action_cancel action_set_to_draft
    end_by_wizard
act-IsHeld confirming i {w} h e =
    unrefused IsHeld _ not_draft _
      (unrefused IsHeld _ dates_missing _
        (λ e. subst IsHeld (ok-injective e) (write_state-IsHeld w i confirm refl h)))
      e
act-IsHeld starting i {w} h e =
    unrefused IsHeld _ not_confirmed _ (λ e. subst IsHeld (ok-injective e) (start-IsHeld w i h)) e
act-IsHeld closing i {w} h e = subst IsHeld (ok-injective e) (release-IsHeld w i closed none h)
act-IsHeld cancelling i {w} h e =
    subst IsHeld (ok-injective e) (release-IsHeld w i cancelled none h)
act-IsHeld resetting i {w} h e = subst IsHeld (ok-injective e) (write_state-IsHeld w i draft refl h)
act-IsHeld ending i {w} h e = subst IsHeld (ok-injective e) (release-IsHeld w i closed _ h)

-- From a world in which no property is on rent, whatever sequence of actions of the form and of the
-- wizard leads to: each property that is on rent is so to the tenant of one of its own tenancies,
-- which is neither closed nor cancelled.
pub Reach-IsHeld :
    {w v : Rentals} → ((j : ℕ) → (w.properties j).state ≢ on_rent) → Reach w v → IsHeld v
Reach-IsHeld n start = λ j r. absurd (n j r)
Reach-IsHeld n (step {u} r a i e) = act-IsHeld a i (Reach-IsHeld n r) e
