-- ===== src/Rental/Renewal/Nightly.antt =====
-- The renewal of one tenancy, and the nightly job over all.
use propza_amlak.Prelude.{
  ℕ, ◌+◌, ◌≤◌, ◌≡◌, ◌↔◌, true, false, Bool-cases, inl, inr, some, List, All, none, ok, err, arith,
  if◌then◌else◌,
}
use propza_amlak.Rental.Types.{draft_tenancy, rent_is_frozen, Tenancy}
use propza_amlak.Rental.Schedule.Dates.{MovesOn}
use propza_amlak.Rental.Renewal.{
  Setting, automatic, period, build_renewal_vals, mark_renewed, breaks_freeze, check_rent_freeze,
  create_renewal, do_renewal, is_due,
}

-- A tenancy that could be created meets the constraint, so that no rise is due where the rent of the
-- property is frozen.
created-meets :
    (new_id : ℕ) (t v : Tenancy) {old new : Tenancy}
    → create_renewal new_id t (check_rent_freeze v) ≡ ok (old, new)
    → (breaks_freeze v ≡ false) × (mark_renewed new_id t ≡ old) × (v ≡ new)
unfolding check_rent_freeze
created-meets new_id t v h = elim (Bool-cases (breaks_freeze v)) [
  | inl b ↦ absurd (ground arith)
  | inr b ↦ (b, ground arith, ground arith)
]

-- The automatic renewal of a tenancy that is not renewed yet and has a last day is refused exactly if
-- its property is one of frozen rents and a percentage of increase is set, although the rent would not
-- be raised. Where it is not refused (and a later month is a later day), there is no gap and no
-- overlap: the new tenancy begins on the next day and lasts for the months of the period, a day at
-- least; it is a draft, its rent is the old one raised by the percentage, or by 0 where rents are
-- frozen, and the two name each other.
pub do_renewal-adjacent :
    (s : Setting) (id new_id e : ℕ) (t : Tenancy)
    → MovesOn s.calendar
    → t.end_date ≡ some e
    → t.renewed_to_id ≡ none
    → ((do_renewal s automatic id new_id t ≡ err rent_is_frozen) ↔ (breaks_freeze t ≡ true))
      × ((old new : Tenancy)
          → do_renewal s automatic id new_id t ≡ ok (old, new)
          → (new.start_date ≡ some (e + 1))
            × ((last : ℕ)
                → new.end_date ≡ some last
                → (e + 1 ≤ last) × (last + 1 ≡ s.calendar.plus_months (e + 1) (period automatic t)))
            × (new.rent_amount
                ≡ s.raised t.rent_amount
                    (if t.rent_freeze_active then 0 else t.renewal_rent_increase_pct))
            × (new.state ≡ draft_tenancy)
            × (new.renewed_from_id ≡ some id)
            × (old.renewed_to_id ≡ some new_id)
            × (old.end_date ≡ some e))
unfolding do_renewal build_renewal_vals check_rent_freeze
do_renewal-adjacent s id new_id e t m f n = elim (Bool-cases (breaks_freeze t)) [
  | inl b ↦ ((λ h. b, λ h. ground arith), λ old new h. absurd (ground arith))
  | inr b ↦ (
    (λ h. absurd (ground arith), λ h. absurd (ground arith)),
    λ old new h. ground (arith, m (e + 1) (period automatic t)),
  )
]

abbrev IsQuiet : Setting → List Tenancy → Type 0
IsQuiet s ts = All (λ t. is_due s t ≡ false) ts
