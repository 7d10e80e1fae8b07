-- ===== src/UserProfile/Verification/Acceptance.antt =====
-- Which documents are accepted, and what a partner's identity says.
use propza_amlak.Prelude.{
  ℕ, ◌≤◌, ◌≡◌, ◌≢◌, ◌↔◌, ◌⊎◌, refl, Bool, true, false, inl, inr, not, Option, none, some, List, [],
  ◌∷◌, ◌++◌, String, is_set, Result, ok, err, ◌&&◌, Bool-cases, arith,
}
use propza_amlak.Ejar.Payload.Mobile.{count_chars, starts_with_code, tail}
use propza_amlak.UserProfile.Verification.{
  IdType, national_id, iqama, gcc, passport, commercial, expired, scan_missing, is_submittable,
  verified, rejected, Flaw, Verification, Identity, VerificationError, id_type_refused,
  national_id_refused, cleaned, only_digits, number_flaws, is_past, flaws, strip, is_selectable,
  check_national_id, write_partner, decide, auto_verify, action_submit, unless_valid,
}

-- The number of a document has the form of its type.
abbrev pub WellFormed : (String → Bool) → IdType → String → Type 0
WellFormed isdigit national_id s =
    (starts_with_code (b'1' ∷ []) s ≡ true) × (only_digits (tail s) ≡ true) × (count_chars s ≡ 10)
WellFormed isdigit iqama s =
    (starts_with_code (b'2' ∷ []) s ≡ true) × (only_digits (tail s) ≡ true) × (count_chars s ≡ 10)
WellFormed isdigit gcc s = (isdigit s ≡ true) × (8 ≤ count_chars s)
WellFormed isdigit passport s = 6 ≤ count_chars s
WellFormed isdigit commercial s = (only_digits s ≡ true) × (count_chars s ≡ 10)

pub record IsAcceptable (isdigit : String → Bool) (today : ℕ) (v : Verification) : Type 0 where
  pub well_formed : WellFormed isdigit v.id_type (cleaned v.id_number)
  pub in_force : (e : ℕ) → v.id_expiry ≡ some e → today ≤ e
  pub scanned : is_set v.id_scan ≡ true

number-WellFormed :
    (isdigit : String → Bool) (t : IdType) (s : String)
    → (number_flaws isdigit t s ≡ []) ↔ WellFormed isdigit t s
number-WellFormed isdigit national_id s = (λ h. ground arith, λ h. ground arith)
number-WellFormed isdigit iqama s = (λ h. ground arith, λ h. ground arith)
number-WellFormed isdigit gcc s = (λ h. ground arith, λ h. ground arith)
number-WellFormed isdigit passport s = (λ h. ground arith, λ h. ground arith)
number-WellFormed isdigit commercial s = (λ h. ground arith, λ h. ground arith)

append-empty : (fs gs : List Flaw) → fs ++ gs ≡ [] → (fs ≡ []) × (gs ≡ [])
append-empty [] gs h = (refl, h)
append-empty (f ∷ fs) gs h = absurd (ground arith)

unless_valid-empty : (b : Bool) (f : Flaw) → (unless_valid b f ≡ []) ↔ (b ≡ true)
unless_valid-empty true f = (λ h. refl, λ h. refl)
unless_valid-empty false f = (λ h. absurd (ground arith), λ h. absurd (ground arith))

past-in_force :
    (today : ℕ) (o : Option ℕ) → (not (is_past today o) ≡ true) ↔ ((e : ℕ) → o ≡ some e → today ≤ e)
past-in_force today none = (λ h e q. absurd (ground arith), λ h. refl)
past-in_force today (some x) = (λ h e q. ground arith, λ h. ground (arith, h x refl))

flaws-IsAcceptable :
    (isdigit : String → Bool) (today : ℕ) (v : Verification)
    → (flaws isdigit today v ≡ []) ↔ IsAcceptable isdigit today v
unfolding flaws
flaws-IsAcceptable isdigit today v = (sound, complete)
  where
    number : List Flaw
    number = number_flaws isdigit v.id_type (cleaned v.id_number)

    age : List Flaw
    age = unless_valid (not (is_past today v.id_expiry)) expired

    sound : flaws isdigit today v ≡ [] → IsAcceptable isdigit today v
    sound h =
        let (ab, d) =
          append-empty (number ++ age) (unless_valid (is_set v.id_scan) scan_missing) h in
        let (a, c) = append-empty number age ab in
        record {
          well_formed = (number-WellFormed isdigit v.id_type (cleaned v.id_number)).0 a;
          in_force = (past-in_force today v.id_expiry).0 ((unless_valid-empty _ expired).0 c);
          scanned = (unless_valid-empty (is_set v.id_scan) scan_missing).0 d;
        }

    complete : IsAcceptable isdigit today v → flaws isdigit today v ≡ []
    complete h =
        rw ((number-WellFormed isdigit v.id_type (cleaned v.id_number)).1 h.well_formed)
          (rw ((past-in_force today v.id_expiry).1 h.in_force) (rw h.scanned refl))

-- The partner takes the type and the number.
abbrev pub IsWritable : (String → Bool) → IdType → String → Type 0
IsWritable isdigit t s =
    (t ≢ commercial)
    × (t ≡ national_id
        → is_set s ≡ true
        → (isdigit (strip s) ≡ true)
          × (count_chars (strip s) ≡ 10)
          × ((starts_with_code (b'1' ∷ []) (strip s) ≡ true)
              ⊎ (starts_with_code (b'2' ∷ []) (strip s) ≡ true)))

abbrev is_writable : (String → Bool) → IdType → String → Bool
unfolding check_national_id
is_writable isdigit t s = is_selectable t && check_national_id isdigit t s

is_writable-IsWritable :
    (isdigit : String → Bool) (t : IdType) (s : String)
    → (is_writable isdigit t s ≡ true) ↔ IsWritable isdigit t s
unfolding is_writable check_national_id
is_writable-IsWritable isdigit national_id s = (
  λ h. (λ e. absurd (ground arith), λ e n. ground arith),
  λ (n, f). elim (Bool-cases (is_set s)) [
    | inl h ↦ ground (arith, f refl h)
    | inr h ↦ ground arith
  ],
)
is_writable-IsWritable isdigit iqama s =
    (λ h. (λ e. absurd (ground arith), λ e. absurd (ground arith)), λ h. refl)
is_writable-IsWritable isdigit gcc s =
    (λ h. (λ e. absurd (ground arith), λ e. absurd (ground arith)), λ h. refl)
is_writable-IsWritable isdigit passport s =
    (λ h. (λ e. absurd (ground arith), λ e. absurd (ground arith)), λ h. refl)
is_writable-IsWritable isdigit commercial s =
    (λ h. absurd (ground arith), λ (n, f). absurd (n refl))

-- How a submission ends: verified, with the partner; with an exception, which undoes it; or rejected.
pub data Ends (isdigit : String → Bool) (today : ℕ) (v : Verification) (p : Identity)
    : Result VerificationError (Verification × Identity) → Type 0 where
  is_verified :
      (w : Verification) (q : Identity)
      → IsAcceptable isdigit today v
      → IsWritable isdigit v.id_type v.id_number
      → w.state ≡ verified
      → q.sa_id_verified ≡ true
      → q.sa_national_id ≡ v.id_number
      → Ends isdigit today v p (ok (w, q))
  is_refused :
      (e : VerificationError)
      → IsAcceptable isdigit today v
      → ¬ IsWritable isdigit v.id_type v.id_number
      → Ends isdigit today v p (err e)
  is_rejected :
      (w : Verification)
      → ¬ IsAcceptable isdigit today v
      → w.state ≡ rejected
      → w.rejection_reason ≢ []
      → Ends isdigit today v p (ok (w, p))

write_partner-Ends :
    (isdigit : String → Bool) (today now : ℕ) (v : Verification) (p : Identity)
    → IsAcceptable isdigit today v
    → Ends isdigit today v p (write_partner isdigit now (record v { submission_date = some now }))
unfolding write_partner is_writable
write_partner-Ends isdigit today now v p a =
    let (f, g) = is_writable-IsWritable isdigit v.id_type v.id_number in
    elim (Bool-cases (is_selectable v.id_type)) [
      | inr h ↦ rw h (is_refused id_type_refused a (λ w. absurd (ground (arith, g w))))
      | inl h ↦ elim (Bool-cases (check_national_id isdigit v.id_type v.id_number)) [
        | inr k ↦ rw (h, k) (is_refused national_id_refused a (λ w. absurd (ground (arith, g w))))
        | inl k ↦ rw (h, k) (is_verified _ _ a (f (ground arith)) refl refl refl)
      ]
    ]

decide-Ends :
    (isdigit : String → Bool) (today now : ℕ) (v : Verification) (p : Identity) (fs : List Flaw)
    → flaws isdigit today v ≡ fs
    → Ends isdigit today v p (decide isdigit now (record v { submission_date = some now }) p fs)
unfolding decide write_partner
decide-Ends isdigit today now v p [] e =
    write_partner-Ends isdigit today now v p ((flaws-IsAcceptable isdigit today v).0 e)
decide-Ends isdigit today now v p (f ∷ fs) e =
    is_rejected _ (λ a. let n = (flaws-IsAcceptable isdigit today v).1 a in absurd (ground arith))
      refl (λ h. absurd (ground arith))

-- A draft or rejected document that is submitted ends in one of three ways. If its number has the form
-- of its type, it has not expired on that day and there is a scan of it, then it is verified, and the
-- partner's identity with that number, where the partner takes the type and the number as it is
-- written; and the submission raises where the partner does not. Otherwise it is rejected, for a
-- reason, and the partner's identity is as it was.
pub action_submit-Ends :
    (isdigit : String → Bool) (today now : ℕ) (v : Verification) (p : Identity)
    → is_submittable v.state ≡ true
    → Ends isdigit today v p (action_submit isdigit today now v p)
unfolding action_submit auto_verify flaws
action_submit-Ends isdigit today now v p s = rw s (decide-Ends isdigit today now v p _ refl)
