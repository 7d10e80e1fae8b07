-- ===== src/Ejar/Contract/Actions.antt =====
-- models/ejar_contract.py: the computed flags, the state machine actions and the checks on the
-- way to a submission.
use propza_amlak.Prelude.{
  ◌*◌, Bool, true, false, none, some, List, [], ◌∷◌, ◌++◌, ◌&&◌, ◌||◌, not, leb, ltb, if◌then◌else◌,
  is_set, is_some, Result, ok, err,
}
use propza_amlak.Ejar.Contract.Types.{
  Status, draft, building, ready, submitting, submitted, approved, rejected, expired, cancelled,
  Role, lessor, tenant, Party, Missing, no_lessor, no_tenant, no_unit, no_signed_doc, no_profile,
  UserError, terminal_state, not_draft, not_building, not_submittable, not_rejected, incomplete,
  Note, building_started, data_complete, reset_to_draft, contract_cancelled, Contract,
}

abbrev is_lessor : Role → Bool
is_lessor lessor = true
is_lessor _ = false

abbrev is_tenant : Role → Bool
is_tenant tenant = true
is_tenant _ = false

abbrev any_role : (Role → Bool) → List Party → Bool
any_role p [] = false
any_role p (x ∷ xs) = p x.role || any_role p xs

-- `_compute_party_flags` and `_compute_unit_flag`
abbrev pub has_lessor : Contract → Bool
has_lessor c = any_role is_lessor c.party_ids

abbrev pub has_tenant : Contract → Bool
has_tenant c = any_role is_tenant c.party_ids

abbrev is_nonempty {ℓ} : {A : Type ℓ} → List A → Bool
is_nonempty [] = false
is_nonempty (x ∷ xs) = true

abbrev pub has_unit : Contract → Bool
has_unit c = is_nonempty c.unit_ids

-- `_compute_is_ready_to_submit`
unfoldable pub is_ready_to_submit : Contract → Bool
is_ready_to_submit c =
    has_lessor c
    && has_tenant c
    && has_unit c
    && is_set c.signed_doc
    && is_some c.brokerage_profile_id
    && is_some c.start_date
    && is_some c.end_date
    && ltb 0 c.rent_amount

-- `if not value: errors.append(…)`
abbrev pub required : Bool → Missing → List Missing → List Missing
required true m ms = ms
required false m ms = m ∷ ms

-- `if errors: raise …`
abbrev pub reject {ℓ} : {A : Type ℓ} → List Missing → A → (UserError → A) → A
reject [] pass fail = pass
reject (m ∷ ms) pass fail = fail (incomplete (m ∷ ms))

unfoldable pub missing_data : Contract → List Missing
missing_data c = required (has_lessor c) no_lessor (
    required (has_tenant c) no_tenant (
      required (has_unit c) no_unit (
        required (is_set c.signed_doc) no_signed_doc
          (required (is_some c.brokerage_profile_id) no_profile []))))

unfoldable pub validate_ready_state : Contract → Result UserError Contract
unfolding missing_data
validate_ready_state c = reject (missing_data c) (ok c) err

abbrev pub post : Note → Contract → Contract
post n c = record c { messages = c.messages ++ n ∷ [] }

-- `_set_status`
abbrev pub set_status : Status → Contract → Contract
set_status s c = record c { ejar_status = s }

abbrev pub is_terminal : Status → Bool
is_terminal expired = true
is_terminal cancelled = true
is_terminal _ = false

abbrev is_draft : Status → Bool
is_draft draft = true
is_draft _ = false

abbrev is_building : Status → Bool
is_building building = true
is_building _ = false

abbrev is_ready : Status → Bool
is_ready ready = true
is_ready _ = false

abbrev is_rejected : Status → Bool
is_rejected rejected = true
is_rejected _ = false

abbrev pub then_do :
    Result UserError Contract → (Contract → Result UserError Contract) → Result UserError Contract
then_do (ok c) f = f c
then_do (err e) f = err e

unfoldable pub action_start_building : Contract → Result UserError Contract
action_start_building c =
    if is_terminal c.ejar_status
    then err terminal_state
    else if not (is_draft c.ejar_status)
    then err not_draft
    else ok (post building_started (set_status building c))

unfoldable pub action_mark_ready : Contract → Result UserError Contract
unfolding validate_ready_state
action_mark_ready c =
    if is_terminal c.ejar_status
    then err terminal_state
    else if not (is_building c.ejar_status)
    then err not_building
    else then_do (validate_ready_state c) (λ d. ok (post data_complete (set_status ready d)))

-- The wizard that the action opens is the client's affair.
unfoldable pub action_submit_to_ejar : Contract → Result UserError Contract
unfolding is_ready_to_submit
action_submit_to_ejar c =
    if is_terminal c.ejar_status
    then err terminal_state
    else if not (is_ready c.ejar_status || is_building c.ejar_status)
    then err not_submittable
    else if is_building c.ejar_status && is_ready_to_submit c
    then ok (set_status ready c)
    else ok c

unfoldable pub action_reset_to_draft : Contract → Result UserError Contract
action_reset_to_draft c =
    if not (is_rejected c.ejar_status)
    then err not_rejected
    else ok (post reset_to_draft (set_status draft c))

unfoldable pub action_cancel : Contract → Result UserError Contract
action_cancel c =
    if is_terminal c.ejar_status
    then err terminal_state
    else ok (post contract_cancelled (set_status cancelled c))

-- The table of `_check_state_transition`: may a status be followed by another?
unfoldable pub allowed : Status → Status → Bool
allowed draft building = true
allowed draft cancelled = true
allowed building ready = true
allowed building draft = true
allowed building cancelled = true
allowed ready building = true
allowed ready submitting = true
allowed ready cancelled = true
allowed submitting submitted = true
allowed submitting ready = true
allowed submitted approved = true
allowed submitted rejected = true
allowed submitted cancelled = true
allowed approved expired = true
allowed approved cancelled = true
allowed rejected draft = true
allowed rejected cancelled = true
allowed _ _ = false

-- The dates of a contract, and the cap of 2.5% on the brokerage fee: `false` is a ValidationError.
unfoldable pub check_dates : Contract → Bool
check_dates c = elim c.start_date [
  | none ↦ true
  | some s ↦ elim c.end_date [ none ↦ true | some e ↦ ltb s e ]
]

unfoldable pub check_brokerage_fee_cap : Contract → Bool
check_brokerage_fee_cap c =
    not (ltb 0 c.brokerage_fee && ltb 0 c.rent_amount)
    || leb (c.brokerage_fee * 1000) (c.rent_amount * 25)
