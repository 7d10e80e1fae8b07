-- ===== src/Ejar/Policy.antt =====
-- services/job_policies.py: what queue_job is told about a failed call.
use propza_amlak.Prelude.{
  ℕ, ◌≤◌, ◌≡◌, refl, ◌↔◌, ◌⊎◌, Bool, true, false, Option, none, some, [], ◌∷◌, ◌&&◌, not, String,
  arith, if◌then◌else◌,
}
use Prim.Native.Nat.{max}
use propza_amlak.Ejar.Errors.Classes.{
  ErrorClass, network_error, timeout_error, auth_error, forbidden_error, rate_limit_error,
  validation_error, not_found_error, server_error, identity_validation_error, token_error,
  token_expired_error, circuit_open_error, configuration_error, payload_error, webhook_error,
  is_permanent, is_instance, is_instance_of_any,
}
use propza_amlak.Ejar.Errors.Status.{EjarError, Body, raise_for_status}

-- The exception that reaches queue_job: `RetryableJobError`, with its `seconds`, or
-- `FailedJobError`. Both carry the text of the cause.
pub data JobError : Type 0 where
  retryable : String → Option ℕ → JobError
  failed : String → JobError

-- `except EjarAPIError: classify_ejar_exception(exc)`; every branch raises.
unfoldable pub classify : EjarError → JobError
unfolding is_instance is_instance_of_any
classify e =
    if is_instance_of_any e.kind (network_error ∷ timeout_error ∷ [])
    then retryable e.message none
    else if is_instance e.kind rate_limit_error
    then retryable e.message (some (max e.retry_after 5))
    else if is_instance e.kind server_error
    then retryable e.message none
    else if is_instance e.kind circuit_open_error
    then retryable e.message (some (max e.retry_after 5))
    else if is_instance e.kind auth_error
    then retryable e.message (some 30)
    else if is_instance_of_any e.kind (token_expired_error ∷ [])
    then retryable e.message (some 60)
    else if is_instance_of_any e.kind (
        validation_error ∷ forbidden_error ∷ not_found_error ∷ payload_error ∷ configuration_error
        ∷ token_error ∷ [])
    then failed e.message
    else retryable e.message none

abbrev pub is_failed : JobError → Bool
is_failed (retryable m s) = false
is_failed (failed m) = true

-- The classes that are permanent and that the classifier retries all the same.
unfoldable pub retried_anyway : ErrorClass → Bool
unfolding is_instance is_instance_of_any
retried_anyway c =
    is_instance_of_any c (token_expired_error ∷ identity_validation_error ∷ webhook_error ∷ [])

decision :
    (c : ErrorClass) (e : EjarError)
    → is_failed (classify (record e { kind = c })) ≡ (is_permanent c && not (retried_anyway c))
unfolding classify is_permanent retried_anyway
decision network_error e = refl
decision _ e = refl

-- A call is given up exactly when its error is permanent, but for an expired token, a failed
-- identity check and the webhook errors, which are permanent and retried.
pub classify-is_failed :
    (e : EjarError) → is_failed (classify e) ≡ (is_permanent e.kind && not (retried_anyway e.kind))
classify-is_failed e = decision e.kind e

-- A response with an error status is given up for 400, 403, 404 and 422, and for no other status.
classify-raise_for_status :
    (st : ℕ) (b : Body) {e : EjarError}
    → raise_for_status st b ≡ some e
    → (is_failed (classify e) ≡ true) ↔ ((st ≡ 400) ⊎ (st ≡ 403) ⊎ (st ≡ 404) ⊎ (st ≡ 422))
unfolding raise_for_status is_permanent retried_anyway
classify-raise_for_status st b {e} h =
    rw (classify-is_failed e) (λ p. ground arith, λ p. ground arith)

delay :
    (c : ErrorClass) (e : EjarError) (m : String) (s : ℕ)
    → classify (record e { kind = c }) ≡ retryable m (some s)
    → 5 ≤ s
unfolding classify
delay network_error e m s h = ground arith
delay _ e m s h = ground arith

-- Where the classifier names a delay, it is at least five seconds.
pub classify_delay :
    (e : EjarError) {m : String} {s : ℕ} → classify e ≡ retryable m (some s) → 5 ≤ s
classify_delay e {m} {s} h = delay e.kind e m s h
