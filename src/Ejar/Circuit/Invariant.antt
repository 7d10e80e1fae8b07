-- ===== src/Ejar/Circuit/Invariant.antt =====
-- What every call of the circuit breaker keeps, and how each call changes the state.
use propza_amlak.Prelude.{ℕ, ◌+◌, ◌-◌, ◌*◌, ◌≤◌, ◌<◌, ◌≡◌, ◌≢◌, ◌↔◌, none, some, arith}
use propza_amlak.Ejar.Errors.Status.{EjarError}
use propza_amlak.Ejar.Circuit.{
  closed, open_state, half_open, Circuit, cb_failure_threshold, cb_recovery_timeout,
  cb_success_threshold, second, fresh, circuit_check, circuit_record_success,
  circuit_record_failure,
}

pub record IsSound (cb : Circuit) : Type 0 where
  pub closed_below : cb.state ≡ closed → cb.failure_count < cb_failure_threshold
  pub tripped : cb.state ≡ open_state → cb_failure_threshold ≤ cb.failure_count
  pub probing :
      cb.state ≡ half_open
      → (cb_failure_threshold ≤ cb.failure_count)
        × (cb.half_open_success_count < cb_success_threshold)

pub fresh-IsSound : IsSound fresh
fresh-IsSound = ground arith

pub circuit_check-IsSound :
    (company now : ℕ) (cb : Circuit) → IsSound cb → IsSound (circuit_check company now cb).0
unfolding circuit_check
circuit_check-IsSound company now cb s = ground arith

pub circuit_record_success-IsSound :
    (cb : Circuit) → IsSound cb → IsSound (circuit_record_success cb)
unfolding circuit_record_success
circuit_record_success-IsSound cb s = ground arith

pub circuit_record_failure-IsSound :
    (now : ℕ) (cb : Circuit) → IsSound cb → IsSound (circuit_record_failure now cb)
unfolding circuit_record_failure
circuit_record_failure-IsSound now cb s = ground arith

-- A check raises exactly while the circuit is open and fewer than sixty seconds have passed since
-- the last failure; then it leaves the circuit alone.
pub circuit_check-blocks_iff :
    (company now : ℕ) (cb : Circuit)
    → ((circuit_check company now cb).1 ≢ none)
      ↔ ((cb.state ≡ open_state) × (now - cb.last_failure_at < cb_recovery_timeout * second))
unfolding circuit_check
circuit_check-blocks_iff company now cb = (λ h. ground arith, λ h p. ground arith)

-- If the clock has not run backwards since the last failure, the error of a blocked call names a
-- delay of at most sixty seconds, and the call passes the check one second after that delay.
pub circuit_check-retry_after :
    (company now : ℕ) (cb : Circuit) {e : EjarError}
    → cb.last_failure_at ≤ now
    → (circuit_check company now cb).1 ≡ some e
    → (e.retry_after ≤ cb_recovery_timeout)
      × ((circuit_check company (now + (e.retry_after + 1) * second) cb).1 ≡ none)
unfolding circuit_check
circuit_check-retry_after company now cb p h = ground arith

-- In a sound circuit that is being probed, one failure opens it again.
pub half_open-failure_opens :
    (now : ℕ) (cb : Circuit)
    → IsSound cb
    → cb.state ≡ half_open
    → (circuit_record_failure now cb).state ≡ open_state
unfolding circuit_record_failure
half_open-failure_opens now cb s h = ground arith

-- An open circuit whose timeout has passed admits the next call, and is closed with its counter
-- reset by two successes, not by one.
recovery :
    (company now : ℕ) (cb : Circuit)
    → cb.state ≡ open_state
    → cb_recovery_timeout * second ≤ now - cb.last_failure_at
    → let (probed, e) = circuit_check company now cb in
      (e ≡ none)
      × ((circuit_record_success probed).state ≡ half_open)
      × ((circuit_record_success (circuit_record_success probed)).state ≡ closed)
      × ((circuit_record_success (circuit_record_success probed)).failure_count ≡ 0)
unfolding circuit_check circuit_record_success
recovery company now cb h late = ground arith
