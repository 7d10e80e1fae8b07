-- ===== src/Ejar/Circuit.antt =====
-- services/ejar_client.py: the circuit breaker of a company (`_CircuitBreakerState`,
-- `_circuit_check`, `_circuit_record_success`, `_circuit_record_failure`). A time is a reading of
-- `time.monotonic()` in microseconds. Each method holds the lock from its first to its last
-- access, so threads interleave whole calls, which are the steps of `Ejar/Circuit/Trace.antt`.
pub mod Invariant
pub mod Trace
use Prim.Native.String.{◌++◌}
use propza_amlak.Prelude.{
  ℕ, ◌+◌, ◌-◌, ◌*◌, ◌/◌, Option, none, some, String, leb, ltb, if◌then◌else◌, show,
}
use propza_amlak.Ejar.Errors.Classes.{circuit_open_error}
use propza_amlak.Ejar.Errors.Status.{EjarError, make_error}

pub data CbState : Type 0 where
  closed open_state half_open : CbState

pub record Circuit : Type 0 where
  pub state : CbState
  pub failure_count : ℕ
  pub last_failure_at : ℕ
  pub half_open_success_count : ℕ

-- constants.py
abbrev pub cb_failure_threshold : ℕ
cb_failure_threshold = 5

abbrev pub cb_recovery_timeout : ℕ
cb_recovery_timeout = 60

abbrev pub cb_success_threshold : ℕ
cb_success_threshold = 2

abbrev pub second : ℕ
second = 1000000

abbrev pub fresh : Circuit
fresh = record {
  state = closed;
  failure_count = 0;
  last_failure_at = 0;
  half_open_success_count = 0;
}

open_error : ℕ → ℕ → Circuit → EjarError
open_error company elapsed cb =
    let left = (cb_recovery_timeout * second - elapsed) / second in
    record (make_error circuit_open_error
      ("Circuit open for company " ++ show company ++ " — retry in " ++ show left ++ "s")) {
        retry_after = left;
        failure_count = cb.failure_count;
      }

-- The state that the check leaves, by the state that it finds, and the exception that it raises.
check_in : CbState → ℕ → ℕ → Circuit → Circuit × Option EjarError
unfolding open_error
check_in open_state company now cb =
    let elapsed = now - cb.last_failure_at in
    if ltb elapsed (cb_recovery_timeout * second)
    then (cb, some (open_error company elapsed cb))
    else (record cb { state = half_open; half_open_success_count = 0 }, none)
check_in _ company now cb = (cb, none)

unfoldable pub circuit_check : ℕ → ℕ → Circuit → Circuit × Option EjarError
unfolding check_in
circuit_check company now cb = check_in cb.state company now cb

success_in : CbState → Circuit → Circuit
success_in half_open cb =
    let counted = record cb { half_open_success_count = cb.half_open_success_count + 1 } in
    if leb cb_success_threshold counted.half_open_success_count
    then record counted { state = closed; failure_count = 0 }
    else counted
success_in closed cb = record cb { failure_count = 0 }
success_in open_state cb = cb

unfoldable pub circuit_record_success : Circuit → Circuit
unfolding success_in
circuit_record_success cb = success_in cb.state cb

unfoldable pub circuit_record_failure : ℕ → Circuit → Circuit
circuit_record_failure now cb =
    let counted = record cb { failure_count = cb.failure_count + 1; last_failure_at = now } in
    if leb cb_failure_threshold counted.failure_count
    then record counted { state = open_state }
    else counted
