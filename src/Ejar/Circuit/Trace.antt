-- ===== src/Ejar/Circuit/Trace.antt =====
-- The circuit breaker over any sequence of calls by any number of threads.
use propza_amlak.Prelude.{ℕ, List, [], ◌∷◌}
use propza_amlak.Ejar.Circuit.{
  Circuit, fresh, circuit_check, circuit_record_success, circuit_record_failure,
}
use propza_amlak.Ejar.Circuit.Invariant.{
  IsSound, fresh-IsSound, circuit_check-IsSound, circuit_record_success-IsSound,
  circuit_record_failure-IsSound,
}

-- One locked call: a check at a time, a success, or a failure at a time.
pub data CircuitCall : Type 0 where
  check : ℕ → ℕ → CircuitCall
  success : CircuitCall
  failure : ℕ → CircuitCall

pub apply : CircuitCall → Circuit → Circuit
apply (check company now) cb = (circuit_check company now cb).0
apply success cb = circuit_record_success cb
apply (failure now) cb = circuit_record_failure now cb

pub run : List CircuitCall → Circuit → Circuit
unfolding apply
run [] cb = cb
run (c ∷ cs) cb = run cs (apply c cb)

run_from-IsSound : (cs : List CircuitCall) (cb : Circuit) → IsSound cb → IsSound (run cs cb)
unfolding run
run_from-IsSound [] cb s = s
run_from-IsSound (check company now ∷ cs) cb s =
    run_from-IsSound cs _ (circuit_check-IsSound company now cb s)
run_from-IsSound (success ∷ cs) cb s = run_from-IsSound cs _ (circuit_record_success-IsSound cb s)
run_from-IsSound (failure now ∷ cs) cb s =
    run_from-IsSound cs _ (circuit_record_failure-IsSound now cb s)

-- In whatever order threads call it, a circuit is closed only below the threshold of failures,
-- open only at or above it, and half open only at or above it with fewer than two successes.
pub run-IsSound : (cs : List CircuitCall) → IsSound (run cs fresh)
run-IsSound cs = run_from-IsSound cs fresh fresh-IsSound
