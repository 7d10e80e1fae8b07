-- ===== src/Tests/Circuit.antt =====
-- The circuit breaker at single states.
use propza_amlak.Prelude.{some, none, List, [], ◌∷◌}
use propza_amlak.Ejar.Errors.Status.{EjarError, make_error}
use propza_amlak.Ejar.Errors.Classes.{circuit_open_error}
use propza_amlak.Ejar.Circuit.{CbState, open_state, Circuit, fresh, circuit_check}
use propza_amlak.Ejar.Circuit.Invariant.{IsSound}
use propza_amlak.Ejar.Circuit.Trace.{CircuitCall, check, success, failure, run, run-IsSound}

-- A circuit in a state, tripped by five failures at second ten.
abbrev pub tripped : CbState → Circuit
tripped s = record {
  state = s;
  failure_count = 5;
  last_failure_at = 10000000;
  half_open_success_count = 0;
}

-- Five failures, a check that is refused, one after a minute that is let through, and a success.
abbrev calls : List CircuitCall
calls =
    failure 1
    ∷ failure 2
    ∷ failure 3
    ∷ failure 4
    ∷ failure 5
    ∷ check 1 6
    ∷ check 1 60000006
    ∷ success
    ∷ []

run-IsSound_example : IsSound (run calls fresh)
run-IsSound_example = run-IsSound calls

-- The error of a check ten seconds after the last failure.
abbrev blocked : EjarError
blocked = elim (circuit_check 1 20000000 (tripped open_state)).1 [
  | none ↦ make_error circuit_open_error ""
  | some e ↦ e
]
