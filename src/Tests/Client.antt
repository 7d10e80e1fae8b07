-- ===== src/Tests/Client.antt =====
-- One request of company 1.
use propza_amlak.Prelude.{◌≡◌, refl, none, some, [], ◌∷◌, if◌then◌else◌, ◌==◌}
use propza_amlak.Ejar.Errors.Status.{EjarError, make_error}
use propza_amlak.Ejar.Errors.Classes.{circuit_open_error}
use propza_amlak.Ejar.Circuit.{
  open_state, circuit_check, circuit_record_success, circuit_record_failure,
}
use propza_amlak.Ejar.Auth.{cache_invalidate}
use propza_amlak.Ejar.Client.{response, ClientState, get_circuit, make_request}
use propza_amlak.Ejar.Client.Responses.{is_success, is_failure, make_request-response}
use propza_amlak.Tests.Fixtures.{blank}
use propza_amlak.Tests.Circuit.{tripped}

abbrev idle : ClientState
idle = record { circuits = λ n. none; cache = λ n. none; sent = [] }

abbrev tripped_client : ClientState
tripped_client = record { circuits = λ n. some (tripped open_state); cache = λ n. none; sent = [] }

abbrev blocked_error : EjarError
blocked_error = elim (circuit_check 1 20000000 (tripped open_state)).1 [
  | none ↦ make_error circuit_open_error ""
  | some e ↦ e
]

make_request-response_example :
    let checked = (circuit_check 1 5 (get_circuit 1 idle)).0 in
    let s = (make_request 1 5 6 "GET" "/contracts" (response 503 blank) idle).1 in
    (get_circuit 1 s ≡ (
      if is_success 503
      then circuit_record_success checked
      else if is_failure 503
      then circuit_record_failure 6 checked
      else checked))
    × (s.cache ≡ (if 503 == 401 then cache_invalidate 1 idle.cache else idle.cache))
    × (s.sent ≡ ("GET", "/contracts") ∷ [])
unfolding get_circuit circuit_check
make_request-response_example = make_request-response 1 5 6 "GET" "/contracts" 503 blank idle refl
