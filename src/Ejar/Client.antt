-- ===== src/Ejar/Client.antt =====
-- services/ejar_client.py: the registry of circuit breakers and `_make_request`, the one way by
-- which every endpoint is called. What the session of the `requests` package makes of
-- a request, with the retries of the adapter that `_build_session` mounts on it, is a
-- `Transport`: in the end an exception of it, or a response whose body is parsed (a body that is no JSON
-- counts as one without any key). The check and the recording of the outcome read the clock at two
-- moments.
pub mod Responses
use Prim.Native.String.{◌++◌}
use propza_amlak.Prelude.{
  ℕ, ◌+◌, Option, none, some, ◌||◌, String, List, ◌∷◌, if◌then◌else◌, Result, ok, err, assign,
}
use propza_amlak.Ejar.Errors.Classes.{
  timeout_error, network_error, auth_error, server_error, rate_limit_error, is_instance,
}
use propza_amlak.Ejar.Errors.Status.{EjarError, Body, make_error, raise_for_status}
use propza_amlak.Ejar.Circuit.{
  Circuit, fresh, circuit_check, circuit_record_success, circuit_record_failure,
}
use propza_amlak.Ejar.Auth.{CredentialCache, cache_invalidate}

pub data Transport : Type 0 where
  timeout connection_error : Transport
  request_exception : String → Transport
  response : ℕ → Body → Transport

-- The process-wide state of the client: `_CIRCUIT_BREAKERS`, the credential cache, and the
-- requests given to the session, latest first, without the adapter's retries of each.
pub record ClientState : Type 0 where
  pub circuits : ℕ → Option Circuit
  pub cache : CredentialCache
  pub sent : List (String × String)

abbrev or_fresh : Option Circuit → Circuit
or_fresh none = fresh
or_fresh (some cb) = cb

-- `_get_circuit`: a company without a circuit breaker gets a fresh one.
unfoldable pub get_circuit : ℕ → ClientState → Circuit
get_circuit company s = or_fresh (s.circuits company)

put_circuit : ℕ → Circuit → ClientState → ClientState
put_circuit company cb s = record s { circuits = assign company (some cb) s.circuits }

record_failure : ℕ → ℕ → ClientState → ClientState
unfolding put_circuit get_circuit
record_failure company now s =
    put_circuit company (circuit_record_failure now (get_circuit company s)) s

record_success : ℕ → ClientState → ClientState
unfolding put_circuit get_circuit
record_success company s = put_circuit company (circuit_record_success (get_circuit company s)) s

invalidate : ℕ → ClientState → ClientState
invalidate company s = record s { cache = cache_invalidate company s.cache }

-- The `try` round `raise_for_ejar_status` and what stands behind it.
respond : ℕ → ℕ → Body → Option EjarError → ClientState → Result EjarError Body × ClientState
unfolding record_failure record_success invalidate
respond company now body none s = (ok body, record_success company s)
respond company now body (some e) s =
    if is_instance e.kind server_error
      || is_instance e.kind rate_limit_error
      || is_instance e.kind network_error
    then (err e, record_failure company now s)
    else if is_instance e.kind auth_error
    then (err e, invalidate company s)
    else (err e, s)

receive : ℕ → ℕ → String → String → Transport → ClientState → Result EjarError Body × ClientState
unfolding respond
receive company now method endpoint timeout s = (
  err (make_error timeout_error ("Request timed out: " ++ method ++ " " ++ endpoint)),
  record_failure company now s,
)
receive company now method endpoint connection_error s = (
  err (make_error network_error ("Connection error: " ++ method ++ " " ++ endpoint)),
  record_failure company now s,
)
receive company now method endpoint (request_exception m) s = (
  err (make_error network_error ("Request failed: " ++ method ++ " " ++ endpoint ++ " — " ++ m)),
  record_failure company now s,
)
receive company now method endpoint (response status body) s =
    respond company now body (raise_for_status status body) s

abbrev unless_blocked :
    Option EjarError
    → (ClientState → Result EjarError Body × ClientState)
    → ClientState
    → Result EjarError Body × ClientState
unless_blocked (some e) send s = (err e, s)
unless_blocked none send s = send s

-- `now` is the time of the check, `later` that of the outcome.
unfoldable pub make_request :
    ℕ → ℕ → ℕ → String → String → Transport → ClientState → Result EjarError Body × ClientState
unfolding receive put_circuit get_circuit
make_request company now later method endpoint transport s =
    let (checked, blocked) = circuit_check company now (get_circuit company s) in
    unless_blocked blocked
      (λ t.
        receive company later method endpoint transport
          (record t { sent = (method, endpoint) ∷ t.sent }))
      (put_circuit company checked s)
