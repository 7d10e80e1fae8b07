-- ===== src/Ejar/Client/Responses.antt =====
-- services/ejar_client.py: `_make_request` against the circuit breakers and the credential cache.
use propza_amlak.Prelude.{
  ℕ, ◌≡◌, ◌≢◌, Bool, none, some, ◌||◌, ◌&&◌, String, ◌∷◌, arith, leb, ltb, ◌==◌, if◌then◌else◌, err,
}
use propza_amlak.Ejar.Errors.Classes.{is_instance}
use propza_amlak.Ejar.Errors.Status.{EjarError, Body, raise_for_status}
use propza_amlak.Ejar.Circuit.{circuit_check, circuit_record_success, circuit_record_failure}
use propza_amlak.Ejar.Auth.{cache_invalidate}
use propza_amlak.Ejar.Client.{Transport, response, ClientState, get_circuit, make_request}

-- While the circuit blocks, the call raises the circuit's error and hands nothing to the network.
pub make_request-blocked :
    (company now later : ℕ) (method endpoint : String) (t : Transport) (s : ClientState)
    {e : EjarError}
    → (circuit_check company now (get_circuit company s)).1 ≡ some e
    → let (r, s') = make_request company now later method endpoint t s in
      (r ≡ err e) × (s'.sent ≡ s.sent) × (s'.cache ≡ s.cache)
unfolding make_request
make_request-blocked company now later method endpoint t s h = ground arith

-- A status is a success of the service, a failure of it, or says nothing of its health.
abbrev pub is_success : ℕ → Bool
is_success st = leb 200 st && ltb st 300

abbrev pub is_failure : ℕ → Bool
is_failure st = st == 429 || st == 500 || st == 502 || st == 503 || st == 504

-- A call that is not blocked, and for which the session ends with a response (after the retries of
-- its adapter, if any), is given to the session once; by that last response, the circuit
-- records a success for 200 to 299, a failure for 429, 500, 502, 503 and 504, and nothing for any
-- other status; the credentials of the company are dropped from the cache for 401 alone.
pub make_request-response :
    (company now later : ℕ) (method endpoint : String) (st : ℕ) (b : Body) (s : ClientState)
    → (circuit_check company now (get_circuit company s)).1 ≡ none
    → let checked = (circuit_check company now (get_circuit company s)).0 in
      let s' = (make_request company now later method endpoint (response st b) s).1 in
      (get_circuit company s' ≡ (
        if is_success st
        then circuit_record_success checked
        else if is_failure st
        then circuit_record_failure later checked
        else checked))
      × (s'.cache ≡ (if st == 401 then cache_invalidate company s.cache else s.cache))
      × (s'.sent ≡ (method, endpoint) ∷ s.sent)
unfolding make_request raise_for_status is_instance
make_request-response company now later method endpoint st b s h = ground arith

-- A request of one company leaves the circuit of every other company alone.
pub make_request-others :
    (company other now later : ℕ) (method endpoint : String) (t : Transport) (s : ClientState)
    → other ≢ company
    → (make_request company now later method endpoint t s).1.circuits other ≡ s.circuits other
unfolding make_request is_instance
make_request-others company other now later method endpoint (response st b) s ne = ground arith
make_request-others company other now later method endpoint _ s ne = ground arith
