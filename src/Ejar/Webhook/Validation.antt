-- ===== src/Ejar/Webhook/Validation.antt =====
-- What the validation lets through.
use text.Mathlib.Text.{◌==◌ as str_eq}
use text.Mathlib.TextEquality.{eq_iff}
use propza_amlak.Prelude.{
  ℕ, ◌+◌, ◌≤◌, ◌<◌, ◌≡◌, ◌≢◌, ◌↔◌, true, some, String, ok, err, is_set, arith,
}
use propza_amlak.Ejar.Errors.Classes.{webhook_replay_attack}
use propza_amlak.Ejar.Errors.Status.{make_error}
use propza_amlak.Ejar.Webhook.{
  Parsers, Validated, timestamp_window, delta, company_of, check_signature, validate,
}

-- What must hold of a request for `v` to be its validated payload.
pub record IsAuthentic (ps : Parsers) (now : ℕ) (signature timestamp body : String) (override : ℕ)
    (v : Validated) : Type 0 where
  pub with_timestamp : is_set timestamp ≡ true
  pub stamped : ps.parse_int timestamp ≡ some v.stamp
  pub recent : delta now v.stamp ≤ timestamp_window
  pub with_body : is_set body ≡ true
  pub parsed : ps.parse_json body ≡ some v.payload
  pub of_company : v.company_id ≡ company_of override v.payload
  pub with_company : v.company_id ≢ 0
  pub with_signature : is_set signature ≡ true
  pub with_secret : is_set (ps.secret v.company_id) ≡ true
  pub signed : signature ≡ ps.hmac (ps.secret v.company_id) body
  pub at_now : v.validated_at ≡ now

module _ (ps : Parsers) (now : ℕ) (signature timestamp body : String) (override : ℕ) where
  passes_signature :
      {v : Validated}
      → validate ps now signature timestamp body override ≡ ok v
      → str_eq signature (ps.hmac (ps.secret v.company_id) body) ≡ true
  unfolding validate check_signature
  passes_signature h = ground arith

  passes :
      {v : Validated}
      → validate ps now signature timestamp body override ≡ ok v
      → signature ≡ ps.hmac (ps.secret v.company_id) body
      → IsAuthentic ps now signature timestamp body override v
  unfolding validate check_signature
  passes h e = ground arith

  let_through :
      {v : Validated}
      → IsAuthentic ps now signature timestamp body override v
      → str_eq signature (ps.hmac (ps.secret v.company_id) body) ≡ true
      → validate ps now signature timestamp body override ≡ ok v
  unfolding validate check_signature
  let_through a e = ground arith

  -- The validation passes a request, with what it passes on, exactly if: there are a timestamp, a
  -- body and a signature; the timestamp is a number at most 300 seconds from now; the body parses;
  -- the company is the one given, or else the payload's, and is not zero; its secret is set; and
  -- the signature is the keyed hash of the body under that secret.
  pub validate-IsAuthentic :
      (v : Validated)
      → (validate ps now signature timestamp body override ≡ ok v)
        ↔ IsAuthentic ps now signature timestamp body override v
  validate-IsAuthentic v = (
    λ h. passes h ((eq_iff _ _).0 (passes_signature h)),
    λ a. let_through a ((eq_iff _ _).1 a.signed),
  )

-- A request that is validated at one time is refused as a replay at any time more than 600 seconds
-- later, whatever its signature and body.
validate_replay :
    (ps : Parsers) (now later : ℕ) (signature timestamp body : String) (override : ℕ)
    {v : Validated}
    → validate ps now signature timestamp body override ≡ ok v
    → now + 600 < later
    → validate ps later signature timestamp body override
      ≡ err (make_error webhook_replay_attack "Timestamp outside window")
unfolding validate check_signature
validate_replay ps now later signature timestamp body override h l = ground arith
