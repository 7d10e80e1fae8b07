-- ===== src/Ejar/Webhook.antt =====
-- services/webhook_validator.py and services/webhook_processor.py. The parsers, the keyed hash and
-- the secrets are parameters; a payload is a JSON object of the documented keys, in which an absent
-- text is the empty text and an absent number is 0.
pub mod Validation
pub mod Events
pub mod Endpoint
use text.Mathlib.Text.{◌==◌ as str_eq}
use propza_amlak.Prelude.{
  ℕ, ◌+◌, ◌-◌, ◌≤◌, Bool, true, false, Option, none, some, List, [], ◌∷◌, ◌++◌, map, length, String,
  Result, ok, err, ltb, ◌==◌, not, if◌then◌else◌, is_set,
}
use propza_amlak.Ejar.Errors.Classes.{
  ErrorClass, webhook_timestamp_missing, webhook_replay_attack, webhook_invalid_json,
  webhook_config_missing, webhook_signature_missing, webhook_signature_invalid,
  webhook_contract_not_found, webhook_unknown_event_type,
}
use propza_amlak.Ejar.Errors.Status.{EjarError, make_error}
use propza_amlak.Ejar.Contract.Types.{
  approved, rejected, synced, approved_by_ejar, rejected_by_ejar, parties_verified,
  document_verified, status_updated, Party, Contract,
}
use propza_amlak.Ejar.Contract.Actions.{post}

pub record Payload : Type 0 where
  pub event_type : String
  pub company : ℕ
  pub contract_id : ℕ
  pub idempotency_key : String
  pub webhook_id : String
  pub contract_number : String
  pub reason : String
  pub parties : List String
  pub document_type : String
  pub is_verified : Bool
  pub new_status : String

-- The value of a header that `int` accepts: a number, or the negative of a number's successor.
pub data Stamp : Type 0 where
  at : ℕ → Stamp
  before_epoch : ℕ → Stamp

-- `int`, `json.loads` of the decoded body, the secret of a company, and HMAC-SHA256 in hex.
pub record Parsers : Type 0 where
  pub parse_int : String → Option Stamp
  pub parse_json : String → Option Payload
  pub secret : ℕ → String
  pub hmac : String → String → String

pub record Validated : Type 0 where
  pub payload : Payload
  pub validated_at : ℕ
  pub stamp : Stamp
  pub company_id : ℕ

-- `TIMESTAMP_WINDOW_SECONDS`
abbrev pub timestamp_window : ℕ
timestamp_window = 300

-- `abs(now - request_time)`
abbrev pub delta : ℕ → Stamp → ℕ
delta now (at t) = (now - t) + (t - now)
delta now (before_epoch n) = now + n + 1

-- `company_id or webhook_dict.get('company_id')`
abbrev pub company_of : ℕ → Payload → ℕ
company_of override p = if override == 0 then p.company else override

abbrev fail : {A : Type 0} → ErrorClass → String → Result EjarError A
fail c m = err (make_error c m)

-- Steps 3 to 7.
unfoldable pub check_signature :
    Parsers → ℕ → String → String → ℕ → Stamp → Payload → Result EjarError Validated
check_signature ps now signature body company t p =
    if company == 0
    then fail webhook_config_missing "Missing company_id in payload"
    else if not (is_set signature)
    then fail webhook_signature_missing "Missing signature"
    else if not (is_set (ps.secret company))
    then fail webhook_config_missing "Webhook secret not configured"
    else if not (str_eq signature (ps.hmac (ps.secret company) body))
    then fail webhook_signature_invalid "Signature mismatch"
    else ok (record { payload = p; validated_at = now; stamp = t; company_id = company })

abbrev parse_body :
    Parsers → ℕ → String → String → ℕ → Stamp → Option Payload → Result EjarError Validated
parse_body ps now signature body override t none = fail webhook_invalid_json "Failed to parse JSON"
parse_body ps now signature body override t (some p) =
    check_signature ps now signature body (company_of override p) t p

abbrev check_window : Parsers → ℕ → String → String → ℕ → Option Stamp → Result EjarError Validated
check_window ps now signature body override none =
    fail webhook_timestamp_missing "Invalid timestamp"
check_window ps now signature body override (some t) =
    if ltb timestamp_window (delta now t)
    then fail webhook_replay_attack "Timestamp outside window"
    else if not (is_set body)
    then fail webhook_invalid_json "Empty request body"
    else parse_body ps now signature body override t (ps.parse_json body)

-- `validate`; an `override` of 0 is `company_id=None`.
unfoldable pub validate : Parsers → ℕ → String → String → String → ℕ → Result EjarError Validated
validate ps now signature timestamp body override =
    if not (is_set timestamp)
    then fail webhook_timestamp_missing "Missing timestamp"
    else check_window ps now signature body override (ps.parse_int timestamp)

-- `contract.party_ids.filtered(…)` and the write to what it finds.
abbrev pub sync_party : String → Party → Party
sync_party id p = if str_eq p.ejar_party_id id then record p { sync_state = synced } else p

unfoldable pub sync_parties : List String → List Party → List Party
sync_parties [] ps = ps
sync_parties (id ∷ ids) ps = sync_parties ids (map (sync_party id) ps)

unfoldable pub handle_contract_approved : Payload → Contract → Contract
handle_contract_approved p c =
    post (approved_by_ejar p.contract_number)
      (record c { ejar_status = approved; ejar_contract_number = p.contract_number })

unfoldable pub handle_contract_rejected : Payload → Contract → Contract
handle_contract_rejected p c =
    post (rejected_by_ejar p.reason)
      (record c { ejar_status = rejected; rejection_reason = p.reason })

unfoldable pub handle_acknowledgement_completed : Payload → Contract → Contract
handle_acknowledgement_completed p c =
    post (parties_verified (length p.parties))
      (record c { party_ids = sync_parties p.parties c.party_ids })

unfoldable pub handle_document_verification : Payload → Contract → Contract
handle_document_verification p c = post (document_verified p.document_type p.is_verified) c

unfoldable pub handle_status_update : Payload → Contract → Contract
handle_status_update p c = post (status_updated p.new_status) c

-- `handler_map`
unfoldable pub handler : String → Option (Payload → Contract → Contract)
handler e =
    if str_eq e "contract.approved"
    then some handle_contract_approved
    else if str_eq e "contract.rejected"
    then some handle_contract_rejected
    else if str_eq e "acknowledgement.completed"
    then some handle_acknowledgement_completed
    else if str_eq e "document.verification"
    then some handle_document_verification
    else if str_eq e "status.update"
    then some handle_status_update
    else none

-- Steps 5 and 6.
abbrev pub track : ℕ → Payload → String → Contract → Contract
track now p correlation c = record c {
  webhook_uuid = p.webhook_id;
  webhook_delivered_at = some now;
  webhook_event_type = p.event_type;
  webhook_correlation_id = correlation;
}

abbrev run_handler :
    ℕ
    → Payload
    → String
    → Contract
    → Option (Payload → Contract → Contract)
    → Result EjarError Contract
run_handler now p correlation c none = fail webhook_unknown_event_type "Unknown event"
run_handler now p correlation c (some h) = ok (track now p correlation (h p c))

-- `process_webhook` on the contract that the identifier names, if it exists. What it writes to the
-- log entry does not arrive: the log keeps its entries as they are.
unfoldable pub process_webhook : ℕ → Payload → String → Option Contract → Result EjarError Contract
process_webhook now p correlation none = fail webhook_contract_not_found "Contract not found"
process_webhook now p correlation (some c) = run_handler now p correlation c (handler p.event_type)
