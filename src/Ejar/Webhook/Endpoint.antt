-- ===== src/Ejar/Webhook/Endpoint.antt =====
-- controllers/ejar_webhook.py, with `is_duplicate` of services/webhook_validator.py and the log entries
-- of services/webhook_processor.py. The processor is a plain object without `with_delay`, so the
-- request runs it at once. A contract's identifier is its place.
pub mod Delivery
use text.Mathlib.Text.{◌==◌ as str_eq}
use Prim.Native.String.{◌++◌ as append}
use propza_amlak.Prelude.{
  ℕ, ◌+◌, ◌-◌, ◌*◌, Bool, true, false, ◌&&◌, ◌||◌, not, Option, none, some, List, [], ◌∷◌, ◌++◌,
  String, is_set, Result, ok, err, leb, if◌then◌else◌,
}
use propza_amlak.Ejar.Errors.Classes.{webhook_error, is_instance}
use propza_amlak.Ejar.Errors.Status.{EjarError}
use propza_amlak.Ejar.Contract.Types.{Contract}
use propza_amlak.Ejar.Lifecycle.World.{nth, update_at}
use propza_amlak.Ejar.SyncLog.{Entry, log_call, write}
use propza_amlak.Ejar.Webhook.{Payload, Parsers, Validated, validate, process_webhook}

pub record Server : Type 0 where
  pub contracts : List Contract
  pub logs : List Entry

-- The headers and the body; an absent header is the empty text. `correlation` is the one of the
-- header or the one that is made up.
pub record Request : Type 0 where
  pub signature : String
  pub timestamp : String
  pub body : String
  pub correlation : String

pub data Response : Type 0 where
  received : Response
  accepted : String → Response
  bad_request : String → Response
  internal_error : Response

-- 24 hours.
abbrev pub duplicate_window : ℕ
duplicate_window = 86400

-- `create_date >= now - 24 hours`, with the key.
abbrev pub is_recent : ℕ → String → Entry → Bool
is_recent now key e = str_eq e.idempotency_key key && leb now (e.create_date + duplicate_window)

unfoldable pub has_recent : ℕ → String → List Entry → Bool
has_recent now key [] = false
has_recent now key (e ∷ log) = let rest = has_recent now key log in is_recent now key e || rest

unfoldable pub is_duplicate : ℕ → String → List Entry → Bool
unfolding has_recent
is_duplicate now key log = if is_set key then has_recent now key log else false

abbrev pub action_of : Validated → String
action_of v = append "webhook_" v.payload.event_type

-- The receipt that is logged first.
abbrev pub receipt : ℕ → Validated → String → Entry
receipt now v correlation = record {
  action = action_of v;
  contract_id = v.payload.contract_id;
  company_id = v.company_id;
  correlation_id = correlation;
  idempotency_key = v.payload.idempotency_key;
  status = "pending";
  error_message = "";
  create_date = now;
}

-- A write to the first entry that a search finds.
unfoldable pub write_first :
    (Entry → Bool) → List String → (Entry → Entry) → List Entry → List Entry
unfolding write
write_first test keys f [] = []
write_first test keys f (e ∷ log) =
    let rest = write_first test keys f log in if test e then write keys f e ∷ log else e ∷ rest

-- What processing raises: a webhook error, or Odoo's own.
pub data Failure : Type 0 where
  webhook : EjarError → Failure
  value_error : Failure

abbrev pub set_status : String → String → Entry → Entry
set_status status message e = record e { status = status; error_message = message }

-- Steps 2 to 6, after the receipt, and what the handler of a webhook error writes.
abbrev pub route :
    ℕ → Validated → String → Server → Result EjarError Contract → Result Failure (Unit {0}) × Server
unfolding write_first
route now v correlation s (ok c) = (
  ok tt,
  record {
    contracts = update_at v.payload.contract_id (λ old. c) s.contracts;
    logs =
        write_first (λ e. str_eq e.correlation_id correlation && str_eq e.action (action_of v))
          ("status" ∷ []) (set_status "success" "") s.logs;
  },
)
route now v correlation s (err e) = (
  err (webhook e),
  if is_instance e.kind webhook_error
      then record s {
        logs =
            write_first (λ x. str_eq x.correlation_id correlation)
              ("status" ∷ "error_type" ∷ "error_message" ∷ "is_permanent_error" ∷ [])
              (set_status "error" e.message) s.logs;
      }
      else s,
)

unfoldable pub after_receipt :
    ℕ → Validated → String → Server → Option (List Entry) → Result Failure (Unit {0}) × Server
unfolding route process_webhook
after_receipt now v correlation s none = (err value_error, s)
after_receipt now v correlation s (some log) =
    route now v correlation (record s { logs = log })
      (process_webhook now v.payload correlation (nth s.contracts v.payload.contract_id))

-- `process_webhook` with its entries; `enforced` says whether Odoo refuses a status that the
-- selection does not have.
unfoldable pub process : Bool → ℕ → Validated → String → Server → Result Failure (Unit {0}) × Server
unfolding after_receipt log_call
process enforced now v correlation s =
    after_receipt now v correlation s (log_call enforced (receipt now v correlation) s.logs)

abbrev pub error_response : EjarError → Response
error_response e =
    if is_instance e.kind webhook_error then bad_request e.message else internal_error

abbrev pub respond : String → Result Failure (Unit {0}) × Server → Response × Server
respond correlation (ok u, s) = (accepted correlation, s)
respond correlation (err (webhook e), s) = (error_response e, s)
respond correlation (err value_error, s) = (internal_error, s)

unfoldable pub handle_validated :
    Bool → ℕ → String → Server → Result EjarError Validated → Response × Server
unfolding is_duplicate process
handle_validated enforced now correlation s (err e) = (error_response e, s)
handle_validated enforced now correlation s (ok v) =
    if is_duplicate now v.payload.idempotency_key s.logs
    then (received, s)
    else respond correlation (process enforced now v correlation s)

unfoldable pub webhook_handler : Parsers → Bool → ℕ → Request → Server → Response × Server
unfolding handle_validated
webhook_handler ps enforced now r s =
    handle_validated enforced now r.correlation s (validate ps now r.signature r.timestamp r.body 0)
