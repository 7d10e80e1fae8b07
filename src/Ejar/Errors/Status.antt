-- ===== src/Ejar/Errors/Status.antt =====
-- The values of the exceptions of services/exceptions.py and `raise_for_ejar_status`. A response
-- body is a JSON object of the documented shape; a key that is missing is `none` or the empty list.
use Prim.Native.String.{◌++◌}
use propza_amlak.Prelude.{
  ℕ, ◌≤◌, ◌<◌, ◌≡◌, ◌↔◌, Option, none, some, List, [], ◌∷◌, ◌&&◌, ◌||◌, String, arith, leb, ltb,
  ◌==◌, if◌then◌else◌, or_text, show,
}
use propza_amlak.Ejar.Errors.Classes.{
  ErrorClass, api_error, auth_error, forbidden_error, rate_limit_error, validation_error,
  not_found_error, conflict_error, server_error,
}

-- An entry of `errors`: `source.pointer` and `detail`.
pub record ErrorItem : Type 0 where
  pub pointer : String
  pub detail : String

-- The resource under `data`: its `id` and the attributes that the program reads.
pub record Resource : Type 0 where
  pub id : String
  pub contract_number : String
  pub state : String
  pub rejection_reason : String

pub record Body : Type 0 where
  pub errors : List ErrorItem
  pub message : Option String
  pub resource : Option Resource
  pub error_code : Option String

-- `existing` is the `existing_resource` of a conflict.
pub record EjarError : Type 0 where
  pub kind : ErrorClass
  pub message : String
  pub http_status : Option ℕ
  pub retry_after : ℕ
  pub failure_count : ℕ
  pub existing : Option Resource
  pub field_errors : List ErrorItem
  pub ejar_error_code : Option String

-- An exception with a message alone; 60 and 0 are the defaults of the constructors.
abbrev pub make_error : ErrorClass → String → EjarError
make_error c m = record {
  kind = c;
  message = m;
  http_status = none;
  retry_after = 60;
  failure_count = 0;
  existing = none;
  field_errors = [];
  ejar_error_code = none;
}

-- `errors[0].get("detail", "") if errors else ""`
abbrev first_detail : List ErrorItem → String
first_detail [] = String.[]
first_detail (e ∷ es) = e.detail

abbrev get_or : Option String → String → String
get_or none d = d
get_or (some s) d = s

error_message : ℕ → Body → String
error_message status body =
    or_text (first_detail body.errors) (get_or body.message ("HTTP " ++ show status))

-- `none` is a return, `some e` is `raise e`.
unfoldable pub raise_for_status : ℕ → Body → Option EjarError
unfolding error_message
raise_for_status status body =
    let common = record (make_error api_error (error_message status body)) {
      http_status = some status;
    } in
    if leb 200 status && ltb status 300
    then none
    else if status == 400
    then some (record common { kind = validation_error; field_errors = body.errors })
    else if status == 401
    then some (record common { kind = auth_error })
    else if status == 403
    then some (record common { kind = forbidden_error })
    else if status == 404
    then some (record common { kind = not_found_error })
    else if status == 409
    then some (record common { kind = conflict_error; existing = body.resource })
    else if status == 422
    then some (record common { kind = validation_error; field_errors = body.errors })
    else if status == 429
    then some (record common { kind = rate_limit_error; retry_after = 60 })
    else if status == 500 || status == 502 || status == 503 || status == 504
    then some (record common { kind = server_error; ejar_error_code = body.error_code })
    else some
        (record common { message = "Unexpected HTTP " ++ show status ++ ": " ++ common.message })

-- A status of 200 to 299 raises nothing, and every other status raises.
pub raise_for_status-none :
    (st : ℕ) (b : Body) → (raise_for_status st b ≡ none) ↔ ((200 ≤ st) × (st < 300))
unfolding raise_for_status
raise_for_status-none st b = (λ h. ground arith, λ h. ground arith)

-- The exception carries the status that it was raised for.
pub raise_for_status-http_status :
    (st : ℕ) (b : Body) {e : EjarError} → raise_for_status st b ≡ some e → e.http_status ≡ some st
unfolding raise_for_status
raise_for_status-http_status st b h = ground arith
