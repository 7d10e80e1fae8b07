-- ===== src/Ejar/Webhook/Endpoint/Delivery.antt =====
-- What a delivery of a request changes.
use propza_amlak.Prelude.{ℕ, ◌≡◌, refl, true, Bool-cases, inl, inr, String, Result, ok, err}
use propza_amlak.Ejar.Errors.Status.{EjarError}
use propza_amlak.Ejar.Webhook.{Parsers, Validated, validate}
use propza_amlak.Ejar.Webhook.Endpoint.{
  Server, Request, is_duplicate, handle_validated, webhook_handler,
}

refused_validated :
    (now : ℕ) (correlation : String) (s : Server) (r : Result EjarError Validated)
    → (handle_validated true now correlation s r).1 ≡ s
unfolding handle_validated
refused_validated now correlation s (err e) = refl
refused_validated now correlation s (ok v) =
    elim (Bool-cases (is_duplicate now v.payload.idempotency_key s.logs)) [
      | inl h ↦ rw h refl
      | inr h ↦ rw h refl
    ]

-- As long as Odoo refuses a value that a selection does not have, no request to the webhook changes
-- anything, be it authentic or not: the receipt has the status 'pending', which the log has not.
pub webhook_refused :
    (ps : Parsers) (now : ℕ) (r : Request) (s : Server) → (webhook_handler ps true now r s).1 ≡ s
unfolding webhook_handler
webhook_refused ps now r s =
    refused_validated now r.correlation s (validate ps now r.signature r.timestamp r.body 0)
