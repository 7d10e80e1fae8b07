-- ===== src/Tests/Webhook.antt =====
-- A webhook request signed by a stand-in for the keyed hash.
use propza_amlak.Prelude.{◌≡◌, ◌↔◌, refl, true, false, some, [], ◌∷◌, ok}
use propza_amlak.Ejar.Contract.Types.{lessor, submitted, Party, Contract}
use propza_amlak.Ejar.Webhook.{
  Payload, at, Parsers, Validated, check_signature, validate, process_webhook, handler,
  handle_contract_approved, track,
}
use propza_amlak.Ejar.Webhook.Validation.{IsAuthentic, validate-IsAuthentic}
use propza_amlak.Ejar.SyncLog.{log_call, write, are_safe}
use propza_amlak.Ejar.Webhook.Endpoint.{
  Server, Request, accepted, is_duplicate, receipt, webhook_handler, handle_validated, process,
  after_receipt, write_first,
}
use propza_amlak.Ejar.Webhook.Endpoint.Delivery.{webhook_refused}
use propza_amlak.Tests.Fixtures.{contract, party}

abbrev payload : Payload
payload = record {
  event_type = "contract.approved";
  company = 1;
  contract_id = 0;
  idempotency_key = "k-1";
  webhook_id = "w-1";
  contract_number = "EJ-1";
  reason = "";
  parties = [];
  document_type = "";
  is_verified = false;
  new_status = "";
}

abbrev parsers : Parsers
parsers = record {
  parse_int = λ s. some (at 1000);
  parse_json = λ s. some payload;
  secret = λ n. "secret";
  hmac = λ k b. "5ec4e7";
}

abbrev validated : Validated
validated = record { payload = payload; validated_at = 1100; stamp = at 1000; company_id = 1 }

validate-IsAuthentic_example :
    (validate parsers 1100 "5ec4e7" "1000" "{}" 0 ≡ ok validated)
    ↔ IsAuthentic parsers 1100 "5ec4e7" "1000" "{}" 0 validated
validate-IsAuthentic_example = validate-IsAuthentic parsers 1100 "5ec4e7" "1000" "{}" 0 validated

-- The submitted contract, after its approval.
abbrev approved_contract : Contract
unfolding handle_contract_approved
approved_contract = track 1100 payload "cid" (handle_contract_approved payload (contract submitted))

abbrev added : Party
added = record (party lessor) { ejar_party_id = "a" }

-- One contract, and a request for its approval.
abbrev server : Server
server = record { contracts = contract submitted ∷ []; logs = [] }

abbrev request : Request
request = record { signature = "5ec4e7"; timestamp = "1000"; body = "{}"; correlation = "cid" }

webhook_refused_example : (webhook_handler parsers true 1100 request server).1 ≡ server
webhook_refused_example = webhook_refused parsers 1100 request server

abbrev approved_server : Server
unfolding approved_contract
approved_server = record {
  contracts = approved_contract ∷ [];
  logs = receipt 1100 validated "cid" ∷ [];
}

accepted_run : webhook_handler parsers false 1100 request server ≡ (accepted "cid", approved_server)
unfolding webhook_handler validate check_signature handle_validated is_duplicate process log_call
    after_receipt process_webhook handler handle_contract_approved approved_contract approved_server
    write_first write are_safe
accepted_run = refl
