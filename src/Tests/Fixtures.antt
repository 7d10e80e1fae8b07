-- ===== src/Tests/Fixtures.antt =====
-- A contract of two parties and a unit, and a platform that answers every call.
use propza_amlak.Prelude.{true, false, none, some, [], ◌∷◌, ok}
use propza_amlak.Ejar.Errors.Status.{Body, Resource}
use propza_amlak.Ejar.Contract.Types.{
  Status, Role, lessor, tenant, individual, pending, Party, ContractUnit, Profile, Contract,
}
use propza_amlak.Ejar.Lifecycle.World.{World, Env}

abbrev pub blank : Body
blank = record { errors = []; message = none; resource = none; error_code = none }

abbrev pub resource : Resource
resource = record { id = "id-1"; contract_number = "EJ-1"; state = "active"; rejection_reason = "" }

abbrev pub answered : Body
answered = record { errors = []; message = none; resource = some resource; error_code = none }

abbrev pub party : Role → Party
party r = record {
  role = r;
  entity_type = individual;
  id_number = "1000000001";
  mobile = "0501234567";
  full_name_ar = "Sara";
  id_type = "national_id";
  id_expiry = none;
  email = "";
  nationality = "SA";
  cr_number = "";
  unified_number = "";
  iban = "SA03";
  proxy_doc = "";
  proxy_doc_filename = "";
  proxy_doc_type = "";
  ejar_entity_id = "";
  ejar_party_id = "";
  ejar_proxy_doc_id = "";
  sync_state = pending;
}

abbrev pub unit : ContractUnit
unit = record {
  deed_number = "D1";
  national_address_code = "RRRD2929";
  area = 120;
  ejar_property_id = "p-1";
  ejar_unit_id = "u-1";
  ejar_contract_unit_id = "";
  sync_state = pending;
}

abbrev pub profile : Profile
profile = record {
  cr_number = "1010";
  unified_number = "700";
  license_number = "L1";
  license_expired = false;
  has_representative = true;
  representative_national_id = "1000000002";
  office_name_ar = "Amlak";
}

abbrev pub contract : Status → Contract
contract s = record {
  company_id = 1;
  name = "C1";
  ejar_status = s;
  brokerage_profile_id = some profile;
  party_ids = party lessor ∷ party tenant ∷ [];
  unit_ids = unit ∷ [];
  contract_type = "residential";
  contract_sub_type = "new";
  use_type = "families";
  sublease_allowed = false;
  custom_terms = "";
  payment_schedule = "monthly";
  payment_option = "transfer";
  ejar_fees_paid_by = "lessor";
  brokerage_fee_paid_by = "tenant";
  start_date = some 20000;
  end_date = some 20365;
  rent_amount = 6000000;
  brokerage_fee = 150000;
  signed_doc = "JVBERi0=";
  signed_doc_filename = "";
  ejar_contract_id = "";
  ejar_contract_number = "";
  rejection_reason = "";
  submit_attempt = 0;
  submit_error = none;
  ejar_last_sync = none;
  next_poll_at = none;
  poll_count = 0;
  webhook_uuid = "";
  webhook_delivered_at = none;
  webhook_event_type = "";
  webhook_correlation_id = "";
  active_job_uuid = "";
  job_channel = "";
  job_enqueued_at = none;
  job_last_error = none;
  messages = [];
  activities = [];
}

abbrev pub world : Contract → World
world c = record { contract = c; logs = []; saved_contract = c; saved_logs = []; calls = [] }

abbrev pub env : Env
env = record {
  reply = λ cs c. ok answered;
  connect = none;
  profile_of_company = λ n. none;
  now = 1000;
}
