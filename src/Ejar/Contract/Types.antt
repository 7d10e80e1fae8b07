-- ===== src/Ejar/Contract/Types.antt =====
-- The fields of a contract, its parties, units and brokerage profile that the integration reads
-- and writes. An unset text or binary field is the empty text; an amount or area is a whole number
-- of its smallest unit; a date is the number of a day.
use propza_amlak.Prelude.{ℕ, Option, List, String, Bool}
use propza_amlak.Ejar.Errors.Status.{EjarError}

pub data Status : Type 0 where
  draft building ready submitting submitted approved rejected expired cancelled : Status

pub data Role : Type 0 where
  lessor tenant lessor_representative tenant_representative : Role

pub data EntityType : Type 0 where
  individual organization : EntityType

pub data SyncState : Type 0 where
  pending synced failed : SyncState

pub record Party : Type 0 where
  pub role : Role
  pub entity_type : EntityType
  pub id_number : String
  pub mobile : String
  pub full_name_ar : String
  pub id_type : String
  pub id_expiry : Option ℕ
  pub email : String
  pub nationality : String
  pub cr_number : String
  pub unified_number : String
  pub iban : String
  pub proxy_doc : String
  pub proxy_doc_filename : String
  pub proxy_doc_type : String
  pub ejar_entity_id : String
  pub ejar_party_id : String
  pub ejar_proxy_doc_id : String
  pub sync_state : SyncState

pub record ContractUnit : Type 0 where
  pub deed_number : String
  pub national_address_code : String
  pub area : ℕ
  pub ejar_property_id : String
  pub ejar_unit_id : String
  pub ejar_contract_unit_id : String
  pub sync_state : SyncState

pub record Profile : Type 0 where
  pub cr_number : String
  pub unified_number : String
  pub license_number : String
  pub license_expired : Bool
  pub has_representative : Bool
  pub representative_national_id : String
  pub office_name_ar : String

-- What `_validate_ready_state` and the `validate_for_submission` methods list as missing.
pub data Missing : Type 0 where
  no_lessor no_tenant no_unit no_signed_doc no_profile : Missing
  no_id_number no_mobile no_full_name no_registration no_iban no_proxy_doc : Missing
  no_deed_number no_national_address no_area : Missing
  no_cr_number no_unified_number no_license license_is_expired no_representative : Missing
  no_representative_id no_office_name : Missing

-- `UserError` and `ValidationError`, by their message.
pub data UserError : Type 0 where
  terminal_state not_draft not_building not_submittable not_rejected : UserError
  no_ejar_contract no_brokerage_profile transition_not_allowed : UserError
  queue_not_installed job_running no_active_job job_not_pending : UserError
  incomplete : List Missing → UserError

-- What a call can raise; `unexpected` is any other exception, by its text.
pub data Exc : Type 0 where
  ejar : EjarError → Exc
  user : UserError → Exc
  unexpected : String → Exc

-- What an error field shows: the first 2048 characters of an exception's text, or of the
-- information that a failed job left.
pub data ErrorNote : Type 0 where
  cause : Exc → ErrorNote
  job_info : String → ErrorNote

-- Messages in the chatter.
pub data Note : Type 0 where
  building_started data_complete reset_to_draft contract_cancelled submitted_to_ejar : Note
  job_cancelled : Note
  submission_failed : Exc → Note
  rejected_by_ejar approved_by_ejar job_enqueued document_uploaded : String → Note
  dead_letter : ErrorNote → Note
  parties_verified : ℕ → Note
  document_verified : String → Bool → Note
  status_updated : String → Note

pub record Contract : Type 0 where
  pub company_id : ℕ
  pub name : String
  pub ejar_status : Status
  pub brokerage_profile_id : Option Profile
  pub party_ids : List Party
  pub unit_ids : List ContractUnit
  pub contract_type : String
  pub contract_sub_type : String
  pub use_type : String
  pub sublease_allowed : Bool
  pub custom_terms : String
  pub payment_schedule : String
  pub payment_option : String
  pub ejar_fees_paid_by : String
  pub brokerage_fee_paid_by : String
  pub start_date : Option ℕ
  pub end_date : Option ℕ
  pub rent_amount : ℕ
  pub brokerage_fee : ℕ
  pub signed_doc : String
  pub signed_doc_filename : String
  pub ejar_contract_id : String
  pub ejar_contract_number : String
  pub rejection_reason : String
  pub submit_attempt : ℕ
  pub submit_error : Option ErrorNote
  pub ejar_last_sync : Option ℕ
  pub next_poll_at : Option ℕ
  pub poll_count : ℕ
  pub webhook_uuid : String
  pub webhook_delivered_at : Option ℕ
  pub webhook_event_type : String
  pub webhook_correlation_id : String
  pub active_job_uuid : String
  pub job_channel : String
  pub job_enqueued_at : Option ℕ
  pub job_last_error : Option ErrorNote
  pub messages : List Note
  pub activities : List ErrorNote
