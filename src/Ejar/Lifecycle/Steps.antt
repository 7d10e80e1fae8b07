-- ===== src/Ejar/Lifecycle/Steps.antt =====
-- The steps of `EjarContractLifecycleService`, each with its test whether it has been done before.
use Prim.Native.String.{◌++◌}
use propza_amlak.Prelude.{
  ℕ, Option, none, some, List, [], ◌∷◌, String, if◌then◌else◌, is_set, or_text, not, ◌||◌, Result,
  ok, err,
}
use propza_amlak.Ejar.Errors.Classes.{conflict_error, payload_error, is_instance}
use propza_amlak.Ejar.Errors.Status.{EjarError, Body, Resource, make_error}
use propza_amlak.Ejar.Contract.Types.{
  EntityType, individual, organization, synced, Party, ContractUnit, Profile, no_brokerage_profile,
  incomplete, Missing, Exc, ejar, user,
}
use propza_amlak.Ejar.Contract.Validate.{profile_errors, party_errors, unit_errors}
use propza_amlak.Ejar.Payload.{
  Attributes, build_contract_attributes, build_financial_attributes, build_rental_fee_attributes,
  build_individual_entity_attributes, build_organization_entity_attributes, build_party_attributes,
  is_representative,
}
use propza_amlak.Ejar.Lifecycle.World.{
  Call, create_entity, create_contract, attach_unit, add_party, upload_proxy_document,
  upload_signed_document, add_financial_information, add_rental_fee, submit_contract, success,
  skipped, Env, M, pure, raise, gets, ◌>>=◌, ◌>>◌, for_each, update, sync_log, call, attempt, build,
  nth, update_at, places, with_some,
}

abbrev pub resource_id : Option Resource → String
resource_id none = String.[]
resource_id (some r) = r.id

abbrev resource_number : Option Resource → String
resource_number none = String.[]
resource_number (some r) = r.contract_number

-- `resp.get('data', {}).get('id', '')`
abbrev pub body_id : Body → String
body_id b = resource_id b.resource

abbrev pub body_number : Body → String
body_number b = resource_number b.resource

-- The outcome of a `try`: `except EjarConflictError as exc:` goes on with `h`, and any other
-- exception goes up.
unfoldable pub on_reply :
    {A : Type 0} → Result EjarError Body → (Body → M A) → (EjarError → M A) → M A
unfolding is_instance
on_reply (ok resp) f h = f resp
on_reply (err e) f h = if is_instance e.kind conflict_error then h e else raise (ejar e)

-- The existing resource stands in for the answer, if the conflict names one.
abbrev pub existing_body : EjarError → Body
existing_body e = record { errors = []; message = none; resource = e.existing; error_code = none }

abbrev pub use_existing : EjarError → M Body
use_existing e = if is_set (resource_id e.existing) then pure (existing_body e) else raise (ejar e)

unfoldable pub call_or_existing : Env → Call → M Body
call_or_existing env c = do r ← attempt env c; on_reply r (λ resp. pure resp) use_existing

-- A write to the party or the unit at a place.
unfoldable pub write_party : ℕ → (Party → Party) → M (Unit {0})
unfolding update
write_party i f = update (λ c. record c { party_ids = update_at i f c.party_ids })

unfoldable pub write_unit : ℕ → (ContractUnit → ContractUnit) → M (Unit {0})
unfolding update
write_unit i f = update (λ c. record c { unit_ids = update_at i f c.unit_ids })

abbrev pub for_party : ℕ → (Party → M (Unit {0})) → M (Unit {0})
for_party i f = gets (λ w. nth w.contract.party_ids i) >>= λ o. with_some o (pure tt) f

abbrev pub for_unit : ℕ → (ContractUnit → M (Unit {0})) → M (Unit {0})
for_unit i f = gets (λ w. nth w.contract.unit_ids i) >>= λ o. with_some o (pure tt) f

abbrev pub entity_attributes : EntityType → Party → Result EjarError Attributes
entity_attributes individual p = build_individual_entity_attributes p
entity_attributes organization p = build_organization_entity_attributes p

abbrev entity_action : EntityType → String
entity_action individual = "create_individual_entity"
entity_action organization = "create_organization_entity"

unfoldable pub step_create_entity : Env → ℕ → Party → M (Unit {0})
step_create_entity env i p = do
  attrs ← build (entity_attributes p.entity_type p)
  resp ← call_or_existing env (create_entity p.entity_type attrs)
  write_party i (λ q. record q { ejar_entity_id = body_id resp; sync_state = synced })
  sync_log (entity_action p.entity_type) success none

-- One round of `_resolve_party_entities`.
unfoldable pub resolve_party_entity : Env → ℕ → M (Unit {0})
resolve_party_entity env i = for_party i λ p.
    if is_set p.ejar_entity_id
    then sync_log "create_entity" skipped none
    else step_create_entity env i p

unfoldable pub resolve_party_entities : Env → M (Unit {0})
resolve_party_entities env = do
  ps ← gets (λ w. places 0 w.contract.party_ids)
  for_each ps (resolve_party_entity env)

unfoldable pub step_create_contract : Env → M String
step_create_contract env = do
  c ← gets (λ w. w.contract)
  if is_set c.ejar_contract_id then pure c.ejar_contract_id else do
    attrs ← build (build_contract_attributes c)
    resp ← call_or_existing env (create_contract attrs)
    update
        (λ d. record d { ejar_contract_id = body_id resp; ejar_contract_number = body_number resp })
    sync_log "create_contract" success none
    pure (body_id resp)

abbrev payload_exc : String → Exc
payload_exc m = ejar (make_error payload_error m)

-- After a conflict the reference is taken from it, if any, and nothing is logged.
unfoldable pub step_attach_unit : Env → String → ℕ → M (Unit {0})
step_attach_unit env cid i = for_unit i λ u.
    if is_set u.ejar_contract_unit_id
    then pure tt
    else if not (is_set u.ejar_property_id) || not (is_set u.ejar_unit_id)
    then raise (payload_exc "Unit is missing ejar_property_id / ejar_unit_id.")
    else do
      r ← attempt env (attach_unit cid u.ejar_property_id u.ejar_unit_id)
      on_reply r
          (λ resp. do
            write_unit i
                (λ v. record v { ejar_contract_unit_id = body_id resp; sync_state = synced })
            sync_log "attach_unit" success none)
          (λ e.
            write_unit i (λ v. record v {
              ejar_contract_unit_id = resource_id e.existing;
              sync_state = synced;
            }))

unfoldable pub step_add_party : Env → String → ℕ → M (Unit {0})
step_add_party env cid i = for_party i λ p.
    if is_set p.ejar_party_id
    then pure tt
    else if not (is_set p.ejar_entity_id)
    then raise (payload_exc "Party has no ejar_entity_id before add_party")
    else do
      attrs ← build (build_party_attributes p p.ejar_entity_id)
      r ← attempt env (add_party cid attrs)
      on_reply r
          (λ resp. do
            write_party i (λ q. record q { ejar_party_id = body_id resp; sync_state = synced })
            sync_log "add_party" success none)
          (λ e.
            write_party i
              (λ q. record q { ejar_party_id = resource_id e.existing; sync_state = synced }))

unfoldable pub step_upload_proxy_doc : Env → String → ℕ → M (Unit {0})
step_upload_proxy_doc env cid i = for_party i λ p.
    if not (is_representative p.role)
    then pure tt
    else if is_set p.ejar_proxy_doc_id || not (is_set p.proxy_doc)
    then pure tt
    else if not (is_set p.ejar_party_id)
    then pure tt
    else do
      resp ← call env (
          upload_proxy_document cid p.ejar_party_id p.proxy_doc
            (or_text p.proxy_doc_filename ("proxy_" ++ p.ejar_party_id ++ ".pdf"))
            (or_text p.proxy_doc_type "paper_poa"))
      write_party i (λ q. record q { ejar_proxy_doc_id = body_id resp })
      sync_log "upload_proxy_document" success none

unfoldable pub step_upload_signed_doc : Env → String → M (Unit {0})
step_upload_signed_doc env cid = do
  c ← gets (λ w. w.contract)
  if not (is_set c.signed_doc) then raise (payload_exc "Signed document is missing") else do
    call env (
        upload_signed_document cid c.signed_doc
          (or_text c.signed_doc_filename ("contract_" ++ c.name ++ ".pdf")))
    sync_log "upload_signed_document" success none

-- `except EjarConflictError: pass`
unfoldable pub ignore_conflict : Env → Call → M (Unit {0})
ignore_conflict env c = do r ← attempt env c; on_reply r (λ resp. pure tt) (λ e. pure tt)

unfoldable pub step_add_financial_info : Env → String → M (Unit {0})
step_add_financial_info env cid = do
  c ← gets (λ w. w.contract)
  attrs ← build (build_financial_attributes c)
  ignore_conflict env (add_financial_information cid attrs)
  sync_log "add_financial_information" success none

abbrev pub send_fee : Env → String → Option Attributes → M (Unit {0})
send_fee env cid none = pure tt
send_fee env cid (some attrs) = do
  ignore_conflict env (add_rental_fee cid attrs)
  sync_log "add_rental_fee" success none

unfoldable pub step_add_rental_fee : Env → String → Profile → M (Unit {0})
step_add_rental_fee env cid profile = do
  c ← gets (λ w. w.contract)
  send_fee env cid (build_rental_fee_attributes c profile)

unfoldable pub step_submit : Env → String → M (Unit {0})
step_submit env cid = do call env (submit_contract cid); sync_log "submit_contract" success none

-- `raise ValidationError` if anything is missing
unfoldable pub demand : List Missing → M (Unit {0})
unfolding pure raise
demand [] = pure tt
demand (m ∷ ms) = raise (user (incomplete (m ∷ ms)))

-- What the search for a profile of the company finds is written to the contract.
abbrev pub adopt_profile : Option Profile → M Profile
adopt_profile (some p) = do update (λ d. record d { brokerage_profile_id = some p }); pure p
adopt_profile none = raise (user no_brokerage_profile)

abbrev pub choose_profile : Env → Option Profile → M Profile
choose_profile env (some p) = pure p
choose_profile env none = do
  c ← gets (λ w. w.contract)
  adopt_profile (env.profile_of_company c.company_id)

unfoldable pub resolve_profile : Env → M Profile
resolve_profile env = do
  c ← gets (λ w. w.contract)
  profile ← choose_profile env c.brokerage_profile_id
  demand (profile_errors profile)
  for_each c.party_ids (λ p. demand (party_errors p))
  for_each c.unit_ids (λ u. demand (unit_errors u))
  pure profile
