-- ===== src/Ejar/Lifecycle/Pipeline.antt =====
-- `_run_pipeline`, `execute_full_submission` and `poll_contract_status`.
use propza_amlak.Prelude.{◌+◌, Option, none, some, String, if◌then◌else◌, is_set, not}
use propza_amlak.Ejar.Errors.Status.{EjarError, Resource}
use propza_amlak.Ejar.Contract.Types.{
  ready, submitting, submitted, Exc, ejar, cause, submitted_to_ejar, submission_failed,
}
use propza_amlak.Ejar.Contract.Actions.{post}
use propza_amlak.Ejar.Lifecycle.World.{
  get_contract, success, error, Env, M, pure, raise, gets, ◌>>=◌, ◌>>◌, try_catch, for_each, commit,
  update, sync_log, call, places,
}
use propza_amlak.Ejar.Lifecycle.Steps.{
  resolve_party_entities, step_create_contract, step_attach_unit, step_add_party,
  step_upload_proxy_doc, step_upload_signed_doc, step_add_financial_info, step_add_rental_fee,
  step_submit, resolve_profile,
}

-- `_build_client`
abbrev pub raise_some : Option EjarError → M (Unit {0})
raise_some none = pure tt
raise_some (some e) = raise (ejar e)

unfoldable pub attach_units : Env → String → M (Unit {0})
attach_units env cid = do
  us ← gets (λ w. places 0 w.contract.unit_ids)
  for_each us (step_attach_unit env cid)

unfoldable pub add_parties : Env → String → M (Unit {0})
add_parties env cid = do
  ps ← gets (λ w. places 0 w.contract.party_ids)
  for_each ps (step_add_party env cid)

unfoldable pub upload_proxy_docs : Env → String → M (Unit {0})
upload_proxy_docs env cid = do
  ps ← gets (λ w. places 0 w.contract.party_ids)
  for_each ps (step_upload_proxy_doc env cid)

-- Everything from the first entity to the last call, each part committed before the next.
unfoldable pub register : Env → M String
register env = do
  resolve_party_entities env
  commit
  cid ← step_create_contract env
  commit
  attach_units env cid
  commit
  add_parties env cid
  commit
  upload_proxy_docs env cid
  commit
  pure cid

unfoldable pub finalize : Env → M (Unit {0})
finalize env = do
  update (λ c.
      post submitted_to_ejar
        (record c { ejar_status = submitted; ejar_last_sync = some env.now; submit_error = none }))
  commit

-- The result holds `ejar_contract_id`; the other keys are constants and a field of the contract.
unfoldable pub run_pipeline : Env → M String
run_pipeline env = do
  profile ← resolve_profile env
  raise_some env.connect
  cid ← register env
  step_upload_signed_doc env cid
  commit
  step_add_financial_info env cid
  commit
  step_add_rental_fee env cid profile
  commit
  step_submit env cid
  finalize env
  pure cid

unfoldable pub mark_submitting : M (Unit {0})
mark_submitting = do
  update (λ c. record c {
    ejar_status = submitting;
    submit_attempt = c.submit_attempt + 1;
    submit_error = none;
  })
  commit

-- The `except` of `execute_full_submission`, with `_log_error`.
unfoldable pub roll_back : Exc → M String
roll_back e = do
  update (λ c. record c { ejar_status = ready; submit_error = some (cause e) })
  commit
  sync_log "execute_full_submission" error (some e)
  update (post (submission_failed e))
  raise e

unfoldable pub execute_full_submission : Env → M String
execute_full_submission env = do mark_submitting; try_catch (run_pipeline env) roll_back

-- What a poll returns: the state, the number and the reason that the platform reports.
pub record PollResult : Type 0 where
  pub ejar_state : String
  pub contract_number : String
  pub rejection_reason : String

abbrev pub no_result : PollResult
no_result = record {
  ejar_state = String.[];
  contract_number = String.[];
  rejection_reason = String.[];
}

abbrev pub poll_result : Option Resource → PollResult
poll_result none = no_result
poll_result (some r) = record {
  ejar_state = r.state;
  contract_number = r.contract_number;
  rejection_reason = r.rejection_reason;
}

-- `except EjarAPIError: log; raise`
abbrev pub log_api_error : {A : Type 0} → Exc → M A
log_api_error (ejar e) = sync_log "poll_contract_status" error (some (ejar e)) >> raise (ejar e)
log_api_error e = raise e

unfoldable pub poll_contract_status : Env → M PollResult
poll_contract_status env = do
  c ← gets (λ w. w.contract)
  if not (is_set c.ejar_contract_id) then pure no_result else do
    raise_some env.connect
    sync_log "poll_contract_status" success none
    resp ← try_catch (call env (get_contract c.ejar_contract_id)) log_api_error
    sync_log "poll_contract_status" success none
    pure (poll_result resp.resource)
