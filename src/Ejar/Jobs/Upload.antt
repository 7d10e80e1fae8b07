-- ===== src/Ejar/Jobs/Upload.antt =====
-- models/ejar_contract_jobs.py: the upload of a signed document in the background, and the check of a
-- contract's status by hand. A document is kept in base 64, and that it decodes is taken for granted.
use propza_amlak.Prelude.{
  Bool, ◌&&◌, not, Option, none, some, String, is_set, if◌then◌else◌, Result, ok, err,
}
use propza_amlak.Ejar.Errors.Status.{Body}
use propza_amlak.Ejar.Policy.{JobError, retryable, failed, classify}
use propza_amlak.Ejar.Contract.Types.{
  no_ejar_contract, Exc, ejar, user, unexpected, document_uploaded, Contract,
}
use propza_amlak.Ejar.Contract.Actions.{is_ready_to_submit, post}
use propza_amlak.Ejar.Lifecycle.World.{
  World, Env, M, raise, gets, call, upload_signed_document, ◌>>=◌, ◌>>◌,
}
use propza_amlak.Ejar.Lifecycle.Pipeline.{raise_some}
use propza_amlak.Ejar.Jobs.{Queue, store_uuid, action_submit_async}
use propza_amlak.Ejar.Jobs.Polling.{poll_ejar_status}

-- What a job lets through: an error for the queue, or an exception as it is.
pub data Raised : Type 0 where
  queued : JobError → Raised
  plain : Exc → Raised

-- The call in the `try`.
unfoldable pub upload : Env → String → String → String → M Body
upload env cid doc filename = do
  raise_some env.connect
  call env (upload_signed_document cid doc filename)

abbrev pub store_document : String → String → Contract → Contract
store_document doc filename c =
    post (document_uploaded filename)
      (record c { signed_doc = doc; signed_doc_filename = filename })

abbrev pub as_raised : Result Exc (Unit {0}) × World → Result Raised (Unit {0}) × World
as_raised (ok u, w) = (ok u, w)
as_raised (err e, w) = (err (plain e), w)

abbrev pub submit_after : Queue → Env → Bool → World → Result Raised (Unit {0}) × World
submit_after q env trigger w =
    if trigger && is_ready_to_submit w.contract
    then as_raised (action_submit_async q env w)
    else (ok tt, w)

abbrev pub after_upload :
    Queue
    → Env
    → String
    → String
    → Bool
    → Result Exc Body
    → World
    → Result Raised (Unit {0}) × World
after_upload q env doc filename trigger (ok b) w =
    submit_after q env trigger (record w { contract = store_document doc filename w.contract })
after_upload q env doc filename trigger (err (ejar e)) w = (err (queued (classify e)), w)
after_upload q env doc filename trigger (err (user u)) w =
    (err (queued (retryable (q.text u) none)), w)
after_upload q env doc filename trigger (err (unexpected t)) w =
    (err (queued (retryable t none)), w)

unfoldable pub job_upload_signed_document :
    Queue → Env → String → String → Bool → World → Result Raised (Unit {0}) × World
job_upload_signed_document q env doc filename trigger w =
    if not (is_set w.contract.ejar_contract_id)
    then (err (queued (failed "no ejar_contract_id")), w)
    else let (r, v) = upload env w.contract.ejar_contract_id doc filename w in
      after_upload q env doc filename trigger r v

-- `action_check_ejar_status`; without a queue it is that of models/ejar_contract.py.
unfoldable pub action_check_ejar_status : Queue → (Contract → Option String) → Env → M (Unit {0})
action_check_ejar_status q hand env = do
  c ← gets (λ w. w.contract)
  if not (is_set c.ejar_contract_id)
      then raise (user no_ejar_contract)
      else if not q.installed
      then poll_ejar_status env
      else elim (hand c) [
        | none ↦ raise (unexpected "the queue refused the job")
        | some uuid ↦ store_uuid uuid
      ]
