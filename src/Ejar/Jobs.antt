-- ===== src/Ejar/Jobs.antt =====
-- models/ejar_contract_jobs.py: the submission job, what hands it to the queue and what happens to
-- one that failed, and the poll of models/ejar_contract.py. The queue is not modelled: its answers
-- are a parameter.
pub mod Outcome
pub mod Polling
pub mod Schedule
pub mod Upload
use propza_amlak.Prelude.{
  ℕ, ◌+◌, Bool, true, false, ◌||◌, not, Option, none, some, List, [], ◌∷◌, ◌++◌, map, String,
  is_set, or_text, truncate, if◌then◌else◌, Result, ok, err,
}
use propza_amlak.Ejar.Errors.Classes.{is_permanent}
use propza_amlak.Ejar.Errors.Status.{EjarError}
use propza_amlak.Ejar.Policy.{JobError, retryable, classify}
use propza_amlak.Ejar.Contract.Types.{
  Status, ready, submitting, submitted, approved, UserError, queue_not_installed, job_running,
  no_active_job, job_not_pending, Exc, ejar, user, unexpected, ErrorNote, cause, job_info,
  job_cancelled, job_enqueued, dead_letter, Contract,
}
use propza_amlak.Ejar.Contract.Actions.{validate_ready_state, post}
use propza_amlak.Ejar.Lifecycle.World.{
  World, Env, M, pure, raise, gets, ◌>>=◌, ◌>>◌, commit, update,
}
use propza_amlak.Ejar.Lifecycle.Pipeline.{execute_full_submission}

-- The states of a job that the code names.
pub data JobState : Type 0 where
  waiting enqueued started done gave_up job_cancelled_state : JobState

-- The queue: is it installed, a job by its identifier with the information it left, the identifier
-- that it gives to the submission job of a contract; the text of Odoo's own errors, and whether
-- the activity type for a review exists.
pub record Queue : Type 0 where
  pub installed : Bool
  pub state_of : String → Option JobState
  pub info_of : String → String
  pub enqueue : Contract → String
  pub text : UserError → String
  pub has_todo : Bool

abbrev is_active : Option JobState → Bool
is_active (some waiting) = true
is_active (some enqueued) = true
is_active (some started) = true
is_active _ = false

abbrev pub is_pending : Option JobState → Bool
is_pending (some waiting) = true
is_pending (some enqueued) = true
is_pending _ = false

abbrev pub is_dead : Option JobState → Bool
is_dead (some gave_up) = true
is_dead (some job_cancelled_state) = true
is_dead _ = false

-- `has_active_job` of `_compute_job_state`
abbrev pub has_active_job : Queue → Contract → Bool
has_active_job q c =
    if is_set c.active_job_uuid then is_active (q.state_of c.active_job_uuid) else false

-- `CHANNEL_CONTRACTS`
abbrev channel_contracts : String
channel_contracts = "root.ejar.contracts"

-- `if not e.ok: raise`
abbrev pub refuse : Result UserError Contract → M (Unit {0})
refuse (ok c) = pure tt
refuse (err e) = raise (user e)

abbrev pub store_uuid : String → M (Unit {0})
store_uuid uuid = if is_set uuid then update (λ c. record c { active_job_uuid = uuid }) else pure tt

unfoldable pub action_submit_async : Queue → Env → M (Unit {0})
action_submit_async q env = do
  c ← gets (λ w. w.contract)
  refuse (validate_ready_state c)
  if not q.installed
      then raise (user queue_not_installed)
      else if has_active_job q c
      then raise (user job_running)
      else do
        update (λ d. record d {
          ejar_status = submitting;
          submit_error = none;
          job_last_error = none;
          submit_attempt = d.submit_attempt + 1;
          job_enqueued_at = some env.now;
          job_channel = channel_contracts;
        })
        commit
        d ← gets (λ w. w.contract)
        store_uuid (q.enqueue d)
        update (post (job_enqueued (or_text (q.enqueue d) "—")))

-- The queue cancels the job that is found.
unfoldable pub action_cancel_pending_job : Queue → M (Unit {0})
action_cancel_pending_job q = do
  c ← gets (λ w. w.contract)
  if not (is_set c.active_job_uuid)
      then raise (user no_active_job)
      else if not q.installed
      then raise (user queue_not_installed)
      else if not (is_pending (q.state_of c.active_job_uuid))
      then raise (user job_not_pending)
      else update (λ d.
        post job_cancelled
          (record d { ejar_status = ready; active_job_uuid = String.[]; job_channel = String.[] }))

-- `_mark_dead_letter`
unfoldable pub mark_dead_letter : Queue → ErrorNote → Contract → Contract
mark_dead_letter q reason c = post (dead_letter reason) (record c {
  ejar_status = ready;
  submit_error = some reason;
  job_last_error = some reason;
  active_job_uuid = String.[];
  job_channel = String.[];
  activities = if q.has_todo then c.activities ++ reason ∷ [] else c.activities;
})

-- What a job run ends with, and the state that it leaves in its transaction; where it raises, the
-- queue rolls that back to what was committed.
abbrev pub JobRun : Type 0
JobRun = Result JobError (Unit {0}) × World

-- `_handle_submission_exc`
unfoldable pub handle_submission_exc : Queue → EjarError → World → JobRun
handle_submission_exc q e w =
    let noted = record (w.contract) { job_last_error = some (cause (ejar e)) } in
    if is_permanent e.kind
    then (
      err (JobError.failed e.message),
      record w { contract = mark_dead_letter q (cause (ejar e)) noted },
    )
    else (err (classify e), record w { contract = noted })

abbrev pub after_submission : Queue → Result Exc String → World → JobRun
after_submission q (ok cid) w =
    (ok tt, record w { contract = record (w.contract) { job_last_error = none } })
after_submission q (err (ejar e)) w = handle_submission_exc q e w
after_submission q (err (user u)) w = (err (retryable (q.text u) none), w)
after_submission q (err (unexpected t)) w = (err (retryable t none), w)

abbrev pub is_submitted : Status → Bool
is_submitted submitted = true
is_submitted approved = true
is_submitted _ = false

unfoldable pub job_execute_full_submission : Queue → Env → World → JobRun
job_execute_full_submission q env w =
    if is_submitted w.contract.ejar_status
    then (ok tt, w)
    else let (r, v) = execute_full_submission env w in after_submission q r v

-- The search of `_cron_cleanup_dead_letter_jobs`, and its map of the failed jobs.
abbrev is_submitting : Status → Bool
is_submitting submitting = true
is_submitting _ = false

abbrev pub is_stuck : Queue → Contract → Bool
is_stuck q c =
    if is_submitting c.ejar_status
    then if is_set c.active_job_uuid then is_dead (q.state_of c.active_job_uuid) else false
    else false

-- The first 500 characters of what the job left, or a standing reason (in English here).
unfoldable pub dead_reason : Queue → Contract → ErrorNote
dead_reason q c =
    job_info (or_text (truncate 500 (q.info_of c.active_job_uuid)) "all retries exhausted")

-- `_cron_cleanup_dead_letter_jobs`
unfoldable pub cleanup_dead_letter_jobs : Queue → List Contract → List Contract
cleanup_dead_letter_jobs q cs =
    if not q.installed
    then cs
    else map (λ c. if is_stuck q c then mark_dead_letter q (dead_reason q c) c else c) cs
