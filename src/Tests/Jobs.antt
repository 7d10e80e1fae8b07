-- ===== src/Tests/Jobs.antt =====
-- Jobs on the contract of the fixtures.
use propza_amlak.Prelude.{◌+◌, ◌≤◌, ◌≡◌, refl, true, some, none, List, [], ◌∷◌, length, arith}
use propza_amlak.Ejar.Contract.Types.{ready, submitting, submitted, Contract}
use propza_amlak.Ejar.Lifecycle.Pipeline.{execute_full_submission}
use propza_amlak.Ejar.Jobs.{Queue, gave_up, job_execute_full_submission}
use propza_amlak.Ejar.Jobs.Outcome.{
  JobStores, job-JobStores, gives_up, is_permanent_failure, job-gives_up,
}
use propza_amlak.Ejar.Jobs.Polling.{job_poll_ejar_status, or_status, answer, job_poll-status}
use propza_amlak.Ejar.Jobs.Schedule.{poll_handed, cron_poll_submitted_contracts, polled}
use propza_amlak.Ejar.Jobs.Schedule.Pause.{idle, run, Since, none_left, one_more, cron_poll-length}
use propza_amlak.Tests.Fixtures.{contract, world, env}

abbrev queue : Queue
queue = record {
  installed = true;
  state_of = λ u. some gave_up;
  info_of = λ u. "";
  enqueue = λ c. "job-1";
  text = λ e. "";
  has_todo = true;
}

job-JobStores_example :
    JobStores env
      (world (contract ready))
      (job_execute_full_submission queue env (world (contract ready)))
job-JobStores_example = job-JobStores queue env (world (contract ready))

job-gives_up_example :
    gives_up (job_execute_full_submission queue env (world (contract submitting))).0
    ≡ is_permanent_failure (execute_full_submission env (world (contract submitting))).0
job-gives_up_example = job-gives_up queue env (world (contract submitting)) refl

abbrev abandoned : Contract
abandoned = record (contract submitting) { active_job_uuid = "job-1" }

abbrev registered : Contract
registered = record (contract submitted) { ejar_contract_id = "id-1" }

job_poll-status_example :
    (job_poll_ejar_status queue env (world registered)).1.contract.ejar_status
    ≡ or_status (answer env none (world registered)) submitted
job_poll-status_example = job_poll-status queue env (world registered) refl refl

-- Two contracts are polled by the cron, and the job of the first runs.
abbrev waiting_contracts : List Contract
waiting_contracts = registered ∷ contract ready ∷ []

abbrev handed_contract : Contract
handed_contract = poll_handed 100 (some "job-2") registered

abbrev later_contract : Contract
later_contract =
    (job_poll_ejar_status queue (record env { now = 130 }) (world handed_contract)).1.contract

worked :
    Since queue 100
      (cron_poll_submitted_contracts (λ c. some "job-2") 100 waiting_contracts)
      (later_contract ∷ contract ready ∷ [])
unfolding cron_poll_submitted_contracts
worked =
    one_more (run idle (record env { now = 130 }) (world handed_contract) refl (omega arith))
      (one_more idle none_left)

cron_poll-length_example :
    length (polled 100 waiting_contracts)
      + length (polled 1500 (later_contract ∷ contract ready ∷ []))
    ≤ 2
cron_poll-length_example =
    cron_poll-length queue (λ c. some "job-2") 100 1500 waiting_contracts (λ c. refl) (omega arith)
      worked
