-- ===== src/Ejar/Jobs/Schedule.antt =====
-- models/ejar_contract_jobs.py: which contracts are polled, by the cron or by hand, and the purge of
-- jobs that are done. Handing a poll to the queue gives the job's identifier, or fails; it is a
-- parameter.
pub mod Pause
use propza_amlak.Prelude.{
  ℕ, ◌+◌, ◌-◌, Bool, true, false, ◌&&◌, not, Option, none, some, List, [], ◌∷◌, String, is_set,
  or_text, leb, ltb, if◌then◌else◌, Result, ok, err,
}
use propza_amlak.Ejar.Contract.Types.{Exc, UserError, Contract}
use propza_amlak.Ejar.Lifecycle.World.{World, Env}
use propza_amlak.Ejar.Jobs.{Queue, JobState, done}
use propza_amlak.Ejar.Jobs.Polling.{is_pollable, poll_interval, poll_ejar_status}

-- `next_poll_at` is not set or has come.
abbrev pub has_come : ℕ → Option ℕ → Bool
has_come now none = true
has_come now (some t) = leb t now

-- The search of the cron.
abbrev pub is_due : ℕ → Contract → Bool
is_due now c = is_pollable c.ejar_status && has_come now c.next_poll_at

-- The write that follows the hand-over; an exception is caught, and leaves the contract.
abbrev pub poll_handed : ℕ → Option String → Contract → Contract
poll_handed now none c = c
poll_handed now (some uuid) c = record c {
  active_job_uuid = or_text uuid c.active_job_uuid;
  next_poll_at = some (now + poll_interval);
}

abbrev pub handed : (Contract → Option String) → ℕ → Contract → Contract
handed hand now c = if is_due now c then poll_handed now (hand c) c else c

-- The contracts after the cron.
unfoldable pub cron_poll_submitted_contracts :
    (Contract → Option String) → ℕ → List Contract → List Contract
cron_poll_submitted_contracts hand now [] = []
cron_poll_submitted_contracts hand now (c ∷ cs) =
    handed hand now c ∷ cron_poll_submitted_contracts hand now cs

-- The contracts whose poll the cron hands to the queue.
unfoldable pub polled : ℕ → List Contract → List Contract
polled now [] = []
polled now (c ∷ cs) = let rest = polled now cs in if is_due now c then c ∷ rest else rest

-- `_cron_poll_submitted_contracts` of models/ejar_contract.py, which runs where there is no queue: the
-- poll of one contract at once.
abbrev pub after_poll_inline : ℕ → Result Exc (Unit {0}) → World → World
after_poll_inline now (ok u) w = record w {
  contract = record (w.contract) { next_poll_at = some (now + poll_interval) };
}
after_poll_inline now (err e) w = w

unfoldable pub poll_inline : Env → World → World
poll_inline env w =
    if not (is_due env.now w.contract)
    then w
    else let (r, v) = poll_ejar_status env w in after_poll_inline env.now r v

-- A job of the queue: its state, when it was done and whether its channel is Ejar's.
pub record QueueJob : Type 0 where
  pub state : JobState
  pub date_done : ℕ
  pub of_ejar : Bool

abbrev is_done : JobState → Bool
is_done done = true
is_done _ = false

-- Thirty days.
abbrev job_retention : ℕ
job_retention = 2592000

-- `_cron_purge_completed_jobs`
unfoldable pub purge_completed_jobs : ℕ → List QueueJob → List QueueJob
purge_completed_jobs now [] = []
purge_completed_jobs now (j ∷ js) =
    let rest = purge_completed_jobs now js in
    if is_done j.state && ltb j.date_done (now - job_retention) && j.of_ejar then rest else j ∷ rest
