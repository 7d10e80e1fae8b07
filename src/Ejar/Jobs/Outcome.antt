-- ===== src/Ejar/Jobs/Outcome.antt =====
-- How a run of the submission job ends, and what the clean-up of failed jobs leaves.
use mathlib.Core.Path.{subst}
use propza_amlak.Prelude.{
  ◌≡◌, ◌≢◌, refl, sym, ap, ◌∙◌, Bool, true, false, ◌&&◌, not, Option, none, some, List, [], ◌∷◌,
  map, String, if◌then◌else◌, Bool-cases, inl, inr, Result, ok, err, All, arith,
}
use propza_amlak.Ejar.Errors.Classes.{is_permanent}
use propza_amlak.Ejar.Errors.Status.{EjarError}
use propza_amlak.Ejar.Policy.{JobError, classify, is_failed, retried_anyway, classify-is_failed}
use propza_amlak.Ejar.Contract.Types.{ready, Exc, ejar, user, unexpected, ErrorNote, Contract}
use propza_amlak.Ejar.Lifecycle.World.{World, Env}
use propza_amlak.Ejar.Lifecycle.Pipeline.{execute_full_submission}
use propza_amlak.Ejar.Lifecycle.Outcome.{Ends, execute_full_submission-Ends}
use propza_amlak.Ejar.Jobs.{
  Queue, mark_dead_letter, JobRun, handle_submission_exc, after_submission, is_submitted,
  job_execute_full_submission, is_stuck, dead_reason, cleanup_dead_letter_jobs,
}

-- The contract as it is stored after a run of the job: the queue commits where the job returns, and
-- where it raises it rolls back to what was committed last.
abbrev pub stored : JobRun → Contract
stored (ok u, w) = w.contract
stored (err j, w) = w.saved_contract

-- What a run stores, by how it ends: it returns, and the contract is submitted or approved; or it
-- raises, and the contract is ready and has an error, as the submission committed it.
abbrev pub JobStores : Env → World → JobRun → Type 0
JobStores env w (ok u, v) = is_submitted v.contract.ejar_status ≡ true
JobStores env w (err j, v) =
    (v.saved_contract.ejar_status ≡ ready)
    × (v.saved_contract.submit_error ≢ none)
    × (v.saved_contract ≡ (execute_full_submission env w).1.saved_contract)

classify-retryable : (e : EjarError) → is_permanent e.kind ≡ false → is_failed (classify e) ≡ false
classify-retryable e h = classify-is_failed e ∙ ap (λ b. b && not (retried_anyway e.kind)) h

is_noted : {A : Type 0} {o : Option A} {a : A} → o ≡ some a → o ≢ none
is_noted {o = o} h n = ground arith

handle-saved :
    (q : Queue) (e : EjarError) (w : World)
    → (handle_submission_exc q e w).1.saved_contract ≡ w.saved_contract
unfolding handle_submission_exc
handle-saved q e w = elim (Bool-cases (is_permanent e.kind)) [
  | inl h ↦ rw h refl
  | inr h ↦ rw h refl
]

handle-raises :
    (q : Queue) (e : EjarError) (w : World)
    → (j : JobError) × ((handle_submission_exc q e w).0 ≡ err j)
unfolding handle_submission_exc
handle-raises q e w = elim (Bool-cases (is_permanent e.kind)) [
  | inl h ↦ rw h (JobError.failed e.message, refl)
  | inr h ↦ rw h (classify e, refl)
]

-- A run that raises stores what the submission committed.
raised-JobStores :
    (env : Env) (w t : World) (x : JobRun) {j : JobError}
    → x.0 ≡ err j
    → x.1.saved_contract ≡ t.saved_contract
    → t.saved_contract ≡ (execute_full_submission env w).1.saved_contract
    → t.saved_contract.ejar_status ≡ ready
    → t.saved_contract.submit_error ≢ none
    → JobStores env w x
raised-JobStores env w t (ok u, v) h k l r n = absurd (ground arith)
raised-JobStores env w t (err i, v) h k l r n = (
  ap (λ (c : Contract). c.ejar_status) k ∙ r,
  subst (λ (c : Contract). c.submit_error ≢ none) (sym k) n,
  k ∙ l,
)

after-JobStores :
    (q : Queue) (env : Env) (w t : World) (r : Result Exc String)
    → t.saved_contract ≡ (execute_full_submission env w).1.saved_contract
    → Ends env (r, t)
    → JobStores env w (after_submission q r t)
after-JobStores q env w t (ok cid) k h = ap is_submitted h.0
after-JobStores q env w t (err (ejar e)) k h =
    raised-JobStores env w t (handle_submission_exc q e t) (handle-raises q e t).1
      (handle-saved q e t) k h.2 (is_noted h.3)
after-JobStores q env w t (err (user u)) k h = (h.2, is_noted h.3, k)
after-JobStores q env w t (err (unexpected x)) k h = (h.2, is_noted h.3, k)

-- What is stored after a run of the submission job, for every state and every answer of the platform,
-- where the queue commits a job that returns and rolls one back that raises: if the job returns, the
-- contract is submitted or approved; if it raises, be it to retry or to give up, the contract is ready
-- and has an error, and is as the submission committed it, so that nothing which the job writes after
-- that (the error of the job, the dead letter) is kept.
pub job-JobStores :
    (q : Queue) (env : Env) (w : World) → JobStores env w (job_execute_full_submission q env w)
unfolding job_execute_full_submission
job-JobStores q env w = elim (Bool-cases (is_submitted w.contract.ejar_status)) [
  | inl h ↦ rw h h
  | inr h ↦ rw h (after-JobStores q env w _ _ refl (execute_full_submission-Ends env w))
]

abbrev pub gives_up : Result JobError (Unit {0}) → Bool
gives_up (ok u) = false
gives_up (err j) = is_failed j

-- An error of the client that is permanent.
abbrev pub is_permanent_failure : Result Exc String → Bool
is_permanent_failure (err (ejar e)) = is_permanent e.kind
is_permanent_failure _ = false

handle-gives_up :
    (q : Queue) (e : EjarError) (w : World)
    → gives_up (handle_submission_exc q e w).0 ≡ is_permanent e.kind
unfolding handle_submission_exc
handle-gives_up q e w = elim (Bool-cases (is_permanent e.kind)) [
  | inl h ↦ rw h refl
  | inr h ↦ rw h (classify-retryable e h)
]

after-gives_up :
    (q : Queue) (r : Result Exc String) (w : World)
    → gives_up (after_submission q r w).0 ≡ is_permanent_failure r
after-gives_up q (ok cid) w = refl
after-gives_up q (err (ejar e)) w = handle-gives_up q e w
after-gives_up q (err (user u)) w = refl
after-gives_up q (err (unexpected t)) w = refl

-- The job of a contract that is neither submitted nor approved gives up exactly when the
-- submission raises a permanent error of the client. Every other exception is retried.
pub job-gives_up :
    (q : Queue) (env : Env) (w : World)
    → is_submitted w.contract.ejar_status ≡ false
    → gives_up (job_execute_full_submission q env w).0
      ≡ is_permanent_failure (execute_full_submission env w).0
unfolding job_execute_full_submission
job-gives_up q env w h = rw h (after-gives_up q _ _)

dead_letter-not_stuck :
    (q : Queue) (r : ErrorNote) (c : Contract) → is_stuck q (mark_dead_letter q r c) ≡ false
unfolding mark_dead_letter
dead_letter-not_stuck q r c = refl

cleaned-not_stuck :
    (q : Queue) (c : Contract)
    → is_stuck q (if is_stuck q c then mark_dead_letter q (dead_reason q c) c else c) ≡ false
cleaned-not_stuck q c = elim (Bool-cases (is_stuck q c)) [
  | inl h ↦ rw h (dead_letter-not_stuck q _ c)
  | inr h ↦ rw h h
]

All-not_stuck :
    (q : Queue) (cs : List Contract)
    → All
        (λ c. is_stuck q c ≡ false)
        (map (λ c. if is_stuck q c then mark_dead_letter q (dead_reason q c) c else c) cs)
All-not_stuck q [] = tt
All-not_stuck q (c ∷ cs) = (cleaned-not_stuck q c, All-not_stuck q cs)

-- Where the queue is installed, no contract is stuck after the clean-up: none is being submitted
-- by a job that has failed or is cancelled.
cleanup-not_stuck :
    (q : Queue) (cs : List Contract)
    → q.installed ≡ true
    → All (λ c. is_stuck q c ≡ false) (cleanup_dead_letter_jobs q cs)
unfolding cleanup_dead_letter_jobs
cleanup-not_stuck q cs h = simp h (All-not_stuck q cs)
