-- ===== src/Ejar/Lifecycle/Outcome.antt =====
-- How a submission ends: what it leaves on the contract, and which call was its last.
use propza_amlak.Prelude.{◌≡◌, refl, none, some, String, Result, ok, err}
use propza_amlak.Ejar.Errors.Status.{Body}
use propza_amlak.Ejar.Contract.Types.{ready, submitted, Exc, cause}
use propza_amlak.Ejar.Lifecycle.World.{
  submit_contract, World, Env, M, pure, raise, ◌>>=◌, continue, try_catch, handle, commit, update,
  sync_log, call, as_exc, nth, success,
}
use propza_amlak.Ejar.Lifecycle.Steps.{step_submit}
use propza_amlak.Ejar.Lifecycle.Pipeline.{
  finalize, run_pipeline, mark_submitting, roll_back, execute_full_submission,
}

-- How a submission ends, by what it returns: the contract is submitted, without an error, as of
-- now, and saved as it is, and the last call submitted the contract whose identifier is returned;
-- or the contract is ready again, in the transaction and as it is saved, with the exception as its
-- error.
abbrev pub Ends : Env → Result Exc String × World → Type 0
Ends env (ok cid, w) =
    (w.contract.ejar_status ≡ submitted)
    × (w.contract.submit_error ≡ none)
    × (w.contract.ejar_last_sync ≡ some env.now)
    × (w.saved_contract ≡ w.contract)
    × (nth w.calls 0 ≡ some (submit_contract cid))
Ends env (err e, w) =
    (w.contract.ejar_status ≡ ready)
    × (w.contract.submit_error ≡ some (cause e))
    × (w.saved_contract.ejar_status ≡ ready)
    × (w.saved_contract.submit_error ≡ some (cause e))

-- The same of the pipeline alone, where nothing is said of a failure.
abbrev Finished : Env → Result Exc String × World → Type 0
Finished env (ok cid, w) = Ends env (ok cid, w)
Finished env (err e, w) = Unit

module _ {A : Type 0} (env : Env) where
  continue-Finished :
      (f : A → M String) (w : World) (r : Result Exc A)
      → ((a : A) (v : World) → Finished env (f a v))
      → Finished env (continue r f w)
  continue-Finished f w (ok a) k = k a w
  continue-Finished f w (err e) k = tt

  bind-Finished :
      (m : M A) (f : A → M String) (w : World)
      → ((a : A) (v : World) → Finished env (f a v))
      → Finished env ((m >>= f) w)
  unfolding ◌>>=◌
  bind-Finished m f w k = continue-Finished f (m w).1 (m w).0 k

continue_after_submit :
    (env : Env) (cid : String) (w : World) (r : Result Exc Body)
    → nth w.calls 0 ≡ some (submit_contract cid)
    → Finished env (
        continue
          (continue r (λ _. sync_log "submit_contract" success none) w).0
          (λ _. finalize env >>= λ _. pure cid)
          (continue r (λ _. sync_log "submit_contract" success none) w).1)
unfolding ◌>>=◌ sync_log finalize update commit pure
continue_after_submit env cid w (ok b) e = (refl, refl, refl, refl, e)
continue_after_submit env cid w (err x) e = tt

submit-Finished :
    (env : Env) (cid : String) (w : World)
    → Finished env ((step_submit env cid >>= λ _. finalize env >>= λ _. pure cid) w)
unfolding step_submit call ◌>>=◌
submit-Finished env cid w =
    continue_after_submit env cid _ (as_exc (env.reply w.calls (submit_contract cid))) refl

run_pipeline-Finished : (env : Env) (w : World) → Finished env (run_pipeline env w)
unfolding run_pipeline
run_pipeline-Finished env w = bind-Finished env _ _ w λ profile a. bind-Finished env _ _ a λ _ b.
    bind-Finished env _ _ b λ cid d. bind-Finished env _ _ d λ _ e. bind-Finished env _ _ e λ _ f.
      bind-Finished env _ _ f λ _ g. bind-Finished env _ _ g λ _ h.
        bind-Finished env _ _ h λ _ i. bind-Finished env _ _ i λ _ j. submit-Finished env cid j

handle-Ends :
    (env : Env) (w : World) (r : Result Exc String)
    → Finished env (r, w)
    → Ends env (handle r roll_back w)
unfolding roll_back ◌>>=◌ update commit sync_log raise
handle-Ends env w (ok cid) h = h
handle-Ends env w (err e) h = (refl, refl, refl, refl)

-- A submission that returns an identifier leaves the contract submitted, without an error, synced
-- as of now, and saved as it is, and its last call submitted the contract of that identifier to
-- the platform. One that raises, at whatever step, leaves the contract ready again, both in the
-- transaction and as it is saved, with the exception that it raises as the contract's error.
pub execute_full_submission-Ends :
    (env : Env) (w : World) → Ends env (execute_full_submission env w)
unfolding execute_full_submission mark_submitting ◌>>=◌ try_catch update commit
execute_full_submission-Ends env w = handle-Ends env _ _ (run_pipeline-Finished env _)
