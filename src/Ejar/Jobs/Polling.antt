-- ===== src/Ejar/Jobs/Polling.antt =====
-- `_poll_ejar_status` of models/ejar_contract.py and `job_poll_ejar_status`.
use text.Mathlib.Text.{◌==◌}
use propza_amlak.Prelude.{
  ℕ, ◌+◌, ◌≡◌, refl, sym, ap, ◌∙◌, inl, inr, Bool, true, false, not, Option, none, some, String,
  is_set, or_text, if◌then◌else◌, Result, ok, err, arith, Bool-cases,
}
use propza_amlak.Ejar.Errors.Status.{EjarError, Body}
use propza_amlak.Ejar.Policy.{retryable, classify}
use propza_amlak.Ejar.Contract.Types.{
  Status, submitted, approved, rejected, expired, cancelled, Exc, ejar, user, unexpected,
  rejected_by_ejar, approved_by_ejar, Contract,
}
use propza_amlak.Ejar.Contract.Actions.{post}
use propza_amlak.Ejar.Lifecycle.World.{
  World, Env, M, pure, ◌>>=◌, ◌>>◌, update, raise, gets, call, try_catch, sync_log, get_contract,
  continue, handle, as_exc, success,
}
use propza_amlak.Ejar.Lifecycle.Pipeline.{
  PollResult, raise_some, poll_contract_status, poll_result, log_api_error,
}
use propza_amlak.Ejar.Jobs.{Queue, JobRun}

-- `state_map`
unfoldable pub mapped : String → Option Status
mapped s =
    if s == "registered"
    then some approved
    else if s == "active"
    then some approved
    else if s == "expired"
    then some expired
    else if s == "terminated"
    then some cancelled
    else if s == "rejected"
    then some rejected
    else none

-- The branch on the status that the platform's state stands for, where it is a new one.
abbrev pub follow : PollResult → Status → Contract → Contract
follow r rejected c =
    record (post (rejected_by_ejar r.rejection_reason)
      (record c { rejection_reason = r.rejection_reason })) { ejar_status = rejected }
follow r approved c =
    record (post (approved_by_ejar r.contract_number)
      (record c { ejar_contract_number = or_text r.contract_number c.ejar_contract_number })) {
        ejar_status = approved;
      }
follow r s c = record c { ejar_status = s }

abbrev pub is_same : Status → Status → Bool
is_same approved approved = true
is_same rejected rejected = true
is_same expired expired = true
is_same cancelled cancelled = true
is_same _ _ = false

-- `new_status and new_status != self.ejar_status`; the map has no other status.
abbrev pub follow_new : PollResult → Option Status → Contract → Contract
follow_new r none c = c
follow_new r (some s) c = if is_same s c.ejar_status then c else follow r s c

unfoldable pub poll_ejar_status : Env → M (Unit {0})
poll_ejar_status env = do
  r ← poll_contract_status env
  update (λ c. record c { ejar_last_sync = some env.now; poll_count = c.poll_count + 1 })
  update (follow_new r (mapped r.ejar_state))

-- Thirty minutes, in the seconds of `now`.
abbrev pub poll_interval : ℕ
poll_interval = 1800

abbrev pub after_poll : Queue → Env → Result Exc (Unit {0}) → World → JobRun
after_poll q env (ok u) w = (
  ok tt,
  record w { contract = record (w.contract) { next_poll_at = some (env.now + poll_interval) } },
)
after_poll q env (err (ejar e)) w = (err (classify e), w)
after_poll q env (err (user u)) w = (err (retryable (q.text u) none), w)
after_poll q env (err (unexpected t)) w = (err (retryable t none), w)

abbrev pub is_pollable : Status → Bool
is_pollable submitted = true
is_pollable _ = false

unfoldable pub job_poll_ejar_status : Queue → Env → World → JobRun
job_poll_ejar_status q env w =
    if not (is_pollable w.contract.ejar_status)
    then (ok tt, w)
    else if not (is_set w.contract.ejar_contract_id)
    then (ok tt, w)
    else let (r, v) = poll_ejar_status env w in after_poll q env r v

-- The status that the platform's answer stands for, if it answers with one that the map knows.
abbrev pub status_of_answer : Result EjarError Body → Option Status
status_of_answer (ok b) = mapped (poll_result b.resource).ejar_state
status_of_answer (err e) = none

-- The answer that a poll would get: none without a client.
abbrev pub answer : Env → Option EjarError → World → Option Status
answer env none w = status_of_answer (env.reply w.calls (get_contract w.contract.ejar_contract_id))
answer env (some e) w = none

abbrev pub or_status : Option Status → Status → Status
or_status none s = s
or_status (some t) s = t

is_same_eq : (s t : Status) → is_same s t ≡ true → s ≡ t
is_same_eq s t h = ground arith

follow_status : (r : PollResult) (s : Status) (c : Contract) → (follow r s c).ejar_status ≡ s
follow_status r approved c = refl
follow_status r rejected c = refl
follow_status r _ c = refl

follow_new_status :
    (r : PollResult) (o : Option Status) (c : Contract)
    → (follow_new r o c).ejar_status ≡ or_status o c.ejar_status
follow_new_status r none c = refl
follow_new_status r (some s) c = elim (Bool-cases (is_same s c.ejar_status)) [
  | inl h ↦ rw h (sym (is_same_eq s c.ejar_status h))
  | inr h ↦ rw h (follow_status r s c)
]

-- The status that a result of the service stands for.
abbrev read : Result Exc PollResult → Option Status
read (ok r) = mapped r.ejar_state
read (err e) = none

-- The service answers `o` and leaves the contract as it is.
abbrev pub Answers : World → Option Status → Result Exc PollResult × World → Type 0
Answers w o (r, v) = (v.contract ≡ w.contract) × (read r ≡ o)

client-Answers :
    (env : Env) (w : World) (o : Option EjarError) (rest : M PollResult)
    → Answers w (answer env none w) (rest w)
    → Answers w (answer env o w) ((raise_some o >> rest) w)
unfolding ◌>>=◌ pure raise
client-Answers env w none rest h = h
client-Answers env w (some e) rest h = (refl, refl)

-- The end of the service's method, for an answer of the API.
reply-Answers :
    (w v : World) (b : Result EjarError Body)
    → v.contract ≡ w.contract
    → Answers w (status_of_answer b) (
        continue
          (handle (as_exc b) (log_api_error {A = Body}) v).0
          (λ resp. sync_log "poll_contract_status" success none >> pure (poll_result resp.resource))
          (handle (as_exc b) (log_api_error {A = Body}) v).1)
unfolding ◌>>=◌ sync_log pure raise
reply-Answers w v (ok b) h = (h, refl)
reply-Answers w v (err e) h = (h, refl)

pub poll-Answers :
    (env : Env) (w : World)
    → is_set w.contract.ejar_contract_id ≡ true
    → Answers w (answer env env.connect w) (poll_contract_status env w)
unfolding poll_contract_status ◌>>=◌ gets call try_catch sync_log
poll-Answers env w i = rw i (
    client-Answers env w env.connect _
      (reply-Answers w _ (env.reply w.calls (get_contract w.contract.ejar_contract_id)) refl))

failed-status :
    (w v : World) (o : Option Status)
    → v.contract ≡ w.contract
    → none ≡ o
    → v.contract.ejar_status ≡ or_status o w.contract.ejar_status
failed-status w v o c e =
    ap (λ (d : Contract). d.ejar_status) c ∙ ap (λ p. or_status p w.contract.ejar_status) e

-- What the job makes of a service that answers `o`.
finish-status :
    (q : Queue) (env : Env) (w : World) (o : Option Status) (r : Result Exc PollResult) (v : World)
    → Answers w o (r, v)
    → (let (s, u) =
          continue r
            (λ res.
              update
                (λ c. record c { ejar_last_sync = some env.now; poll_count = c.poll_count + 1 })
              >> update (follow_new res (mapped res.ejar_state)))
            v in
        after_poll q env s u).1.contract.ejar_status
      ≡ or_status o w.contract.ejar_status
unfolding ◌>>=◌ update
finish-status q env w o (ok r) v (c, e) =
    follow_new_status r (mapped r.ejar_state) _
    ∙ ap (λ p. or_status p v.contract.ejar_status) e
    ∙ ap (λ (d : Contract). or_status o d.ejar_status) c
finish-status q env w o (err (ejar x)) v (c, e) = failed-status w v o c e
finish-status q env w o (err (user x)) v (c, e) = failed-status w v o c e
finish-status q env w o (err (unexpected x)) v (c, e) = failed-status w v o c e

-- A poll job on a submitted contract that has an identifier: the contract's status is afterwards
-- the one that the platform's state stands for; it is unchanged where there is no client, where the
-- call fails, and where the state is not one that the map knows.
pub job_poll-status :
    (q : Queue) (env : Env) (w : World)
    → w.contract.ejar_status ≡ submitted
    → is_set w.contract.ejar_contract_id ≡ true
    → (job_poll_ejar_status q env w).1.contract.ejar_status
      ≡ or_status (answer env env.connect w) submitted
unfolding job_poll_ejar_status poll_ejar_status ◌>>=◌
job_poll-status q env w h i =
    simp (h, i)
      (finish-status q env w _ _ _ (poll-Answers env w i)
        ∙ ap (or_status (answer env env.connect w)) h)
