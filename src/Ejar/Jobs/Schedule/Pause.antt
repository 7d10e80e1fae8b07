-- ===== src/Ejar/Jobs/Schedule/Pause.antt =====
-- That a contract which was polled is left alone for half an hour.
use mathlib.Core.Path.{subst}
use propza_amlak.Prelude.{
  ℕ, ◌+◌, ◌≤◌, ◌<◌, ◌≡◌, sym, true, false, Bool-cases, inl, inr, Option, none, some, is_some, List,
  [], ◌∷◌, length, String, is_set, Result, ok, err, arith,
}
use propza_amlak.Ejar.Contract.Types.{Exc, ejar, user, unexpected, Contract, Status}
use propza_amlak.Ejar.Lifecycle.World.{World, Env, continue, ◌>>=◌, ◌>>◌, update}
use propza_amlak.Ejar.Lifecycle.Pipeline.{PollResult}
use propza_amlak.Ejar.Jobs.{Queue}
use propza_amlak.Ejar.Jobs.Polling.{
  is_pollable, poll_interval, poll_ejar_status, job_poll_ejar_status, after_poll, Answers,
  poll-Answers, follow_new, mapped,
}
use propza_amlak.Ejar.Jobs.Schedule.{
  has_come, is_due, poll_handed, handed, cron_poll_submitted_contracts, polled,
}

-- A next poll is set, and not before a time.
abbrev Waits : ℕ → Option ℕ → Type 0
Waits t none = ⊥
Waits t (some n) = t ≤ n

abbrev WaitsUntil : ℕ → Contract → Type 0
WaitsUntil t c = Waits t c.next_poll_at

finish-WaitsUntil :
    (q : Queue) (env : Env) (w : World) (t : ℕ) (o : Option Status) (r : Result Exc PollResult)
    (v : World)
    → t ≤ env.now + poll_interval
    → WaitsUntil t w.contract
    → Answers w o (r, v)
    → WaitsUntil t
        (let (s, u) =
            continue r
              (λ res.
                update
                  (λ c. record c { ejar_last_sync = some env.now; poll_count = c.poll_count + 1 })
                >> update (follow_new res (mapped res.ejar_state)))
              v in
          after_poll q env s u).1.contract
unfolding ◌>>=◌ update
finish-WaitsUntil q env w t o (ok r) v l h (c, e) = l
finish-WaitsUntil q env w t o (err (ejar x)) v l h (c, e) = subst (WaitsUntil t) (sym c) h
finish-WaitsUntil q env w t o (err (user x)) v l h (c, e) = subst (WaitsUntil t) (sym c) h
finish-WaitsUntil q env w t o (err (unexpected x)) v l h (c, e) = subst (WaitsUntil t) (sym c) h

job_poll-WaitsUntil :
    (q : Queue) (env : Env) (w : World) (t : ℕ)
    → t ≤ env.now + poll_interval
    → WaitsUntil t w.contract
    → WaitsUntil t (job_poll_ejar_status q env w).1.contract
unfolding job_poll_ejar_status poll_ejar_status ◌>>=◌
job_poll-WaitsUntil q env w t l h = elim (Bool-cases (is_pollable w.contract.ejar_status)) [
  | inr b ↦ rw b h
  | inl b ↦ elim (Bool-cases (is_set w.contract.ejar_contract_id)) [
    | inr i ↦ rw b (rw i h)
    | inl i ↦ rw b (rw i (finish-WaitsUntil q env w t _ _ _ l h (poll-Answers env w i)))
  ]
]

-- What may have happened to a contract since a time: nothing, or its job ran, once or more.
pub data Ran (q : Queue) (since : ℕ) (c : Contract) : Contract → Type 0 where
  idle : Ran q since c c
  run :
      {d : Contract}
      → Ran q since c d
      → (env : Env) (w : World) → w.contract ≡ d
      → since ≤ env.now
      → Ran q since c (job_poll_ejar_status q env w).1.contract

Ran-WaitsUntil :
    {q : Queue} {since t : ℕ} {c d : Contract}
    → Ran q since c d
    → t ≤ since + poll_interval
    → WaitsUntil t c
    → WaitsUntil t d
Ran-WaitsUntil idle l h = h
Ran-WaitsUntil {q} {since} {t} (run {d} r env w e n) l h =
    job_poll-WaitsUntil q env w t (ground arith)
      (subst (WaitsUntil t) (sym e) (Ran-WaitsUntil r l h))

Waits-not_come : (later : ℕ) (o : Option ℕ) → Waits (later + 1) o → has_come later o ≡ false
Waits-not_come later none h = absurd h
Waits-not_come later (some n) h = ground arith

Waits-not_due : (later : ℕ) (c : Contract) → WaitsUntil (later + 1) c → is_due later c ≡ false
Waits-not_due later c h = ground (arith, Waits-not_come later c.next_poll_at h)

-- A contract that was handed over waits; another that was not due may become so.
handed-WaitsUntil :
    (hand : Contract → Option String) (now later : ℕ) (c : Contract)
    → is_due now c ≡ true
    → is_some (hand c) ≡ true
    → later < now + poll_interval
    → WaitsUntil (later + 1) (handed hand now c)
handed-WaitsUntil hand now later c d s l = rw d (taken (hand c) s)
  where
    taken :
        (o : Option String)
        → is_some o ≡ true
        → Waits (later + 1) (poll_handed now o c).next_poll_at
    taken none e = absurd (ground arith)
    taken (some uuid) e = ground arith

-- The contracts that the cron left, after what happened to each since.
pub data Since (q : Queue) (now : ℕ) : List Contract → List Contract → Type 0 where
  none_left : Since q now [] []
  one_more :
      {c d : Contract} {cs ds : List Contract}
      → Ran q now c d
      → Since q now cs ds
      → Since q now (c ∷ cs) (d ∷ ds)

once :
    {q : Queue} (hand : Contract → Option String) (now later : ℕ) (c : Contract) {d : Contract}
    → is_some (hand c) ≡ true
    → later < now + poll_interval
    → Ran q now (handed hand now c) d
    → is_due now c ≡ true
    → is_due later d ≡ false
once hand now later c {d} s l r e =
    Waits-not_due later d
      (Ran-WaitsUntil r (ground arith) (handed-WaitsUntil hand now later c e s l))

-- The cron runs at two times less than half an hour apart, jobs of the first run may run in between,
-- and the queue takes what it is handed: the two runs together poll no contract twice, so that they
-- hand over as many polls at most as there are contracts.
pub cron_poll-length :
    (q : Queue) (hand : Contract → Option String) (now later : ℕ) (cs : List Contract)
    {ds : List Contract}
    → ((c : Contract) → is_some (hand c) ≡ true)
    → later < now + poll_interval
    → Since q now (cron_poll_submitted_contracts hand now cs) ds
    → length (polled now cs) + length (polled later ds) ≤ length cs
unfolding cron_poll_submitted_contracts polled
cron_poll-length q hand now later [] s l none_left = omega arith
cron_poll-length q hand now later (c ∷ cs) s l (one_more {d = d} {ds = ds} r rs) =
    let rest = cron_poll-length q hand now later cs s l rs in
    elim (Bool-cases (is_due now c)) [
      | inl e ↦ rw e (rw (once hand now later c (s c) l r e) (omega (arith, rest)))
      | inr e ↦ rw e (ground (arith, rest))
    ]
