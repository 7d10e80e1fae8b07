-- ===== src/CallCenter/Calls/Clock.antt =====
-- That the durations of a call add up.
use propza_amlak.Prelude.{
  ℕ, ◌+◌, ◌≤◌, ◌≡◌, ap, Option, none, some, List, [], ◌∷◌, String, All, arith,
}
use propza_amlak.CallCenter.Calls.{
  missed, ended, Call, Directory, seconds, wait_duration, talk_duration,
}
use propza_amlak.CallCenter.Calls.Times.{Reach, is_ended, is_unanswered, IsTimed, Reach-IsTimed}

-- A call that has ended lasted from its start to its end the sum of its durations; one that was missed
-- has none.
pub record AddsUp (c : Call) : Type 0 where
  pub whole :
      c.state ≡ ended
      → (s : ℕ) × (e : ℕ) × (c.start_datetime ≡ some s)
        × (c.end_datetime ≡ some e)
        × (s + wait_duration c + talk_duration c ≡ e)
  pub nothing : c.state ≡ missed → (wait_duration c ≡ 0) × (talk_duration c ≡ 0)

sum_of :
    (s a b : ℕ) (o p q : Option ℕ)
    → o ≡ some s
    → p ≡ some a
    → q ≡ some b
    → s ≤ a
    → a ≤ b
    → s + seconds o p + seconds p q ≡ b
sum_of s a b o p q x y z l m = ground arith

zero_wait : (o p : Option ℕ) → p ≡ none → seconds o p ≡ 0
zero_wait o p h = ground arith

zero_talk : (p q : Option ℕ) → p ≡ none → seconds p q ≡ 0
zero_talk p q h = ground arith

IsTimed-AddsUp : (now : ℕ) (c : Call) → IsTimed now c → AddsUp c
IsTimed-AddsUp now c h = record {
  whole = λ q.
      let (a, b, x, y, l) = h.over (ap is_ended q) in
      (h.begin, b, h.begun, y, sum_of h.begin a b _ _ _ h.begun x y (h.answer_past a x).0 l);
  nothing = λ q.
      let n = h.unanswered (ap is_unanswered q) in
      (
        zero_wait c.start_datetime c.answer_datetime n,
        zero_talk c.answer_datetime c.end_datetime n,
      );
}

All-AddsUp : (now : ℕ) (cs : List Call) → All (IsTimed now) cs → All AddsUp cs
All-AddsUp now [] h = tt
All-AddsUp now (c ∷ cs) (h, hs) = (IsTimed-AddsUp now c h, All-AddsUp now cs hs)

-- Whatever the PBX reports to its webhook (`telephony_webhook`), in any order and any number of times,
-- and whenever stale calls are closed, as long as the clock does not go back: the start of a call that has ended, its wait and
-- its talk add up to its end, and a call that was missed has neither wait nor talk.
pub Reach-AddsUp :
    {d : Directory} {expected : String} {now : ℕ} {cs : List Call}
    → Reach d expected now cs
    → All AddsUp cs
Reach-AddsUp {now = now} {cs} r = All-AddsUp now cs (Reach-IsTimed r)
