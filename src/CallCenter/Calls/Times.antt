-- ===== src/CallCenter/Calls/Times.antt =====
-- That the times of a call are in order, and its state says which of them are set.
use text.Mathlib.Text.{◌==◌ as str_eq}
use propza_amlak.Prelude.{
  ℕ, ◌≤◌, ◌&&◌, ◌||◌, not, is_set, ◌≡◌, refl, Bool, true, false, Bool-cases, inl, inr, Option, none,
  some, is_some, List, [], ◌∷◌, map, String, All, arith, if◌then◌else◌,
}
use propza_amlak.CallCenter.Calls.{
  CallState, ringing, missed, ended, Call, Directory, CallEvent, Reply, invalid_token,
  missing_event, unknown_event, write_back, create_call, find_call, has_uid, write_call, is_ringing,
  since, on_answered, on_ended, on_voicemail, on_ringing, on_call, call_event, close_if_stale,
  close_stale_ringing_calls,
}

-- The calls at a time: reported by events and closed by the cron, at times that do not go back.
pub data Reach (d : Directory) (expected : String) : ℕ → List Call → Type 0 where
  start : Reach d expected 0 []
  event :
      {t : ℕ} {cs : List Call}
      → Reach d expected t cs
      → (now : ℕ) → t ≤ now
      → (token : String) (e : CallEvent)
      → Reach d expected now (call_event d expected now token e cs).1
  clean :
      {t : ℕ} {cs : List Call}
      → Reach d expected t cs
      → (now : ℕ) → t ≤ now
      → (timeout : ℕ) → Reach d expected now (close_stale_ringing_calls now timeout cs)

abbrev pub is_ended : CallState → Bool
is_ended ended = true
is_ended _ = false

abbrev pub is_unanswered : CallState → Bool
is_unanswered ringing = true
is_unanswered missed = true
is_unanswered _ = false

-- The order of the times, and what the state says of them.
pub record IsTimed (now : ℕ) (c : Call) : Type 0 where
  pub begin : ℕ
  pub begun : c.start_datetime ≡ some begin
  pub past : begin ≤ now
  pub answer_past : (a : ℕ) → c.answer_datetime ≡ some a → (begin ≤ a) × (a ≤ now)
  pub unanswered : is_unanswered c.state ≡ true → c.answer_datetime ≡ none
  pub over :
      is_ended c.state ≡ true
      → (a : ℕ) × (b : ℕ) × (c.answer_datetime ≡ some a) × (c.end_datetime ≡ some b) × (a ≤ b)

later : {t now : ℕ} {c : Call} → t ≤ now → IsTimed t c → IsTimed now c
later l h = record {
  begin = h.begin;
  begun = h.begun;
  past = ground (arith, h.past);
  answer_past = λ a q. let (x, y) = h.answer_past a q in (x, ground arith);
  unanswered = h.unanswered;
  over = h.over;
}

answered-IsTimed : (now : ℕ) (c : Call) → IsTimed now c → IsTimed now (on_answered now c)
answered-IsTimed now c h = record {
  begin = h.begin;
  begun = h.begun;
  past = h.past;
  answer_past = λ a q. (ground (arith, h.past), ground arith);
  unanswered = λ q. absurd (ground arith);
  over = λ q. absurd (ground arith);
}

voicemail-IsTimed : (now : ℕ) (c : Call) → IsTimed now c → IsTimed now (on_voicemail now c)
voicemail-IsTimed now c h = record {
  begin = h.begin;
  begun = h.begun;
  past = h.past;
  answer_past = h.answer_past;
  unanswered = λ q. absurd (ground arith);
  over = λ q. absurd (ground arith);
}

unanswered_when_ended :
    (o : Option ℕ) → is_unanswered (if is_some o then ended else missed) ≡ true → o ≡ none
unanswered_when_ended none h = refl
unanswered_when_ended (some a) h = absurd (ground arith)

over_when_ended :
    (now : ℕ) (o : Option ℕ)
    → ((a : ℕ) → o ≡ some a → a ≤ now)
    → is_ended (if is_some o then ended else missed) ≡ true
    → (a : ℕ) × (b : ℕ) × (o ≡ some a) × (some now ≡ some b) × (a ≤ b)
over_when_ended now none p h = absurd (ground arith)
over_when_ended now (some a) p h = (a, now, refl, refl, p a refl)

ended-IsTimed :
    (now : ℕ) (e : CallEvent) (c : Call) → IsTimed now c → IsTimed now (on_ended now e c)
ended-IsTimed now e c h = record {
  begin = h.begin;
  begun = h.begun;
  past = h.past;
  answer_past = h.answer_past;
  unanswered = unanswered_when_ended c.answer_datetime;
  over = over_when_ended now c.answer_datetime (λ a q. (h.answer_past a q).1);
}

created-IsTimed : (d : Directory) (now : ℕ) (e : CallEvent) → IsTimed now (create_call d now e)
unfolding create_call
created-IsTimed d now e = record {
  begin = now;
  begun = refl;
  past = omega arith;
  answer_past = λ a q. absurd (ground arith);
  unanswered = λ q. refl;
  over = λ q. absurd (ground arith);
}

closed-IsTimed :
    (now timeout : ℕ) (c : Call) → IsTimed now c → IsTimed now (close_if_stale now timeout c)
closed-IsTimed now timeout c h =
    elim (Bool-cases (is_ringing c.state && since now timeout c.start_datetime)) [
      | inl b ↦ rw b (record {
        begin = h.begin;
        begun = h.begun;
        past = h.past;
        answer_past = h.answer_past;
        unanswered = λ q. h.unanswered (ground arith);
        over = λ q. absurd (ground arith);
      })
      | inr b ↦ rw b h
    ]

write-IsTimed :
    (now : ℕ) (uid : String) (f : Call → Call)
    → ((c : Call) → IsTimed now c → IsTimed now (f c))
    → (cs : List Call) → All (IsTimed now) cs
    → All (IsTimed now) (write_call uid f cs)
unfolding write_call
write-IsTimed now uid f k [] h = h
write-IsTimed now uid f k (c ∷ cs) (h, hs) = elim (Bool-cases (has_uid uid c)) [
  | inl b ↦ rw b (k c h, hs)
  | inr b ↦ rw b (h, write-IsTimed now uid f k cs hs)
]

map-IsTimed :
    (t now : ℕ) (f : Call → Call)
    → ((c : Call) → IsTimed t c → IsTimed now (f c))
    → (cs : List Call) → All (IsTimed t) cs
    → All (IsTimed now) (map f cs)
map-IsTimed t now f k [] h = h
map-IsTimed t now f k (c ∷ cs) (h, hs) = (k c h, map-IsTimed t now f k cs hs)

later_calls : (t now : ℕ) (cs : List Call) → t ≤ now → All (IsTimed t) cs → All (IsTimed now) cs
later_calls t now [] l h = h
later_calls t now (c ∷ cs) l (h, hs) = (later l h, later_calls t now cs l hs)

-- Both branches of a conditional have a property, so it has it.
either : {A : Type 0} (P : A → Type 0) (b : Bool) (x y : A) → P x → P y → P (if b then x else y)
either P true x y p q = p
either P false x y p q = q

-- What a request leaves.
abbrev Leaves : ℕ → Reply × List Call → Type 0
Leaves now p = All (IsTimed now) p.1

on_call-IsTimed :
    (now : ℕ) (e : CallEvent) (o : Option Call) (cs : List Call)
    → All (IsTimed now) cs
    → All (IsTimed now) (on_call now e o cs).1
unfolding on_call
on_call-IsTimed now e none cs h = h
on_call-IsTimed now e (some c) cs h =
    let voiced =
      either (Leaves now) (str_eq e.event "voicemail") (write_back e (on_voicemail now) c cs)
        (unknown_event, cs) (write-IsTimed now e.call_uid _ (voicemail-IsTimed now) cs h) h in
    let over =
      either (Leaves now) (str_eq e.event "ended") (write_back e (on_ended now e) c cs) _
        (write-IsTimed now e.call_uid _ (ended-IsTimed now e) cs h) voiced in
    either (Leaves now) (str_eq e.event "answered") (write_back e (on_answered now) c cs) _
      (write-IsTimed now e.call_uid _ (answered-IsTimed now) cs h) over

ringing-IsTimed :
    (d : Directory) (now : ℕ) (e : CallEvent) (o : Option Call) (cs : List Call)
    → All (IsTimed now) cs
    → All (IsTimed now) (on_ringing d now e o cs).1
ringing-IsTimed d now e none cs h = (created-IsTimed d now e, h)
ringing-IsTimed d now e (some c) cs h = h

event-IsTimed :
    (d : Directory) (expected : String) (now : ℕ) (token : String) (e : CallEvent) (cs : List Call)
    → All (IsTimed now) cs
    → All (IsTimed now) (call_event d expected now token e cs).1
unfolding call_event
event-IsTimed d expected now token e cs h =
    let known =
      either (Leaves now) (str_eq e.event "ringing")
        (on_ringing d now e (find_call e.call_uid cs) cs)
        (on_call now e (find_call e.call_uid cs) cs)
        (ringing-IsTimed d now e (find_call e.call_uid cs) cs h)
        (on_call-IsTimed now e (find_call e.call_uid cs) cs h) in
    let complete =
      either (Leaves now) (not (is_set e.event) || not (is_set e.call_uid)) (missing_event, cs) _ h
        known in
    either (Leaves now) (not (str_eq token expected)) (invalid_token, cs) _ h complete

pub Reach-IsTimed :
    {d : Directory} {expected : String} {now : ℕ} {cs : List Call}
    → Reach d expected now cs
    → All (IsTimed now) cs
unfolding close_stale_ringing_calls
Reach-IsTimed start = tt
Reach-IsTimed (event {t} {cs} r now l token e) =
    event-IsTimed _ _ now token e cs (later_calls t now cs l (Reach-IsTimed r))
Reach-IsTimed (clean {t} {cs} r now l timeout) =
    map-IsTimed now now _ (closed-IsTimed now timeout) cs (later_calls t now cs l (Reach-IsTimed r))
