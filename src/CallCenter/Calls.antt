-- ===== src/CallCenter/Calls.antt =====
-- controllers/telephony_webhook.py and models/call_center_call.py. The searches of the database for a
-- queue, an agent and a partner are parameters. The newest call comes first, as in the order of the
-- model; an absent text is the empty text.
pub mod Times
pub mod Clock
use text.Mathlib.Text.{◌==◌ as str_eq}
use propza_amlak.Prelude.{
  ℕ, ◌+◌, ◌-◌, ◌*◌, Bool, true, false, ◌&&◌, ◌||◌, not, Option, none, some, is_some, List, [], ◌∷◌,
  map, String, is_set, or_text, leb, if◌then◌else◌,
}

pub data CallState : Type 0 where
  ringing answered missed voicemail ended : CallState

pub record Call : Type 0 where
  pub call_uid : String
  pub direction : String
  pub from_number : String
  pub to_number : String
  pub partner_id : Option ℕ
  pub agent_id : Option ℕ
  pub queue_id : Option ℕ
  pub state : CallState
  pub start_datetime : Option ℕ
  pub answer_datetime : Option ℕ
  pub end_datetime : Option ℕ
  pub recording_url : String
  pub ticket_id : Option ℕ
  pub notes : String

pub record Directory : Type 0 where
  pub find_queue : String → Option ℕ
  pub find_agent : String → Option ℕ
  pub find_partner : String → Option ℕ

-- The body of a request.
pub record CallEvent : Type 0 where
  pub event : String
  pub call_uid : String
  pub direction : String
  pub from_number : String
  pub to_number : String
  pub queue_code : String
  pub agent_extension : String
  pub recording_url : String

pub data Reply : Type 0 where
  invalid_token missing_event already_exists created uid_not_found unknown_event : Reply
  updated : CallState → Reply

-- The seconds from one time to another, 0 where the other comes first or one is not set.
abbrev pub seconds : Option ℕ → Option ℕ → ℕ
seconds (some a) (some b) = b - a
seconds _ _ = 0

-- `_compute_durations`
abbrev pub wait_duration : Call → ℕ
wait_duration c = seconds c.start_datetime c.answer_datetime

abbrev pub talk_duration : Call → ℕ
talk_duration c = seconds c.answer_datetime c.end_datetime

abbrev pub search : (String → Option ℕ) → String → Option ℕ
search find code = if is_set code then find code else none

-- `create`, with the call that the event describes.
unfoldable pub create_call : Directory → ℕ → CallEvent → Call
create_call d now e = record {
  call_uid = e.call_uid;
  direction = or_text e.direction "in";
  from_number = e.from_number;
  to_number = e.to_number;
  partner_id = search d.find_partner e.from_number;
  agent_id = search d.find_agent e.agent_extension;
  queue_id = search d.find_queue e.queue_code;
  state = ringing;
  start_datetime = some now;
  answer_datetime = none;
  end_datetime = none;
  recording_url = String.[];
  ticket_id = none;
  notes = String.[];
}

abbrev pub has_uid : String → Call → Bool
has_uid uid c = str_eq c.call_uid uid

unfoldable pub find_call : String → List Call → Option Call
find_call uid [] = none
find_call uid (c ∷ cs) = let rest = find_call uid cs in if has_uid uid c then some c else rest

-- A write to the call that the search finds.
unfoldable pub write_call : String → (Call → Call) → List Call → List Call
write_call uid f [] = []
write_call uid f (c ∷ cs) =
    let rest = write_call uid f cs in if has_uid uid c then f c ∷ cs else c ∷ rest

abbrev pub on_answered : ℕ → Call → Call
on_answered now c = record c { state = answered; answer_datetime = some now }

abbrev pub on_ended : ℕ → CallEvent → Call → Call
on_ended now e c = record c {
  state = if is_some c.answer_datetime then ended else missed;
  end_datetime = some now;
  recording_url = or_text e.recording_url c.recording_url;
}

abbrev pub on_voicemail : ℕ → Call → Call
on_voicemail now c = record c { state = voicemail; end_datetime = some now }

abbrev pub on_ringing : Directory → ℕ → CallEvent → Option Call → List Call → Reply × List Call
on_ringing d now e (some c) cs = (already_exists, cs)
on_ringing d now e none cs = (created, create_call d now e ∷ cs)

abbrev pub write_back : CallEvent → (Call → Call) → Call → List Call → Reply × List Call
write_back e f c cs = (updated (f c).state, write_call e.call_uid f cs)

unfoldable pub on_call : ℕ → CallEvent → Option Call → List Call → Reply × List Call
on_call now e none cs = (uid_not_found, cs)
on_call now e (some c) cs =
    if str_eq e.event "answered"
    then write_back e (on_answered now) c cs
    else if str_eq e.event "ended"
    then write_back e (on_ended now e) c cs
    else if str_eq e.event "voicemail"
    then write_back e (on_voicemail now) c cs
    else (unknown_event, cs)

-- `call_event`, by the expected token and the one of the header.
unfoldable pub call_event :
    Directory → String → ℕ → String → CallEvent → List Call → Reply × List Call
unfolding find_call on_call
call_event d expected now token e cs =
    if not (str_eq token expected)
    then (invalid_token, cs)
    else if not (is_set e.event) || not (is_set e.call_uid)
    then (missing_event, cs)
    else if str_eq e.event "ringing"
    then on_ringing d now e (find_call e.call_uid cs) cs
    else on_call now e (find_call e.call_uid cs) cs

abbrev pub is_ringing : CallState → Bool
is_ringing ringing = true
is_ringing _ = false

-- `start_datetime <= now - timeout`, which an unset time does not satisfy.
abbrev pub since : ℕ → ℕ → Option ℕ → Bool
since now timeout none = false
since now timeout (some s) = leb (s + timeout * 60) now

abbrev pub close_if_stale : ℕ → ℕ → Call → Call
close_if_stale now timeout c =
    if is_ringing c.state && since now timeout c.start_datetime
    then record c { state = missed; end_datetime = some now }
    else c

-- `_cron_close_stale_ringing_calls`
unfoldable pub close_stale_ringing_calls : ℕ → ℕ → List Call → List Call
close_stale_ringing_calls now timeout cs = map (close_if_stale now timeout) cs
