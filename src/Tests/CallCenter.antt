-- ===== src/Tests/CallCenter.antt =====
-- A call that rings, is answered and ends.
use propza_amlak.Prelude.{some, none, [], ◌∷◌, String, All, arith}
use propza_amlak.CallCenter.Calls.{
  Call, Directory, CallEvent, create_call, find_call, on_call, on_answered, on_ended, write_call,
  call_event,
}
use propza_amlak.CallCenter.Calls.Times.{Reach, start, event}
use propza_amlak.CallCenter.Calls.Clock.{AddsUp, Reach-AddsUp}

abbrev directory : Directory
directory = record { find_queue = λ s. some 1; find_agent = λ s. some 2; find_partner = λ s. none }

abbrev reported : String → CallEvent
reported e = record {
  event = e;
  call_uid = "u-1";
  direction = "in";
  from_number = "0501234567";
  to_number = "8001234567";
  queue_code = "sales";
  agent_extension = "101";
  recording_url = "";
}

-- The call in the end.
abbrev talk : Call
unfolding create_call
talk = on_ended 20 (reported "ended") (on_answered 9 (create_call directory 5 (reported "ringing")))

reached : Reach directory "key" 20 (talk ∷ [])
unfolding call_event find_call on_call write_call create_call talk
reached =
    event
      (event (event start 5 (omega arith) "key" (reported "ringing")) 9 (omega arith) "key"
        (reported "answered"))
      20 (omega arith) "key" (reported "ended")

Reach-AddsUp_example : All AddsUp (talk ∷ [])
Reach-AddsUp_example = Reach-AddsUp reached
