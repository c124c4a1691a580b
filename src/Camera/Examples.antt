-- ===== src/Camera/Examples.antt =====
-- The camera theorems at concrete inputs, and runs of the model.
use paper_breakage_analysis.Base.{
  ℕ, ◌≤◌, ◌≡◌, refl, inl, inr, List, [], ◌∷◌, ◌++◌, true, false, none, some, success, Error, error,
  make_error, arith,
}
use paper_breakage_analysis.Camera.State.{
  disconnected, streaming, recovering, is_camera_transition_allowed,
}
use paper_breakage_analysis.Camera.Reconnect
use paper_breakage_analysis.Camera.Reconnect.{
  ReconnectController, ReconnectStep, WaitTicket, returned, cancelled, schedules, cancels, finishes,
  begin_wait, finish_wait, exhausted, schedule_next, delay_of_attempt,
}
use paper_breakage_analysis.Camera.Reconnect.Schedule
use paper_breakage_analysis.Camera.Reconnect.Schedule.{
  armed_delays, armed_delays-planned, delay_of_attempt_mono, step-IsValid, planned,
}
use paper_breakage_analysis.Camera.Reconnect.Stale.{by_cancel, interrupted_wait_never_ready}
use paper_breakage_analysis.Camera.Session.{
  CameraSession, SessionCall, transitions, fails, finishes_wait, resumes, handle_failure,
  request_stop, run, new_session,
}
use paper_breakage_analysis.Camera.Session.Invariant
use paper_breakage_analysis.Camera.Session.Invariant.{IsOff}
use paper_breakage_analysis.Camera.Session.Observer.{
  WatchedStep, calls, delivers, unwatched, watched_run, IsWatched, watched_run-IsWatched,
}
use paper_breakage_analysis.Camera.Session.Failure.{handle_failure_decides, request_stop_lasts}

abbrev idle_controller : ReconnectController
idle_controller = record {
  maximum_attempts = 2;
  attempt_count = 0;
  next_delay = none;
  wait_stop_source = 0;
  wait_generation = 0;
  stop_states = false ∷ [];
}

-- One retry is armed.
abbrev armed_controller : ReconnectController
armed_controller = record {
  maximum_attempts = 2;
  attempt_count = 1;
  next_delay = some 1000;
  wait_stop_source = 1;
  wait_generation = 1;
  stop_states = true ∷ false ∷ [];
}

abbrev ticket : WaitTicket
ticket = record { delay = 1000; source = 1; generation = 1 }

schedules_first : schedule_next idle_controller ≡ (armed_controller, some 1000)
unfolding schedule_next
schedules_first = refl

armed-IsValid : Schedule.IsValid armed_controller
armed-IsValid = record {
  allowed_attempts = omega arith;
  bounded = omega arith;
  armed = inr (omega arith, refl);
  source_exists = omega arith;
}

idle-IsValid : Schedule.IsValid idle_controller
idle-IsValid = record {
  allowed_attempts = omega arith;
  bounded = omega arith;
  armed = inl refl;
  source_exists = omega arith;
}

delay_of_attempt_mono_example :
    (1000 ≤ delay_of_attempt 2)
    × (delay_of_attempt 2 ≤ delay_of_attempt 9)
    × (delay_of_attempt 9 ≤ 60000)
delay_of_attempt_mono_example = delay_of_attempt_mono 2 9 (omega arith)

abbrev two_failures : List ReconnectStep
two_failures = schedules ∷ finishes ticket (returned true) ∷ schedules ∷ []

armed_delays-planned_example :
    (rest : List ℕ) × (armed_delays idle_controller two_failures ++ rest ≡ planned 0 2)
armed_delays-planned_example =
    armed_delays-planned idle_controller two_failures (refl, (refl, (refl, tt)))

interrupted_wait_example :
    let interrupted = Reconnect.step (Reconnect.run armed_controller []) cancels in
    let r = Reconnect.run interrupted (schedules ∷ []) in
    finish_wait r ticket (returned true) ≡ (r, cancelled)
unfolding begin_wait
interrupted_wait_example =
    interrupted_wait_never_ready armed_controller ticket [] (schedules ∷ []) cancels (returned true)
      armed-IsValid refl by_cancel

abbrev streaming_session : CameraSession
streaming_session = record {
  camera_id = "CAM01";
  state = streaming;
  last_error = none;
  stop_requested = false;
  transition_sequence = 4;
  reconnect = idle_controller;
}

abbrev lost : Error
lost = make_error "CAMERA_DISCONNECTED" error "camera" "camera.read" true

abbrev recovery : List SessionCall
recovery =
    fails lost "link lost"
    ∷ finishes_wait ticket (returned true)
    ∷ resumes
    ∷ transitions streaming "skip" none
    ∷ []

-- Of two records, the second reaches the observer first.
abbrev overtaken : List WatchedStep
overtaken =
    calls (fails lost "link lost")
    ∷ calls (transitions disconnected "link closed" none)
    ∷ delivers 0
    ∷ delivers 0
    ∷ []

watched_run-IsWatched_example :
    IsWatched streaming_session (watched_run (unwatched streaming_session) overtaken)
watched_run-IsWatched_example = watched_run-IsWatched streaming_session overtaken

fresh_session : CameraSession
fresh_session = record streaming_session {
  state = disconnected;
  transition_sequence = 0;
  reconnect = record idle_controller { maximum_attempts = 6 };
}

session_stays-IsValid_example : Invariant.IsValid (run fresh_session recovery).0
unfolding new_session fresh_session Reconnect.new_controller
session_stays-IsValid_example = Invariant.session_stays-IsValid "CAM01" true 6 recovery refl

handle_failure_decides_example :
    let q = handle_failure streaming_session lost "link lost" in
    (q.result ≡ success tt)
    × (q.session.state ≡ recovering)
    × (q.session.reconnect ≡ (schedule_next idle_controller).0)
unfolding is_camera_transition_allowed exhausted
handle_failure_decides_example = handle_failure_decides streaming_session lost "link lost" refl

request_stop_lasts_example :
    let s = (run (request_stop streaming_session true).session (fails lost "late" ∷ [])).0 in
    IsOff s.state × (s.reconnect.next_delay ≡ none)
request_stop_lasts_example =
    request_stop_lasts streaming_session true (fails lost "late" ∷ []) (refl, tt)
