-- ===== src/Camera/Session/Invariant.antt =====
-- What holds of a session between two calls.
use paper_breakage_analysis.Base.{
  ℕ, ◌≡◌, refl, ◌⊎◌, inl, inr, List, [], ◌∷◌, String, Bool, true, false, Option, none, some,
  success, Error, arith, if◌then◌else◌, Bool-cases,
}
use paper_breakage_analysis.Camera.State.{
  CameraState, ◌is◌, disabled, disconnected, connecting, streaming, recovering, faulted,
  is_camera_transition_allowed,
}
use paper_breakage_analysis.Camera.Reconnect.{
  ReconnectController, WaitTicket, WaiterOutcome, schedule_next, cancel, reset, finish_wait,
  external_stop, new_controller,
}
use paper_breakage_analysis.Camera.Reconnect.Schedule
use paper_breakage_analysis.Camera.Reconnect.Schedule.{
  schedule_next-IsValid, cancel-IsValid, reset-IsValid, finish_wait-IsValid, external_stop-IsValid,
}
use paper_breakage_analysis.Camera.Session.{
  CameraSession, SessionCall, transitions, fails, stops_wait, finishes_wait, resumes, stops,
  resets_fault, settle, retry_or_fault, exhausted_error, apply_transition, transition_to,
  handle_failure, finish_retry_wait, resume_retry, new_session, request_stop, reset_fault, step,
  run,
}

abbrev pub IsOff : CameraState → Type 0
IsOff c = (c ≡ disabled) ⊎ (c ≡ disconnected)

pub record IsValid (s : CameraSession) : Type 0 where
  pub retries : Schedule.IsValid s.reconnect
  -- a streaming camera has no recovery behind it and no stop ahead of it
  pub streaming_clean :
      s.state ≡ streaming
      → (s.reconnect.attempt_count ≡ 0)
        × (s.reconnect.next_delay ≡ none)
        × (s.stop_requested ≡ false)
        × (s.last_error ≡ none)
  -- no retry is armed for a camera that is off
  pub off_unarmed : IsOff s.state → s.reconnect.next_delay ≡ none

-- An accepted transition makes a session valid, whatever its state was.
accepted-IsValid :
    (s : CameraSession) (target : CameraState) (reason : String) (cause : Option Error)
    → is_camera_transition_allowed s.state target ≡ true
    → Schedule.IsValid s.reconnect
    → IsValid (apply_transition s target reason cause).1
unfolding apply_transition settle reset cancel
accepted-IsValid s target reason cause a v =
    rw a (ground (arith, reset-IsValid s.reconnect v, cancel-IsValid s.reconnect v))

refused-IsValid :
    (s : CameraSession) (target : CameraState) (reason : String) (cause : Option Error)
    → is_camera_transition_allowed s.state target ≡ false
    → IsValid s
    → IsValid (apply_transition s target reason cause).1
unfolding apply_transition
refused-IsValid s target reason cause a v = rw a (ground arith)

pub apply_transition-IsValid :
    (s : CameraSession) (target : CameraState) (reason : String) (cause : Option Error)
    → IsValid s
    → IsValid (apply_transition s target reason cause).1
apply_transition-IsValid s target reason cause v =
    elim (Bool-cases (is_camera_transition_allowed s.state target)) [
      | inl a ↦ accepted-IsValid s target reason cause a v.retries
      | inr a ↦ refused-IsValid s target reason cause a v
    ]

pub accepted_result :
    (s : CameraSession) (target : CameraState) (reason : String) (cause : Option Error)
    → is_camera_transition_allowed s.state target ≡ true
    → ((apply_transition s target reason cause).0.result ≡ success tt)
      × ((apply_transition s target reason cause).1.state ≡ target)
unfolding apply_transition settle
accepted_result s target reason cause a = rw a (ground arith)

pub recoverable_may_fault :
    (c : CameraState)
    → is_camera_transition_allowed c recovering ≡ true
    → is_camera_transition_allowed c faulted ≡ true
unfolding is_camera_transition_allowed
recoverable_may_fault c a = ground arith

-- A camera can be switched off from every other state.
pub off_always_allowed :
    (c : CameraState) (remain_enabled : Bool)
    → let target = if remain_enabled then disconnected else disabled in
      (c is target) ≡ false → is_camera_transition_allowed c target ≡ true
unfolding is_camera_transition_allowed
off_always_allowed c remain_enabled h = ground arith

pub next_delay-cancel : (r : ReconnectController) → (cancel r).next_delay ≡ none
unfolding cancel
next_delay-cancel r = refl

retry_or_fault-IsValid :
    (s : CameraSession) (e : Error) (reason : String)
    → is_camera_transition_allowed s.state recovering ≡ true
    → IsValid s
    → IsValid (retry_or_fault s e reason).1
unfolding retry_or_fault
retry_or_fault-IsValid s e reason a v =
    let r = (schedule_next s.reconnect).0 in
    let s' = record s { reconnect = r } in
    let v' = schedule_next-IsValid s.reconnect v.retries in
    ground (
      arith,
      accepted-IsValid s' recovering reason (some e) a v',
      cancel-IsValid (apply_transition s' recovering reason (some e)).1.reconnect,
      accepted_result s' recovering reason (some e) a,
      accepted-IsValid s' faulted reason (some (exhausted_error e r.attempt_count))
          (recoverable_may_fault s.state a) v',
    )

handle_failure-IsValid :
    (s : CameraSession) (e : Error) (reason : String)
    → IsValid s
    → IsValid (handle_failure s e reason).session
unfolding handle_failure
handle_failure-IsValid s e reason v = ground (
  arith,
  apply_transition-IsValid s recovering reason (some e) v,
  apply_transition-IsValid s faulted reason (some e) v,
  retry_or_fault-IsValid s e reason,
)

request_stop-IsValid :
    (s : CameraSession) (remain_enabled : Bool)
    → IsValid s
    → IsValid (request_stop s remain_enabled).session
unfolding request_stop
request_stop-IsValid s remain_enabled v =
    let target = if remain_enabled then disconnected else disabled in
    let stopping = record s { stop_requested = true; reconnect = cancel s.reconnect } in
    ground (
      arith,
      cancel-IsValid s.reconnect v.retries,
      next_delay-cancel s.reconnect,
      off_always_allowed s.state remain_enabled,
      accepted-IsValid stopping target "stop-requested" none,
    )

reset_fault-IsValid :
    (s : CameraSession) (reason : String) → IsValid s → IsValid (reset_fault s reason).session
unfolding reset_fault
reset_fault-IsValid s reason v = ground (
  arith,
  apply_transition-IsValid s s.state reason none v,
  apply_transition-IsValid (record s { stop_requested = false }) disconnected reason none,
)

resume_retry-IsValid : (s : CameraSession) → IsValid s → IsValid (resume_retry s).0
unfolding resume_retry
resume_retry-IsValid s v =
    ground (arith, apply_transition-IsValid s connecting "reconnect-delay-elapsed" none v)

finish_retry_wait-IsValid :
    (s : CameraSession) (t : WaitTicket) (outcome : WaiterOutcome)
    → IsValid s
    → IsValid (finish_retry_wait s t outcome).0
unfolding finish_retry_wait finish_wait
finish_retry_wait-IsValid s t outcome v =
    ground (arith, finish_wait-IsValid s.reconnect t outcome v.retries)

stops_wait-IsValid :
    (s : CameraSession) (t : WaitTicket)
    → IsValid s
    → IsValid (record s { reconnect = external_stop t s.reconnect })
unfolding external_stop
stops_wait-IsValid s t v = ground (arith, external_stop-IsValid t s.reconnect v.retries)

-- Every call keeps a session valid: the retries are bounded, a streaming camera carries no attempt,
-- armed retry, stop request or error, and no retry is armed while a camera is off.
pub step-IsValid : (s : CameraSession) (c : SessionCall) → IsValid s → IsValid (step s c).0
unfolding step
step-IsValid s (transitions target reason cause) v =
    unfold transition_to in apply_transition-IsValid s target reason cause v
step-IsValid s (fails e reason) v = handle_failure-IsValid s e reason v
step-IsValid s (stops_wait t) v = stops_wait-IsValid s t v
step-IsValid s (finishes_wait t outcome) v = finish_retry_wait-IsValid s t outcome v
step-IsValid s resumes v = resume_retry-IsValid s v
step-IsValid s (stops remain_enabled) v = request_stop-IsValid s remain_enabled v
step-IsValid s (resets_fault reason) v = reset_fault-IsValid s reason v

pub new_session-IsValid :
    (camera_id : String) (enabled : Bool) (maximum : ℕ) {s : CameraSession}
    → new_session camera_id enabled maximum ≡ some s
    → IsValid s
unfolding new_session new_controller
new_session-IsValid camera_id enabled maximum e = ground arith

run_keeps : (s : CameraSession) (cs : List SessionCall) → IsValid s → IsValid (run s cs).0
unfolding run
run_keeps s [] v = v
run_keeps s (c ∷ cs) v = run_keeps (step s c).0 cs (step-IsValid s c v)

-- A session that the constructor gave is valid after any calls.
pub session_stays-IsValid :
    (camera_id : String) (enabled : Bool) (maximum : ℕ) {s : CameraSession} (cs : List SessionCall)
    → new_session camera_id enabled maximum ≡ some s
    → IsValid (run s cs).0
session_stays-IsValid camera_id enabled maximum {s} cs e =
    run_keeps s cs (new_session-IsValid camera_id enabled maximum e)
