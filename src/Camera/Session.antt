-- ===== src/Camera/Session.antt =====
-- The `CameraSessionController` of src/camera/src/state.cpp, which owns the state of one camera. A
-- call returns the new session, its result and the record that `notify` hands to the observer once the lock is released.
-- Reasons are kept whole, where the error detail of the code cuts them at 256 bytes. `wait_for_retry`
-- takes the lock of the reconnect controller and then its own: the steps `finish_retry_wait` and
-- `resume_retry`, between which other calls may run.
pub mod Trail
pub mod Observer
pub mod Invariant
pub mod Failure
use paper_breakage_analysis.Base.{
  ℕ, List, [], ◌∷◌, ◌++◌, String, Bool, true, false, not, ◌&&◌, ◌||◌, Option, none, some, Result,
  success, failure, Error, error, text, number, detail, make_error, has_value, is_empty,
  if◌then◌else◌, inc_u64,
}
use paper_breakage_analysis.Camera.State.{
  CameraState, disabled, disconnected, connecting, streaming, recovering, faulted, ◌is◌,
  is_camera_transition_allowed,
}
use paper_breakage_analysis.Camera.Reconnect.{
  ReconnectController, ReconnectWaitResult, ready, cancelled, WaitTicket, WaiterOutcome,
  schedule_next, cancel, reset, external_stop, finish_wait, new_controller,
}

pub record CameraSession : Type 0 where
  pub camera_id : String
  pub state : CameraState
  pub last_error : Option Error
  pub stop_requested : Bool
  pub transition_sequence : ℕ
  pub reconnect : ReconnectController

pub record TransitionRecord : Type 0 where
  pub sequence : ℕ
  pub camera_id : String
  pub from : CameraState
  pub to : CameraState
  pub reason : String
  pub accepted : Bool
  pub cause : Option Error

pub record TransitionOutcome : Type 0 where
  pub result : Result (Unit {0})
  pub transition : TransitionRecord

camera_state_name : CameraState → String
camera_state_name disabled = "Disabled"
camera_state_name disconnected = "Disconnected"
camera_state_name connecting = "Connecting"
camera_state_name CameraState.connected = "Connected"
camera_state_name CameraState.starting = "Starting"
camera_state_name streaming = "Streaming"
camera_state_name recovering = "Recovering"
camera_state_name faulted = "Faulted"

pub invalid_transition_error : String → CameraState → CameraState → String → Error
invalid_transition_error camera_id from to reason =
    let e = make_error "CAMERA_INVALID_STATE_TRANSITION" error "camera" "camera.transition" false in
    record e {
      source_id = some camera_id;
      details =
          detail "from" (text (camera_state_name from))
          ∷ detail "to" (text (camera_state_name to))
          ∷ detail "reason" (text reason)
          ∷ [];
    }

-- The constructor; `none` where it throws. The policy is its maximum of attempts.
unfoldable pub new_session : String → Bool → ℕ → Option CameraSession
new_session camera_id enabled maximum = elim (new_controller maximum) [
  | none ↦ none
  | some r ↦
      if is_empty camera_id
      then none
      else some (record {
        camera_id = camera_id;
        state = if enabled then disconnected else disabled;
        last_error = none;
        stop_requested = false;
        transition_sequence = 0;
        reconnect = r;
      })
]

abbrev pub keep_or : Option Error → Option Error → Option Error
keep_or none old = old
keep_or (some e) old = some e

-- What an accepted transition does to the rest of the session.
pub settle : CameraState → CameraState → CameraSession → CameraSession
settle previous target s =
    if target is streaming
    then record s { reconnect = reset s.reconnect; stop_requested = false; last_error = none }
    else if target is disconnected && (previous is faulted || previous is disabled)
    then record s {
      reconnect = reset s.reconnect;
      last_error = none;
      stop_requested = if previous is disabled then false else s.stop_requested;
    }
    else if target is disabled || target is disconnected
    then record s { reconnect = cancel s.reconnect }
    else if target is connecting
    then record s { stop_requested = false }
    else s

unfoldable pub apply_transition :
    CameraSession → CameraState → String → Option Error → TransitionOutcome × CameraSession
apply_transition s target reason cause =
    if is_camera_transition_allowed s.state target
    then (
      record { result = success tt; transition = recorded true cause },
      settle s.state target
          (record counted { state = target; last_error = keep_or cause s.last_error }),
    )
    else (record { result = failure refusal; transition = recorded false (some refusal) }, counted)
  where
    counted : CameraSession
    counted = record s { transition_sequence = inc_u64 s.transition_sequence }

    refusal : Error
    refusal = invalid_transition_error s.camera_id s.state target reason

    recorded : Bool → Option Error → TransitionRecord
    recorded accepted cause' = record {
      sequence = inc_u64 s.transition_sequence;
      camera_id = s.camera_id;
      from = s.state;
      to = target;
      reason = reason;
      accepted = accepted;
      cause = cause';
    }

-- The new session, the result, and the record that the observer gets.
pub record Reply : Type 0 where
  pub session : CameraSession
  pub result : Result (Unit {0})
  pub notified : Option TransitionRecord

abbrev reply : TransitionOutcome × CameraSession → Reply
reply (o, s) = record { session = s; result = o.result; notified = some o.transition }

pub transition_to : CameraSession → CameraState → String → Option Error → Reply
transition_to s target reason cause = reply (apply_transition s target reason cause)

-- The details that say that the attempts are used up.
abbrev pub exhausted_error : Error → ℕ → Error
exhausted_error e attempts = record e {
  retryable = false;
  details =
      (e.details ++ (detail "recoveryAttempts" (number attempts) ∷ []))
      ++ (detail "reason" (text "recovery-attempts-exhausted") ∷ []);
}

abbrev pub cancel_if_refused : TransitionOutcome × CameraSession → TransitionOutcome × CameraSession
cancel_if_refused (o, s) =
    (o, if has_value o.result then s else record s { reconnect = cancel s.reconnect })

-- The branch in which a retry may be armed.
pub retry_or_fault : CameraSession → Error → String → TransitionOutcome × CameraSession
retry_or_fault s e reason =
    let (r, delay) = schedule_next s.reconnect in
    elim delay [
      | some _ ↦
          cancel_if_refused
            (apply_transition (record s { reconnect = r }) recovering reason (some e))
      | none ↦
          apply_transition (record s { reconnect = r }) faulted reason
            (some (exhausted_error e r.attempt_count))
    ]

unfoldable pub handle_failure : CameraSession → Error → String → Reply
handle_failure s e reason = reply (
    if e.retryable && not s.stop_requested
    then if not (is_camera_transition_allowed s.state recovering)
      then apply_transition s recovering reason (some e)
      else retry_or_fault s e reason
    else apply_transition s faulted reason (some e))

-- `wait_for_retry` up to the return of `wait_for_scheduled`.
unfoldable pub finish_retry_wait :
    CameraSession → WaitTicket → WaiterOutcome → CameraSession × ReconnectWaitResult
finish_retry_wait s t outcome =
    let (r, waited) = finish_wait s.reconnect t outcome in (record s { reconnect = r }, waited)

-- `wait_for_retry` after a wait that was `ready`.
unfoldable pub resume_retry :
    CameraSession → CameraSession × ReconnectWaitResult × Option TransitionRecord
resume_retry s =
    if s.stop_requested || not (s.state is recovering)
    then (s, cancelled, none)
    else let (o, s') = apply_transition s connecting "reconnect-delay-elapsed" none in
      (s', (if has_value o.result then ready else cancelled), some o.transition)

unfoldable pub request_stop : CameraSession → Bool → Reply
request_stop s remain_enabled =
    if s.state is target
    then record { session = stopping; result = success tt; notified = none }
    else reply (apply_transition stopping target "stop-requested" none)
  where
    target : CameraState
    target = if remain_enabled then disconnected else disabled

    stopping : CameraSession
    stopping = record s { stop_requested = true; reconnect = cancel s.reconnect }

unfoldable pub reset_fault : CameraSession → String → Reply
reset_fault s reason =
    if not (s.state is faulted)
    then reply (apply_transition s s.state reason none)
    else reply (apply_transition (record s { stop_requested = false }) disconnected reason none)

-- The calls on a session, in any order, those of other threads included.
pub data SessionCall : Type 0 where
  transitions : CameraState → String → Option Error → SessionCall
  fails : Error → String → SessionCall
  stops_wait : WaitTicket → SessionCall
  finishes_wait : WaitTicket → WaiterOutcome → SessionCall
  resumes : SessionCall
  stops : Bool → SessionCall
  resets_fault : String → SessionCall

unfoldable pub step : CameraSession → SessionCall → CameraSession × Option TransitionRecord
step s (transitions target reason cause) =
    let q = transition_to s target reason cause in (q.session, q.notified)
step s (fails e reason) = let q = handle_failure s e reason in (q.session, q.notified)
step s (stops_wait t) = (record s { reconnect = external_stop t s.reconnect }, none)
step s (finishes_wait t outcome) = ((finish_retry_wait s t outcome).0, none)
step s resumes = let (s', _, n) = resume_retry s in (s', n)
step s (stops remain_enabled) = let q = request_stop s remain_enabled in (q.session, q.notified)
step s (resets_fault reason) = let q = reset_fault s reason in (q.session, q.notified)

abbrev pub emitted : Option TransitionRecord → List TransitionRecord → List TransitionRecord
emitted none rs = rs
emitted (some r) rs = r ∷ rs

-- A sequence of calls, with the records that they make under the lock, in that order.
unfoldable pub run : CameraSession → List SessionCall → CameraSession × List TransitionRecord
run s [] = (s, [])
run s (c ∷ cs) = let (s', n) = step s c in let (s'', rs) = run s' cs in (s'', emitted n rs)
