-- ===== src/Camera/Session/Failure.antt =====
-- What a failure does to an active camera, and what a requested stop keeps away from it.
use paper_breakage_analysis.Base.{
  ◌≡◌, List, [], ◌∷◌, String, Bool, true, false, not, ◌&&◌, ◌||◌, Option, none, some, success,
  Error, arith, if◌then◌else◌,
}
use paper_breakage_analysis.Camera.State.{
  CameraState, ◌is◌, disabled, disconnected, recovering, faulted, is_camera_transition_allowed,
}
use paper_breakage_analysis.Camera.Reconnect.{
  schedule_next, exhausted, is_none, cancel, reset, finish_wait, external_stop,
}
use paper_breakage_analysis.Camera.Session.{
  CameraSession, SessionCall, transitions, fails, stops_wait, finishes_wait, resumes, stops,
  resets_fault, settle, retry_or_fault, exhausted_error, apply_transition, handle_failure,
  finish_retry_wait, resume_retry, request_stop, reset_fault, step, run,
}
use paper_breakage_analysis.Camera.Session.Invariant.{
  IsOff, accepted_result, recoverable_may_fault, off_always_allowed, next_delay-cancel,
}

-- Whether a failure is answered by a retry: it is retryable, no stop was asked for, and a retry is
-- armed already or an attempt is left.
abbrev pub retries_after : CameraSession → Error → Bool
retries_after s e =
    e.retryable
    && not s.stop_requested
    && (not (is_none s.reconnect.next_delay) || not (exhausted s.reconnect))

-- Recovery and fault leave the retries as they are.
active_keeps_reconnect :
    (s : CameraSession) (target : CameraState) (reason : String) (cause : Option Error)
    → ((target is recovering) || (target is faulted)) ≡ true
    → (apply_transition s target reason cause).1.reconnect ≡ s.reconnect
unfolding apply_transition settle
active_keeps_reconnect s target reason cause h = ground arith

retry_or_fault_lem :
    (s : CameraSession) (e : Error) (reason : String)
    → is_camera_transition_allowed s.state recovering ≡ true
    → let again = not (is_none s.reconnect.next_delay) || not (exhausted s.reconnect) in
      let (o, s') = retry_or_fault s e reason in
      (o.result ≡ success tt)
      × (s'.state ≡ (if again then recovering else faulted))
      × (s'.reconnect ≡ (schedule_next s.reconnect).0)
unfolding retry_or_fault schedule_next exhausted
retry_or_fault_lem s e reason a =
    let r = (schedule_next s.reconnect).0 in
    let s' = record s { reconnect = r } in
    ground (
      arith,
      recoverable_may_fault s.state a,
      accepted_result s' recovering reason (some e) a,
      active_keeps_reconnect s' recovering reason (some e),
      accepted_result s' faulted reason (some (exhausted_error e r.attempt_count)),
      active_keeps_reconnect s' faulted reason (some (exhausted_error e r.attempt_count)),
    )

-- A failure of a camera that is connecting, connected, starting or streaming is always accepted:
-- it leads to recovery exactly if it may be retried, with the next retry armed, and to the fault
-- state otherwise.
pub handle_failure_decides :
    (s : CameraSession) (e : Error) (reason : String)
    → is_camera_transition_allowed s.state recovering ≡ true
    → let q = handle_failure s e reason in
      (q.result ≡ success tt)
      × (q.session.state ≡ (if retries_after s e then recovering else faulted))
      × (q.session.reconnect ≡ (
          if e.retryable && not s.stop_requested
          then (schedule_next s.reconnect).0
          else s.reconnect))
unfolding handle_failure
handle_failure_decides s e reason a = ground (
  arith,
  recoverable_may_fault s.state a,
  retry_or_fault_lem s e reason a,
  accepted_result s faulted reason (some e),
  active_keeps_reconnect s faulted reason (some e),
)

-- Calls other than an explicit transition.
abbrev pub is_transition : SessionCall → Bool
is_transition (transitions _ _ _) = true
is_transition _ = false

abbrev pub NoTransition : List SessionCall → Type 0
NoTransition [] = Unit {0}
NoTransition (c ∷ cs) = (is_transition c ≡ false) × NoTransition cs

record IsStopped (s : CameraSession) : Type 0 where
  off : IsOff s.state
  unarmed : s.reconnect.next_delay ≡ none

-- From an off state no recovery, fault or connection is reached but by an explicit transition.
off_refuses :
    (c : CameraState)
    → IsOff c
    → (is_camera_transition_allowed c recovering ≡ false)
      × (is_camera_transition_allowed c faulted ≡ false)
      × (is_camera_transition_allowed c c ≡ false)
unfolding is_camera_transition_allowed
off_refuses c h = ground arith

refused-IsStopped :
    (s : CameraSession) (target : CameraState) (reason : String) (cause : Option Error)
    → is_camera_transition_allowed s.state target ≡ false
    → IsStopped s
    → IsStopped (apply_transition s target reason cause).1
unfolding apply_transition
refused-IsStopped s target reason cause a h = rw a (ground arith)

switched_off-IsStopped :
    (s : CameraSession) (target : CameraState) (reason : String) (cause : Option Error)
    → IsOff target
    → is_camera_transition_allowed s.state target ≡ true
    → IsStopped (apply_transition s target reason cause).1
unfolding apply_transition settle cancel reset
switched_off-IsStopped s target reason cause h a = rw a (ground arith)

handle_failure-IsStopped :
    (s : CameraSession) (e : Error) (reason : String)
    → IsStopped s
    → IsStopped (handle_failure s e reason).session
unfolding handle_failure
handle_failure-IsStopped s e reason h = ground (
  arith,
  off_refuses s.state h.off,
  refused-IsStopped s recovering reason (some e),
  refused-IsStopped s faulted reason (some e),
)

request_stop-IsStopped :
    (s : CameraSession) (remain_enabled : Bool) → IsStopped (request_stop s remain_enabled).session
unfolding request_stop
request_stop-IsStopped s remain_enabled =
    let target = if remain_enabled then disconnected else disabled in
    let stopping = record s { stop_requested = true; reconnect = cancel s.reconnect } in
    ground (
      arith,
      next_delay-cancel s.reconnect,
      off_always_allowed s.state remain_enabled,
      switched_off-IsStopped stopping target "stop-requested" none,
    )

reset_fault-IsStopped :
    (s : CameraSession) (reason : String) → IsStopped s → IsStopped (reset_fault s reason).session
unfolding reset_fault
reset_fault-IsStopped s reason h =
    ground (arith, off_refuses s.state h.off, refused-IsStopped s s.state reason none)

step-IsStopped :
    (s : CameraSession) (c : SessionCall)
    → is_transition c ≡ false
    → IsStopped s
    → IsStopped (step s c).0
unfolding step resume_retry finish_retry_wait finish_wait external_stop
step-IsStopped s (transitions target reason cause) p h = cc
step-IsStopped s (fails e reason) p h = handle_failure-IsStopped s e reason h
step-IsStopped s (stops_wait t) p h = ground arith
step-IsStopped s (finishes_wait t outcome) p h = ground arith
step-IsStopped s resumes p h = ground arith
step-IsStopped s (stops remain_enabled) p h = request_stop-IsStopped s remain_enabled
step-IsStopped s (resets_fault reason) p h = reset_fault-IsStopped s reason h

run-IsStopped :
    (s : CameraSession) (cs : List SessionCall)
    → NoTransition cs
    → IsStopped s
    → IsStopped (run s cs).0
unfolding run
run-IsStopped s [] p h = h
run-IsStopped s (c ∷ cs) p h = run-IsStopped (step s c).0 cs p.1 (step-IsStopped s c p.0 h)

-- A requested stop switches the camera off in any state, and whatever failures, ends of waits,
-- retries, stops and fault resets follow, it stays off with no retry armed, until an explicit
-- transition.
pub request_stop_lasts :
    (s : CameraSession) (remain_enabled : Bool) (cs : List SessionCall)
    → NoTransition cs
    → let s' = (run (request_stop s remain_enabled).session cs).0 in
      IsOff s'.state × (s'.reconnect.next_delay ≡ none)
request_stop_lasts s remain_enabled cs p =
    let h = run-IsStopped _ cs p (request_stop-IsStopped s remain_enabled) in (h.off, h.unarmed)
