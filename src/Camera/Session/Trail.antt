-- ===== src/Camera/Session/Trail.antt =====
-- The records that the calls on a session of src/camera/src/state.cpp make under its lock.
use paper_breakage_analysis.Base.{
  ◌++◌, ℕ, ◌≡◌, refl, List, [], ◌∷◌, String, Bool, true, false, Option, none, some, Error, arith,
  if◌then◌else◌, inc_u64,
}
use paper_breakage_analysis.Camera.State.{
  CameraState, disabled, disconnected, connecting, recovering, faulted,
  is_camera_transition_allowed,
}
use paper_breakage_analysis.Camera.Reconnect.{schedule_next, cancel}
use paper_breakage_analysis.Camera.Session.{
  CameraSession, TransitionRecord, SessionCall, transitions, fails, stops_wait, finishes_wait,
  resumes, stops, resets_fault, settle, retry_or_fault, exhausted_error, keep_or, apply_transition,
  transition_to, handle_failure, finish_retry_wait, resume_retry, request_stop, reset_fault, step,
  emitted,
}

-- Records that lead from the state `s`, with `n` transitions counted, to `t` and `m`: each has the
-- next number and the state at hand, and is accepted exactly if its transition is allowed.
abbrev pub Trail : CameraState → ℕ → List TransitionRecord → CameraState → ℕ → Type 0
Trail s n [] t m = (s ≡ t) × (n ≡ m)
Trail s n (r ∷ rs) t m =
    (r.from ≡ s)
    × (r.sequence ≡ inc_u64 n)
    × (r.accepted ≡ is_camera_transition_allowed s r.to)
    × Trail (if r.accepted then r.to else s) (inc_u64 n) rs t m

-- One record at most, as a trail.
abbrev Leads : CameraSession → CameraSession × Option TransitionRecord → Type 0
Leads s (s', n) = Trail s.state s.transition_sequence (emitted n []) s'.state s'.transition_sequence

settle_keeps :
    (previous target : CameraState) (s : CameraSession)
    → ((settle previous target s).state ≡ s.state)
      × ((settle previous target s).transition_sequence ≡ s.transition_sequence)
unfolding settle
settle_keeps previous target s = ground arith

apply_transition-Leads :
    (s : CameraSession) (target : CameraState) (reason : String) (cause : Option Error)
    → let (o, s') = apply_transition s target reason cause in Leads s (s', some o.transition)
unfolding apply_transition
apply_transition-Leads s target reason cause = ground (
  arith,
  settle_keeps s.state target (record s {
    transition_sequence = inc_u64 s.transition_sequence;
    state = target;
    last_error = keep_or cause s.last_error;
  }),
)

handle_failure-Leads :
    (s : CameraSession) (e : Error) (reason : String)
    → let q = handle_failure s e reason in Leads s (q.session, q.notified)
unfolding handle_failure retry_or_fault
handle_failure-Leads s e reason = ground (
  arith,
  apply_transition-Leads s recovering reason (some e),
  apply_transition-Leads s faulted reason (some e),
  apply_transition-Leads (record s { reconnect = (schedule_next s.reconnect).0 }) recovering reason
      (some e),
  apply_transition-Leads (record s { reconnect = (schedule_next s.reconnect).0 }) faulted reason
      (some (exhausted_error e (schedule_next s.reconnect).0.attempt_count)),
)

resume_retry-Leads : (s : CameraSession) → let (s', _, n) = resume_retry s in Leads s (s', n)
unfolding resume_retry
resume_retry-Leads s =
    ground (arith, apply_transition-Leads s connecting "reconnect-delay-elapsed" none)

request_stop-Leads :
    (s : CameraSession) (remain_enabled : Bool)
    → let q = request_stop s remain_enabled in Leads s (q.session, q.notified)
unfolding request_stop
request_stop-Leads s remain_enabled =
    let stopping = record s { stop_requested = true; reconnect = cancel s.reconnect } in
    ground (
      arith,
      apply_transition-Leads stopping (if remain_enabled then disconnected else disabled)
          "stop-requested" none,
    )

reset_fault-Leads :
    (s : CameraSession) (reason : String)
    → let q = reset_fault s reason in Leads s (q.session, q.notified)
unfolding reset_fault
reset_fault-Leads s reason = ground (
  arith,
  apply_transition-Leads s s.state reason none,
  apply_transition-Leads (record s { stop_requested = false }) disconnected reason none,
)

pub step-Leads : (s : CameraSession) (c : SessionCall) → Leads s (step s c)
unfolding step
step-Leads s (transitions target reason cause) =
    unfold transition_to in apply_transition-Leads s target reason cause
step-Leads s (fails e reason) = handle_failure-Leads s e reason
step-Leads s (stops_wait t) = (refl, refl)
step-Leads s (finishes_wait t outcome) = unfold finish_retry_wait in (refl, refl)
step-Leads s resumes = resume_retry-Leads s
step-Leads s (stops remain_enabled) = request_stop-Leads s remain_enabled
step-Leads s (resets_fault reason) = reset_fault-Leads s reason

pub Trail-append :
    (rs qs : List TransitionRecord) (s t u : CameraState) (k m n : ℕ)
    → Trail s k rs t m
    → Trail t m qs u n
    → Trail s k (rs ++ qs) u n
Trail-append [] qs s t u k m n h g = rw (h.0, h.1) g
Trail-append (r ∷ rs) qs s t u k m n h g = (h.0, h.1, h.2, Trail-append rs qs _ t u _ m n h.3 g)
