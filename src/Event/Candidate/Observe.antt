-- ===== src/Event/Candidate/Observe.antt =====
-- src/event/src/candidate_event.cpp: what `CandidateEventManager::Impl` notes of one result, the
-- confirmation and the recovery of a camera, and the results that it refuses.
pub mod Recovery
use paper_breakage_analysis.Base.{
  ℕ, ◌+◌, ◌-◌, ◌*◌, String, Bool, true, false, not, ◌&&◌, ◌||◌, Option, none, some, Error, warning,
  ltb, leb, ◌==◌, if◌then◌else◌, str_eq, u64_max,
}
use paper_breakage_analysis.Base.Floating.{Floating}
use paper_breakage_analysis.Event.Ring.{same_bool}
use paper_breakage_analysis.Event.Candidate.{
  TriggerResult, CameraTracker, ManagerConfig, DetectionRegion, no_source, manual_test,
  source_index, ExternalConfirmationPolicy, not_used, required_active, candidate_error,
}

-- Whether an optional time is there and in a relation to the present.
abbrev pub holds_at : Option ℕ → (ℕ → Bool) → Bool
holds_at none p = false
holds_at (some t) p = p t

abbrev pub same_region : DetectionRegion → DetectionRegion → Bool
same_region a b =
    a.offset_x == b.offset_x
    && a.offset_y == b.offset_y
    && a.width == b.width
    && a.height == b.height

abbrev pub is_used : ExternalConfirmationPolicy → Bool
is_used not_used = false
is_used required_active = true

-- Whether an interval has to start anew.
abbrev pub is_interrupted : Option ℕ → Option ℕ → ℕ → ℕ → Bool
is_interrupted started last now period =
    not (holds_at started (λ t. true)) || holds_at last (λ t. ltb (period * 2) (now - t))

module _ {F : Floating} where
  open F use {is_finite, is_negative, exceeds_one, same}

  unfoldable pub same_result : TriggerResult F → TriggerResult F → Bool
  same_result a b =
      same_bool a.triggered b.triggered
      && source_index a.trigger_source == source_index b.trigger_source
      && str_eq a.camera_id b.camera_id
      && a.sequence_number == b.sequence_number
      && a.camera_frame_number == b.camera_frame_number
      && a.monotonic_time == b.monotonic_time
      && a.wall_clock_time == b.wall_clock_time
      && same_region a.evaluated_region b.evaluated_region
      && same a.mean_grayscale b.mean_grayscale
      && same a.mean_grayscale_change b.mean_grayscale_change
      && same a.paper_ratio b.paper_ratio
      && str_eq a.reason b.reason

  abbrev pub is_manual : TriggerResult F → Bool
  is_manual r = source_index r.trigger_source == source_index manual_test

  unfoldable pub external_confirmation_satisfied : ManagerConfig F → CameraTracker F → Bool
  external_confirmation_satisfied g c =
      not (is_used g.external_confirmation) || c.external_signal_active

  unfoldable pub confirmation_fresh : ManagerConfig F → CameraTracker F → ℕ → Bool
  confirmation_fresh g c current =
      holds_at c.last_confirmation_qualified_at
        (λ t. not (ltb current t) && leb (current - t) (g.processing_period * 2))

  unfoldable pub confirmation_satisfied : ManagerConfig F → CameraTracker F → ℕ → Bool
  confirmation_satisfied g c current =
      holds_at c.confirmation_started_at
        (λ t. leb t current && leb g.confirmation_duration (current - t))
      && confirmation_fresh g c current
      && external_confirmation_satisfied g c

  abbrev pub reset_confirmation_interval : CameraTracker F → CameraTracker F
  reset_confirmation_interval c = record c {
    consecutive_confirmation_frames = 0;
    confirmation_started_at = none;
    last_confirmation_qualified_at = none;
  }

  abbrev pub reset_recovery_interval : CameraTracker F → CameraTracker F
  reset_recovery_interval c = record c {
    recovery_started_at = none;
    last_recovery_normal_at = none;
  }

  abbrev pub latch_rearm : CameraTracker F → CameraTracker F
  latch_rearm c = reset_recovery_interval (record c { rearm_pending = true })

  -- The camera has no observation under way.
  abbrev pub forget_observation : CameraTracker F → CameraTracker F
  forget_observation c =
      let r = reset_confirmation_interval c in
      record r { consecutive_triggered_frames = 0; first_suspicious_trigger = none }

  abbrev pub suppress : CameraTracker F → TriggerResult F → CameraTracker F
  suppress c r =
      if not (is_manual r) && ltb c.rearm_suppressed_results u64_max
      then record c { rearm_suppressed_results = c.rearm_suppressed_results + 1 }
      else c

  -- A normal result goes on with the recovery, or begins it.
  abbrev pub note_normal : ManagerConfig F → CameraTracker F → ℕ → CameraTracker F
  note_normal g c now = record c {
    recovery_started_at =
        if is_interrupted c.recovery_started_at c.last_recovery_normal_at now g.processing_period
        then some now
        else c.recovery_started_at;
    last_recovery_normal_at = some now;
    cooldown_until = if holds_at c.cooldown_until (λ t. leb t now) then none else c.cooldown_until;
  }

  abbrev pub is_recovered : ManagerConfig F → CameraTracker F → ℕ → Bool
  is_recovered g c now =
      not (holds_at c.cooldown_until (λ t. true))
      && holds_at c.recovery_started_at (λ t. leb t now && leb g.rearm_duration (now - t))

  unfoldable pub observe_recovery :
      ManagerConfig F → CameraTracker F → TriggerResult F → CameraTracker F
  observe_recovery g c r =
      if r.triggered
      then suppress (reset_recovery_interval c) r
      else let c' = note_normal g c r.monotonic_time in
        if is_recovered g c' r.monotonic_time
        then reset_recovery_interval (record c' { rearm_pending = false })
        else c'

  unfoldable pub observe_confirmation :
      ManagerConfig F → CameraTracker F → TriggerResult F → Bool → CameraTracker F
  observe_confirmation g c r eligible =
      if not eligible
      then reset_confirmation_interval c
      else if is_interrupted c.confirmation_started_at c.last_confirmation_qualified_at
          r.monotonic_time g.processing_period
      then record c {
        confirmation_started_at = some r.monotonic_time;
        consecutive_confirmation_frames = 1;
        last_confirmation_qualified_at = some r.monotonic_time;
      }
      else record c {
        consecutive_confirmation_frames =
            if ltb c.consecutive_confirmation_frames u64_max
            then c.consecutive_confirmation_frames + 1
            else c.consecutive_confirmation_frames;
        last_confirmation_qualified_at = some r.monotonic_time;
      }

  abbrev order_violation : CameraTracker F → String → Error
  order_violation c reason =
      candidate_error "PIPELINE_FRAME_ORDER_VIOLATION" warning "event.candidate.process" c.camera_id
        reason

  -- A result against the last one of its camera.
  abbrev pub validate_order :
      CameraTracker F → TriggerResult F → Option (TriggerResult F) → Option Error
  validate_order c r none = none
  validate_order c r (some last) =
      if ltb r.sequence_number last.sequence_number
        || (ltb last.sequence_number r.sequence_number && leb r.monotonic_time last.monotonic_time)
      then some (order_violation c "result-order-regression")
      else if r.sequence_number == last.sequence_number && not (same_result r last)
      then some (order_violation c "duplicate-result-conflict")
      else none

  -- The error of a result that is refused.
  unfoldable pub validate_result : CameraTracker F → TriggerResult F → Option Error
  validate_result c r =
      if same_bool r.triggered (source_index r.trigger_source == source_index no_source)
      then some (order_violation c "trigger-source-inconsistent")
      else if not (is_finite r.mean_grayscale)
          || not (is_finite r.mean_grayscale_change)
          || not (is_finite r.paper_ratio)
          || not (is_finite r.confidence)
          || is_negative r.confidence
          || exceeds_one r.confidence
      then some (order_violation c "non-finite-metric")
      else validate_order c r c.last_result
