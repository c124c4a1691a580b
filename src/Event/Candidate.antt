-- ===== src/Event/Candidate.antt =====
-- src/event/include/paperbreak/event/candidate_event.hpp and src/event/src/candidate_event.cpp: the
-- state machine of the candidate events, one event per camera at most. Monotonic times are ticks
-- from the clock's least value on, durations are numbers of ticks, and wall-clock times, which no
-- branch reads, are numbers. `ActiveEvent` and `CameraTracker` are those of
-- `CandidateEventManager::Impl`. A tracker holds the state of its memory ring.
pub mod Observe
pub mod Manager
pub mod Phase
use paper_breakage_analysis.Base.{
  ℕ, ◌+◌, ◌-◌, List, [], ◌∷◌, String, Bool, true, false, not, ◌&&◌, ◌||◌, Option, none, some,
  Result, success, failure, Error, Severity, error, make_error, detail, text, ltb, leb, ◌==◌,
  if◌then◌else◌, is_empty, u64_max,
}
use paper_breakage_analysis.Base.Floating.{Floating}
use paper_breakage_analysis.Event.Ring.{MemoryRing}
use paper_breakage_analysis.Event.Ring.Lease.{Lease}

pub data CandidateEventState : Type 0 where
  idle suspicious candidate confirmed rejected timeout : CandidateEventState

abbrev pub state_index : CandidateEventState → ℕ
state_index idle = 0
state_index suspicious = 1
state_index candidate = 2
state_index confirmed = 3
state_index rejected = 4
state_index timeout = 5

infix 50 ◌is◌
abbrev pub ◌is◌ : CandidateEventState → CandidateEventState → Bool
s is t = state_index s == state_index t

-- The states that a decision ends in.
abbrev pub is_decided : CandidateEventState → Bool
is_decided s = s is confirmed || s is rejected || s is timeout

pub data TriggerSource : Type 0 where
  no_source manual_test fixed_period mean_grayscale_change roi_paper_ratio background_change :
      TriggerSource

abbrev pub source_index : TriggerSource → ℕ
source_index no_source = 0
source_index manual_test = 1
source_index fixed_period = 2
source_index mean_grayscale_change = 3
source_index roi_paper_ratio = 4
source_index background_change = 5

pub record DetectionRegion : Type 0 where
  pub offset_x : ℕ
  pub offset_y : ℕ
  pub width : ℕ
  pub height : ℕ

pub data ExternalConfirmationPolicy : Type 0 where
  not_used required_active : ExternalConfirmationPolicy

pub data NotificationKind : Type 0 where
  candidate_created decision_changed : NotificationKind

pub record CandidateDecision : Type 0 where
  pub state : CandidateEventState
  pub monotonic_time : ℕ
  pub wall_clock_time : ℕ

module _ (F : Floating) where
  open F use {Real}

  -- What the state machine reads of a detector's output.
  pub record TriggerResult : Type 0 where
    pub triggered : Bool
    pub trigger_source : TriggerSource
    pub camera_id : String
    pub sequence_number : ℕ
    pub camera_frame_number : ℕ
    pub monotonic_time : ℕ
    pub wall_clock_time : ℕ
    pub evaluated_region : DetectionRegion
    pub mean_grayscale : Real
    pub mean_grayscale_change : Real
    pub paper_ratio : Real
    pub reason : String
    pub confidence : Real

  pub record EventSnapshot : Type 0 where
    pub event_id : List ℕ
    pub camera_id : String
    pub decision_state : CandidateEventState
    pub version : ℕ
    pub first_suspicious_trigger : TriggerResult
    pub candidate_trigger : TriggerResult
    pub candidate_deadline : ℕ
    pub decision : Option CandidateDecision
    pub pre_buffer_protection_acquired : Bool
    pub pre_buffer_complete : Bool
    pub pre_buffer_frame_count : ℕ
    pub pre_buffer_sequence_gaps : ℕ
    pub pre_buffer_error_code : String
    pub post_collection_started : Bool

  pub record ActiveEvent : Type 0 where
    pub snapshot : EventSnapshot
    pub pre_buffer_lease : Option Lease

  pub record CameraTracker : Type 0 where
    pub camera_id : String
    pub memory_ring : MemoryRing F
    pub state : CandidateEventState
    pub consecutive_triggered_frames : ℕ
    pub consecutive_confirmation_frames : ℕ
    pub confirmation_started_at : Option ℕ
    pub last_confirmation_qualified_at : Option ℕ
    pub external_signal_active : Bool
    pub external_signal_time : Option ℕ
    pub external_signal_wall_time : Option ℕ
    pub cooldown_until : Option ℕ
    pub rearm_pending : Bool
    pub recovery_started_at : Option ℕ
    pub last_recovery_normal_at : Option ℕ
    pub rearm_suppressed_results : ℕ
    pub first_suspicious_trigger : Option TriggerResult
    pub last_result : Option TriggerResult
    pub event : Option ActiveEvent

  pub record Notification : Type 0 where
    pub kind : NotificationKind
    pub event : EventSnapshot

  -- The configuration less the bindings of the cameras. The callback says whether it threw.
  pub record ManagerConfig : Type 0 where
    pub candidate_consecutive_frames : ℕ
    pub candidate_confidence_threshold : Real
    pub confirmation_confidence_threshold : Real
    pub confirmation_duration : ℕ
    pub processing_period : ℕ
    pub external_confirmation : ExternalConfirmationPolicy
    pub candidate_timeout : ℕ
    pub pre_event_duration : ℕ
    pub cooldown_duration : ℕ
    pub rearm_duration : ℕ
    pub notification_callback : Option (Notification → Bool)

abbrev pub candidate_error : String → Severity → String → String → String → Error
candidate_error code severity operation source reason =
    let e = make_error code severity "event" operation false in
    record e {
      source_id = if is_empty source then none else some source;
      details = detail "reason" (text reason) ∷ [];
    }

abbrev pub subtract_saturating : ℕ → ℕ → ℕ
subtract_saturating time duration = if ltb time duration then 0 else time - duration

abbrev pub add_saturating : ℕ → ℕ → ℕ
add_saturating time duration = if ltb (u64_max - duration) time then u64_max else time + duration
