-- ===== src/Event/CandidateExamples.antt =====
-- The theorems on the plan, the ids and the candidate events at concrete inputs.
use paper_breakage_analysis.Base.{
  ◌++◌, ◌+◌, ℕ, ◌*◌, ◌^◌, ◌-◌, ltb, ◌≤◌, ◌<◌, ◌≡◌, refl, List, [], ◌∷◌, true, false, none, some,
  success, arith, if◌then◌else◌, demand, refuse_if, u64_mod,
}
use paper_breakage_analysis.Event.Examples.{numbers, empty_ring}
use paper_breakage_analysis.Event.Ring.Plan.{
  PlanRequest, Plan, duration, plan_memory_ring, plan_sizes, within_limits, base_frames,
  frame_count_for_duration, checked_add, checked_multiply, pipeline_total, lease_total, pool_total,
}
use paper_breakage_analysis.Event.Ring.Plan.Fits.{IsExact, plan-IsExact_and_fits}
use paper_breakage_analysis.Event.Uuid.{IdInput, new_generator}
use paper_breakage_analysis.Event.Uuid.Distinct.{event_ids, AllDistinct, event_ids-AllDistinct}
use paper_breakage_analysis.Event.Candidate
use paper_breakage_analysis.Event.Candidate.{
  CandidateEventState, idle, candidate, timeout, TriggerResult, EventSnapshot, ActiveEvent,
  CameraTracker, ManagerConfig, TriggerSource,
}
use paper_breakage_analysis.Event.Candidate.Observe.{observe_recovery}
use paper_breakage_analysis.Event.Candidate.Observe.Recovery.{
  observe_all, IsQuiet, HasCooled, rearm_needs_recovery,
}
use paper_breakage_analysis.Event.Candidate.Manager.{Tally}
use paper_breakage_analysis.Event.Candidate.Manager.Calls.{Manager}
use paper_breakage_analysis.Event.Candidate.Phase.Ledger.{IsConsistent}
use paper_breakage_analysis.Event.Candidate.Phase.Run
use paper_breakage_analysis.Event.Candidate.Phase.Run.{
  ManagerCall, processes, signals, confirms, advances, stops, applies_seeds, run_stays-IsConsistent,
}

abbrev request : PlanRequest numbers
request = record {
  camera_id = "CAM01";
  capacity_mode = duration;
  configured_frame_count = 0;
  configured_duration_seconds = 2;
  configured_frame_rate = 10;
  safety_margin_frames = 1;
  frame_buffer_capacity_bytes = 100;
  acquisition_queue_capacity = 4;
  algorithm_queue_capacity = 4;
  preview_slot_count = 2;
  nvme_queue_frames = 8;
  post_event_seconds = 1;
  maximum_concurrent_events = 2;
  configured_frame_pool_capacity = 101;
  memory_budget_bytes = 10100;
}

abbrev plan : Plan numbers
plan = record {
  camera_id = "CAM01";
  ring_capacity_frames = 21;
  post_event_frames = 10;
  pipeline_frames = 18;
  event_lease_budget_frames = 62;
  required_frame_pool_capacity = 101;
  required_memory_bytes = 10100;
  planned_history_seconds = 2;
}

request_is_planned : plan_memory_ring request ≡ success plan
unfolding plan_memory_ring plan_sizes within_limits base_frames frame_count_for_duration checked_add
    checked_multiply pipeline_total lease_total pool_total demand refuse_if
request_is_planned = refl

product_is_size :
    (x y n : ℕ) → (if ltb (x * y) 1000000 then some (x * y) else none) ≡ some n → n < u64_mod
product_is_size x y n e = ground (arith, e)

plan-IsExact_and_fits_example : IsExact request plan × (101 ≤ 101) × (10100 ≤ 10100)
plan-IsExact_and_fits_example =
    plan-IsExact_and_fits request product_is_size
      (record { count = omega arith; acquisition = omega arith }) request_is_planned

-- Two ids in one millisecond, and one after the clock went back.
abbrev id_inputs : List IdInput
id_inputs =
    record { wall_clock_ms = some 1000; first_draw = some 7; second_draw = some 9 }
    ∷ record { wall_clock_ms = some 1000; first_draw = some 7; second_draw = some 9 }
    ∷ record { wall_clock_ms = some 900; first_draw = none; second_draw = none }
    ∷ []

early : (n now : ℕ) → n < 2 ^ 48 - 1 → some n ≡ some now → now < 2 ^ 48 - 1
early n now h e = ground (arith, e)

event_ids-AllDistinct_example : AllDistinct (event_ids new_generator id_inputs)
event_ids-AllDistinct_example = event_ids-AllDistinct id_inputs (omega arith) (
  λ now. early 1000 now (omega arith),
  (λ now. early 1000 now (omega arith), (λ now. early 900 now (omega arith), tt)),
)

abbrev config : ManagerConfig numbers
config = record {
  candidate_consecutive_frames = 2;
  candidate_confidence_threshold = 50;
  confirmation_confidence_threshold = 80;
  confirmation_duration = 100;
  processing_period = 50;
  external_confirmation = Candidate.not_used;
  candidate_timeout = 1000;
  pre_event_duration = 500;
  cooldown_duration = 200;
  rearm_duration = 100;
  notification_callback = none;
}

abbrev resting : CameraTracker numbers
resting = record {
  camera_id = "CAM01";
  memory_ring = empty_ring;
  state = idle;
  consecutive_triggered_frames = 0;
  consecutive_confirmation_frames = 0;
  confirmation_started_at = none;
  last_confirmation_qualified_at = none;
  external_signal_active = false;
  external_signal_time = none;
  external_signal_wall_time = none;
  cooldown_until = none;
  rearm_pending = false;
  recovery_started_at = none;
  last_recovery_normal_at = none;
  rearm_suppressed_results = 0;
  first_suspicious_trigger = none;
  last_result = none;
  event = none;
}

abbrev no_counts : Tally
no_counts = record {
  accepted_results = 0;
  duplicate_results = 0;
  rejected_results = 0;
  events_created = 0;
  confirmed_events = 0;
  rejected_events = 0;
  timed_out_events = 0;
  callback_failures = 0;
}

abbrev manager : Manager numbers
manager = record {
  config = config;
  cameras = resting ∷ [];
  id_generator = new_generator;
  tally = no_counts;
  stopped = false;
}

abbrev trigger : ℕ → ℕ → TriggerResult numbers
trigger number time = record {
  triggered = true;
  trigger_source = Candidate.background_change;
  camera_id = "CAM01";
  sequence_number = number;
  camera_frame_number = number;
  monotonic_time = time;
  wall_clock_time = time;
  evaluated_region = record { offset_x = 0; offset_y = 0; width = 8; height = 8 };
  mean_grayscale = 3;
  mean_grayscale_change = 2;
  paper_ratio = 1;
  reason = "change";
  confidence = 90;
}

abbrev calls : List (ManagerCall numbers)
calls =
    applies_seeds (
      record {
        camera_id = "CAM01";
        rearm_pending = false;
        cooldown_until = none;
        rearm_suppressed_results = 4;
      }
      ∷ [])
    ∷ processes (record { wall_clock_ms = some 1; first_draw = some 2; second_draw = some 3 })
        (trigger 1 100)
    ∷ processes (record { wall_clock_ms = some 1; first_draw = some 2; second_draw = some 3 })
        (trigger 2 150)
    ∷ signals "CAM01" true 170 170
    ∷ advances 5000 5000
    ∷ stops 6000 6000
    ∷ []

run_stays-IsConsistent_example : IsConsistent (Run.run manager calls)
run_stays-IsConsistent_example =
    run_stays-IsConsistent manager calls
      (unfold Run.AllFit in ((refl, tt), (tt, (tt, (tt, (tt, (tt, tt)))))))
      (record { sound = (refl, tt); accounted = refl })

abbrev open_snapshot : EventSnapshot numbers
open_snapshot = record {
  event_id = 69 ∷ [];
  camera_id = "CAM01";
  decision_state = candidate;
  version = 1;
  first_suspicious_trigger = trigger 1 100;
  candidate_trigger = trigger 2 150;
  candidate_deadline = 1150;
  decision = none;
  pre_buffer_protection_acquired = false;
  pre_buffer_complete = false;
  pre_buffer_frame_count = 0;
  pre_buffer_sequence_gaps = 0;
  pre_buffer_error_code = "EVENT_BUFFER_INCOMPLETE";
  post_collection_started = true;
}

abbrev watching : CameraTracker numbers
watching = record resting {
  state = candidate;
  event = some (record { snapshot = open_snapshot; pre_buffer_lease = none });
}

abbrev watching_event : ActiveEvent numbers
watching_event = record { snapshot = open_snapshot; pre_buffer_lease = none }

abbrev watching_manager : Manager numbers
watching_manager = record manager { cameras = watching ∷ [] }

-- The camera has been quiet for the rearm duration.
abbrev waiting : CameraTracker numbers
waiting = record resting { rearm_pending = true; cooldown_until = some 200 }

abbrev quiet : ℕ → ℕ → TriggerResult numbers
quiet number time = record (trigger number time) {
  triggered = false;
  trigger_source = Candidate.no_source;
}

abbrev quiet_before : List (TriggerResult numbers)
quiet_before = quiet 12 290 ∷ quiet 11 250 ∷ quiet 10 210 ∷ trigger 9 190 ∷ []

still_waiting : (observe_all config waiting quiet_before).rearm_pending ≡ true
unfolding observe_all observe_recovery
still_waiting = refl

quiet_rearms : (observe_all config waiting (quiet 13 310 ∷ quiet_before)).rearm_pending ≡ false
unfolding observe_all observe_recovery
quiet_rearms = refl

rearm_needs_recovery_example :
    HasCooled (observe_all config waiting quiet_before).cooldown_until 310
    × (from : ℕ) × (run : List (TriggerResult numbers)) × (before : List (TriggerResult numbers))
    × (quiet 13 310 ∷ quiet_before ≡ run ++ before)
    × IsQuiet config from 310 run
    × (from + config.rearm_duration ≤ 310)
rearm_needs_recovery_example =
    rearm_needs_recovery config waiting quiet_before (quiet 13 310) refl still_waiting quiet_rearms
