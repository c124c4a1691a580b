-- ===== src/Event/Candidate/Manager.antt =====
-- src/event/src/candidate_event.cpp: the decisions of `CandidateEventManager::Impl` and `process`
-- on one camera. `Work` is what they change: the tracker, the counts of the manager, and the
-- notifications that go out when the lock is released.
pub mod Calls
pub mod Seeds
pub mod Decision
use paper_breakage_analysis.Base.{
  ℕ, ◌+◌, List, [], ◌∷◌, ◌++◌, String, Bool, true, false, not, ◌&&◌, ◌||◌, Option, none, some,
  Result, success, failure, Error, length, ltb, leb, if◌then◌else◌, inc_u64, u64_max,
}
use paper_breakage_analysis.Base.Floating.{Floating}
use paper_breakage_analysis.Event.Ring.{MemoryRing}
use paper_breakage_analysis.Event.Ring.Lease.{Lease, release, lease_window}
use paper_breakage_analysis.Event.Uuid.{UuidV7Generator, IdInput, next}
use paper_breakage_analysis.Event.Candidate.{
  CandidateEventState, idle, suspicious, candidate, confirmed, rejected, timeout, ◌is◌, is_decided,
  TriggerResult, EventSnapshot, ActiveEvent, CameraTracker, Notification, NotificationKind,
  candidate_created, decision_changed, ManagerConfig, subtract_saturating, add_saturating,
}
use paper_breakage_analysis.Event.Candidate.Observe.{
  holds_at, is_used, is_manual, confirmation_satisfied, reset_confirmation_interval,
  reset_recovery_interval, latch_rearm, forget_observation, observe_recovery, observe_confirmation,
}

pub record Tally : Type 0 where
  pub accepted_results : ℕ
  pub duplicate_results : ℕ
  pub rejected_results : ℕ
  pub events_created : ℕ
  pub confirmed_events : ℕ
  pub rejected_events : ℕ
  pub timed_out_events : ℕ
  pub callback_failures : ℕ

module _ (F : Floating) where
  pub record Work : Type 0 where
    pub camera : CameraTracker F
    pub tally : Tally
    pub notices : List (Notification F)

abbrev pub count_decision : CandidateEventState → Tally → Tally
count_decision confirmed t = record t { confirmed_events = inc_u64 t.confirmed_events }
count_decision rejected t = record t { rejected_events = inc_u64 t.rejected_events }
count_decision timeout t = record t { timed_out_events = inc_u64 t.timed_out_events }
count_decision idle t = t
count_decision suspicious t = t
count_decision candidate t = t

abbrev pub is_later : Option ℕ → ℕ → Bool
is_later o t = holds_at o (λ x. ltb t x)

abbrev pub value_or : Option ℕ → ℕ → ℕ
value_or none d = d
value_or (some x) d = x

module _ {F : Floating} where
  open F use {at_least}

  -- The lease of an event that is let go.
  abbrev pub free_lease : MemoryRing F → Option Lease → MemoryRing F
  free_lease r none = r
  free_lease r (some l) = record r { counters = (release r.counters l).0 }

  abbrev pub free_event : MemoryRing F → Option (ActiveEvent F) → MemoryRing F
  free_event r none = r
  free_event r (some e) = free_lease r e.pre_buffer_lease

  abbrev pub drop_event : CameraTracker F → CameraTracker F
  drop_event c = record c { memory_ring = free_event c.memory_ring c.event; event = none }

  abbrev pub decided_snapshot : EventSnapshot F → CandidateEventState → ℕ → ℕ → EventSnapshot F
  decided_snapshot s state t wall = record s {
    decision_state = state;
    version = inc_u64 s.version;
    decision = some (record { state = state; monotonic_time = t; wall_clock_time = wall });
  }

  -- `transition_decision` on the event of the camera, which its callers have made sure of.
  unfoldable pub decide_event :
      ManagerConfig F → CandidateEventState → ℕ → ℕ → Option (ActiveEvent F) → Work F → Work F
  decide_event g state t wall none w = w
  decide_event g state t wall (some e) w =
      let s = decided_snapshot e.snapshot state t wall in
      record {
        camera = latch_rearm (record (w.camera) {
          state = state;
          event = some (record e { snapshot = s });
          cooldown_until = some (add_saturating t g.cooldown_duration);
        });
        tally = count_decision state w.tally;
        notices = w.notices ++ (record { kind = decision_changed; event = s } ∷ []);
      }

  abbrev pub transition_decision : ManagerConfig F → CandidateEventState → ℕ → ℕ → Work F → Work F
  transition_decision g state t wall w = decide_event g state t wall (w.camera).event w

  unfoldable pub confirm_from_result : ManagerConfig F → TriggerResult F → Work F → Work F
  confirm_from_result g r w =
      let c = w.camera in
      if is_used g.external_confirmation && is_later c.external_signal_time r.monotonic_time
      then transition_decision g confirmed (value_or c.external_signal_time r.monotonic_time)
          (value_or c.external_signal_wall_time r.wall_clock_time) w
      else transition_decision g confirmed r.monotonic_time r.wall_clock_time w

  abbrev pub new_snapshot :
      ManagerConfig F
      → CameraTracker F
      → TriggerResult F
      → TriggerResult F
      → List ℕ
      → EventSnapshot F
  new_snapshot g c first r id = record {
    event_id = id;
    camera_id = c.camera_id;
    decision_state = candidate;
    version = 1;
    first_suspicious_trigger = first;
    candidate_trigger = r;
    candidate_deadline = add_saturating r.monotonic_time g.candidate_timeout;
    decision = none;
    pre_buffer_protection_acquired = false;
    pre_buffer_complete = false;
    pre_buffer_frame_count = 0;
    pre_buffer_sequence_gaps = 0;
    pre_buffer_error_code = "";
    post_collection_started = true;
  }

  -- The event with what became of its lease on the frames before it.
  abbrev pub protect : EventSnapshot F → Result Lease → ActiveEvent F
  protect s (failure e) = record {
    snapshot = record s { pre_buffer_error_code = e.business_code };
    pre_buffer_lease = none;
  }
  protect s (success l) = record {
    snapshot = record s {
      pre_buffer_protection_acquired = true;
      pre_buffer_complete = l.info.complete;
      pre_buffer_frame_count = length l.frames;
      pre_buffer_sequence_gaps = l.info.sequence_gaps;
      pre_buffer_error_code = if l.info.complete then "" else "EVENT_BUFFER_INCOMPLETE";
    };
    pre_buffer_lease = some l;
  }

  abbrev pub first_trigger : Option (TriggerResult F) → TriggerResult F → TriggerResult F
  first_trigger none r = r
  first_trigger (some first) r = first

  -- `create_candidate` once there is an id.
  unfoldable pub add_candidate : ManagerConfig F → TriggerResult F → List ℕ → Work F → Work F
  add_candidate g r id w =
      let c = w.camera in
      let (ring, window) =
        lease_window c.memory_ring (subtract_saturating r.monotonic_time g.pre_event_duration)
          r.monotonic_time in
      let e = protect (new_snapshot g c (first_trigger c.first_suspicious_trigger r) r id) window in
      record {
        camera = record c { memory_ring = ring; event = some e; state = candidate };
        tally = record (w.tally) { events_created = inc_u64 (w.tally).events_created };
        notices = w.notices ++ (record { kind = candidate_created; event = e.snapshot } ∷ []);
      }

  -- A candidate, confirmed at once where its interval is long enough.
  abbrev pub open_candidate :
      ManagerConfig F → TriggerResult F → Result (List ℕ) → Work F → Work F × Option Error
  open_candidate g r (failure e) w =
      let t = w.tally in
      (record w { tally = record t { rejected_results = inc_u64 t.rejected_results } }, some e)
  open_candidate g r (success id) w =
      let w' = add_candidate g r id w in
      (
        if confirmation_satisfied g w'.camera r.monotonic_time
            then confirm_from_result g r w'
            else w',
        none,
      )

  abbrev pub is_candidate_eligible : ManagerConfig F → TriggerResult F → Bool
  is_candidate_eligible g r =
      r.triggered && (is_manual r || at_least r.confidence g.candidate_confidence_threshold)

  abbrev pub is_confirmation_eligible : ManagerConfig F → TriggerResult F → Bool
  is_confirmation_eligible g r =
      r.triggered && at_least r.confidence g.confirmation_confidence_threshold

  abbrev pub bump : CameraTracker F → CameraTracker F
  bump c =
      if ltb c.consecutive_triggered_frames u64_max
      then record c { consecutive_triggered_frames = c.consecutive_triggered_frames + 1 }
      else c

  -- The branches of `process`: a camera that waits for its recovery,
  abbrev pub on_rearming : ManagerConfig F → TriggerResult F → CameraTracker F → CameraTracker F
  on_rearming g r c = observe_recovery g (forget_observation (record c { state = idle })) r

  -- one with a candidate,
  unfoldable pub on_candidate : ManagerConfig F → TriggerResult F → Work F → Work F
  on_candidate g r w =
      let c = observe_confirmation g (bump w.camera) r (is_confirmation_eligible g r) in
      if not (is_candidate_eligible g r)
      then record w {
        camera =
            reset_confirmation_interval (record (w.camera) { consecutive_triggered_frames = 0 });
      }
      else if confirmation_satisfied g c r.monotonic_time
      then confirm_from_result g r (record w { camera = c })
      else record w { camera = c }

  -- and one that a trigger makes, or keeps, suspicious.
  abbrev pub begin_suspicion : ManagerConfig F → TriggerResult F → CameraTracker F → CameraTracker F
  begin_suspicion g r c =
      let c' =
        observe_confirmation g (record c { state = suspicious; consecutive_triggered_frames = 1 }) r
          (is_confirmation_eligible g r) in
      record c' { first_suspicious_trigger = some r }

  unfoldable pub suspect : ManagerConfig F → TriggerResult F → CameraTracker F → CameraTracker F
  suspect g r c =
      if c.state is idle
      then begin_suspicion g r c
      else if ltb c.consecutive_triggered_frames u64_max
      then observe_confirmation g (bump c) r (is_confirmation_eligible g r)
      else c

  abbrev pub try_candidate :
      ManagerConfig F
      → UuidV7Generator × Result (List ℕ)
      → TriggerResult F
      → Work F
      → UuidV7Generator × Work F × Option Error
  try_candidate g (ids, id) r w = let (w', e) = open_candidate g r id w in (ids, w', e)

  unfoldable pub on_trigger :
      ManagerConfig F
      → UuidV7Generator
      → IdInput
      → TriggerResult F
      → Work F
      → UuidV7Generator × Work F × Option Error
  on_trigger g ids i r w =
      let c = suspect g r w.camera in
      if is_manual r || leb g.candidate_consecutive_frames c.consecutive_triggered_frames
      then try_candidate g (next ids i) r (record w { camera = c })
      else (ids, record w { camera = c }, none)

  abbrev pub is_due : CameraTracker F → ℕ → Bool
  is_due c t = elim c.event [
    | none ↦ false
    | some e ↦ c.state is candidate && leb e.snapshot.candidate_deadline t
  ]

  -- The stages of `process` before the branches: a candidate whose time is up,
  unfoldable pub expire : ManagerConfig F → ℕ → ℕ → Work F → Work F
  expire g t wall w = if is_due w.camera t then transition_decision g timeout t wall w else w

  -- an event that is decided,
  unfoldable pub retire : CameraTracker F → CameraTracker F
  retire c =
      if is_decided c.state then forget_observation (drop_event (record c { state = idle })) else c

  -- and a manual trigger.
  unfoldable pub rearm_manually : TriggerResult F → CameraTracker F → CameraTracker F
  rearm_manually r c =
      if c.rearm_pending && is_manual r && r.triggered
      then reset_recovery_interval (record c { rearm_pending = false; cooldown_until = none })
      else c

  unfoldable pub prepare : ManagerConfig F → TriggerResult F → Work F → Work F
  prepare g r w =
      let w' =
        expire g r.monotonic_time r.wall_clock_time
          (record w { camera = record (w.camera) { last_result = some r } }) in
      record w' { camera = rearm_manually r (retire w'.camera) }

  unfoldable pub branch :
      ManagerConfig F
      → UuidV7Generator
      → IdInput
      → TriggerResult F
      → Work F
      → UuidV7Generator × Work F × Option Error
  branch g ids i r w =
      if (w.camera).rearm_pending
      then (ids, record w { camera = on_rearming g r w.camera }, none)
      else if (w.camera).state is candidate
      then (ids, on_candidate g r w, none)
      else if not (is_candidate_eligible g r)
      then (
        ids,
        record w { camera = forget_observation (record (w.camera) { state = idle }) },
        none,
      )
      else on_trigger g ids i r w

  -- `process` of a result that is neither refused nor a duplicate.
  unfoldable pub accept :
      ManagerConfig F
      → UuidV7Generator
      → IdInput
      → TriggerResult F
      → Work F
      → UuidV7Generator × Work F × Option Error
  accept g ids i r w = branch g ids i r (prepare g r w)
