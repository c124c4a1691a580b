-- ===== src/Event/Candidate/Manager/Calls.antt =====
-- src/event/src/candidate_event.cpp: the calls of `CandidateEventManager`. A call finds the first
-- camera with an id, or with an event of an id, works on it and puts it back.
use paper_breakage_analysis.Base.{
  ℕ, List, [], ◌∷◌, ◌++◌, String, Bool, true, false, not, ◌&&◌, ◌||◌, Option, none, some, Result,
  success, failure, Error, Severity, error, warning, detail, number, ltb, leb, ◌==◌, if◌then◌else◌,
  str_eq, inc_u64, max,
}
use paper_breakage_analysis.Base.Floating.{Floating}
use paper_breakage_analysis.Event.Uuid.{UuidV7Generator, IdInput, as_string}
use paper_breakage_analysis.Event.Candidate.{
  CandidateEventState, idle, suspicious, candidate, confirmed, rejected, timeout, ◌is◌,
  TriggerResult, EventSnapshot, ActiveEvent, CameraTracker, Notification, ManagerConfig,
  candidate_error,
}
use paper_breakage_analysis.Event.Candidate.Observe.{
  holds_at, confirmation_satisfied, forget_observation, validate_result,
}
use paper_breakage_analysis.Event.Candidate.Manager.{
  Tally, Work, transition_decision, expire, accept, free_event,
}

abbrev pub behind_first {ℓ} :
    {A : Type ℓ} → A → Option (List A × A × List A) → Option (List A × A × List A)
behind_first x none = none
behind_first x (some (l, y, r)) = some (x ∷ l, y, r)

-- The first element with a property, and what is before and behind it.
abbrev pub locate {ℓ} : {A : Type ℓ} → (A → Bool) → List A → Option (List A × A × List A)
locate p [] = none
locate p (x ∷ xs) = if p x then some ([], x, xs) else behind_first x (locate p xs)

abbrev pub same_id : List ℕ → List ℕ → Bool
same_id [] [] = true
same_id [] (y ∷ ys) = false
same_id (x ∷ xs) [] = false
same_id (x ∷ xs) (y ∷ ys) = (x == y) && same_id xs ys

module _ (F : Floating) where
  pub record Manager : Type 0 where
    pub config : ManagerConfig F
    pub cameras : List (CameraTracker F)
    pub id_generator : UuidV7Generator
    pub tally : Tally
    pub stopped : Bool

abbrev signal_error : String → Severity → String → String → Error
signal_error code severity id reason =
    candidate_error code severity "event.candidate.externalSignal" id reason

abbrev pub command_name : CandidateEventState → String
command_name s = if s is confirmed then "event.candidate.confirm" else "event.candidate.reject"

abbrev command_error : List ℕ → CandidateEventState → String → Severity → String → Error
command_error id target code severity reason =
    candidate_error code severity (command_name target) (as_string id) reason

abbrev pub count_duplicate : Tally → Tally
count_duplicate t = record t { duplicate_results = inc_u64 t.duplicate_results }

module _ {F : Floating} where
  abbrev pub has_camera_id : String → CameraTracker F → Bool
  has_camera_id id c = str_eq c.camera_id id

  abbrev pub has_event_id : List ℕ → CameraTracker F → Bool
  has_event_id id c = elim c.event [ none ↦ false | some e ↦ same_id e.snapshot.event_id id ]

  abbrev pub throws : Option (Notification F → Bool) → Notification F → Bool
  throws none n = false
  throws (some callback) n = callback n

  -- The failures of the callback are counted.
  unfoldable pub deliver : ManagerConfig F → List (Notification F) → Tally → Tally
  deliver g [] t = t
  deliver g (n ∷ ns) t = deliver g ns (
      if throws g.notification_callback n
      then record t { callback_failures = inc_u64 t.callback_failures }
      else t)

  abbrev pub work_on : Manager F → CameraTracker F → Work F
  work_on m c = record { camera = c; tally = m.tally; notices = [] }

  -- The manager with the work done, and the notifications out.
  abbrev pub commit :
      Manager F → List (CameraTracker F) → List (CameraTracker F) → Work F → Manager F
  commit m before behind w = record m {
    cameras = before ++ (w.camera ∷ behind);
    tally = deliver m.config w.notices w.tally;
  }

  abbrev pub process_refusal : Manager F → Error → Manager F × Result (CameraTracker F × Bool)
  process_refusal m e =
      let t = m.tally in
      (record m { tally = record t { rejected_results = inc_u64 t.rejected_results } }, failure e)

  abbrev pub is_repeat : Option (TriggerResult F) → ℕ → Bool
  is_repeat none n = false
  is_repeat (some last) n = n == last.sequence_number

  -- The outcome of a result that is accepted.
  abbrev process_reply : CameraTracker F → Option Error → Result (CameraTracker F × Bool)
  process_reply c none = success (c, false)
  process_reply c (some e) = failure e

  abbrev pub count_accepted : Work F → Work F
  count_accepted w = record w {
    tally = record (w.tally) { accepted_results = inc_u64 (w.tally).accepted_results };
  }

  abbrev pub conclude :
      Manager F
      → List (CameraTracker F)
      → List (CameraTracker F)
      → UuidV7Generator × Work F × Option Error
      → Manager F × Result (CameraTracker F × Bool)
  conclude m before behind (ids, w, e) =
      (commit (record m { id_generator = ids }) before behind w, process_reply w.camera e)

  -- `process` on the camera of the result, which is refused with an error or valid.
  unfoldable pub process_camera :
      Manager F
      → IdInput
      → TriggerResult F
      → Option Error
      → List (CameraTracker F)
      → CameraTracker F
      → List (CameraTracker F)
      → Manager F × Result (CameraTracker F × Bool)
  process_camera m i r (some e) before c behind = process_refusal m e
  process_camera m i r none before c behind =
      if is_repeat c.last_result r.sequence_number
      then (record m { tally = count_duplicate m.tally }, success (c, true))
      else conclude m before behind
          (accept m.config m.id_generator i r (count_accepted (work_on m c)))

  unfoldable pub process_found :
      Manager F
      → IdInput
      → TriggerResult F
      → Option (List (CameraTracker F) × CameraTracker F × List (CameraTracker F))
      → Manager F × Result (CameraTracker F × Bool)
  process_found m i r none = process_refusal m (
      candidate_error "PIPELINE_FRAME_ORDER_VIOLATION" warning "event.candidate.process" r.camera_id
        "unknown-camera")
  process_found m i r (some (before, c, behind)) =
      process_camera m i r (validate_result c r) before c behind

  -- `process`: the state of the camera after it, and whether the result is a duplicate.
  unfoldable pub process :
      Manager F → IdInput → TriggerResult F → Manager F × Result (CameraTracker F × Bool)
  process m i r =
      if m.stopped
      then process_refusal m (
          candidate_error "EVENT_INVALID_TRANSITION" error "event.candidate.process" r.camera_id
            "manager-stopped")
      else process_found m i r (locate (has_camera_id r.camera_id) m.cameras)

  abbrev pub precedes : Option (TriggerResult F) → ℕ → Bool
  precedes none t = false
  precedes (some r) t = ltb t r.monotonic_time

  abbrev pub signal_tracker : CameraTracker F → Bool → ℕ → ℕ → CameraTracker F
  signal_tracker c active t wall = record c {
    external_signal_active = active;
    external_signal_time = some t;
    external_signal_wall_time = some wall;
  }

  abbrev pub has_event : CameraTracker F → Bool
  has_event c = elim c.event [ none ↦ false | some e ↦ true ]

  -- An external signal that is taken: the deadline first, then the confirmation.
  unfoldable pub signal_work : ManagerConfig F → Bool → ℕ → ℕ → Work F → Work F
  signal_work g active t wall w =
      let w' = expire g t wall w in
      let c = signal_tracker w'.camera active t wall in
      if c.state is candidate && has_event c && confirmation_satisfied g c t
      then transition_decision g confirmed t wall (record w' { camera = c })
      else record w' { camera = c }

  unfoldable pub signal_found :
      Manager F
      → String
      → Bool
      → ℕ
      → ℕ
      → Option (List (CameraTracker F) × CameraTracker F × List (CameraTracker F))
      → Manager F × Result (CameraTracker F)
  signal_found m id active t wall none =
      (m, failure (signal_error "SYS_CONFIG_INVALID" error id "unknown-camera"))
  signal_found m id active t wall (some (before, c, behind)) =
      if m.stopped
      then (m, failure (signal_error "EVENT_INVALID_TRANSITION" error id "manager-stopped"))
      else if holds_at c.external_signal_time (λ s. ltb t s)
      then (
        m,
        failure (signal_error "PIPELINE_FRAME_ORDER_VIOLATION" warning id "signal-time-regression"),
      )
      else if precedes c.last_result t
      then (
        m,
        failure (
            signal_error "PIPELINE_FRAME_ORDER_VIOLATION" warning id "signal-before-latest-result"),
      )
      else (
        commit m before behind (signal_work m.config active t wall (work_on m c)),
        success (signal_work m.config active t wall (work_on m c)).camera,
      )

  unfoldable pub update_external_signal :
      Manager F → String → Bool → ℕ → ℕ → Manager F × Result (CameraTracker F)
  update_external_signal m id active t wall =
      signal_found m id active t wall (locate (has_camera_id id) m.cameras)

  abbrev pub conflict_error : EventSnapshot F → CandidateEventState → ℕ → Error
  conflict_error s target version =
      let x =
        command_error s.event_id target "EVENT_VERSION_CONFLICT" warning
          "expected-version-mismatch" in
      record x {
        details =
            x.details
            ++ (detail "expectedVersion" (number version)
                ∷ detail "currentVersion" (number s.version)
                ∷ []);
      }

  abbrev pub transition_error : EventSnapshot F → CandidateEventState → Severity → String → Error
  transition_error s target severity reason =
      command_error s.event_id target "EVENT_INVALID_TRANSITION" severity reason

  -- `decision_command` on the camera of the event.
  unfoldable pub decide_camera :
      Manager F
      → ℕ
      → CandidateEventState
      → ℕ
      → ℕ
      → List (CameraTracker F)
      → CameraTracker F
      → List (CameraTracker F)
      → EventSnapshot F
      → Manager F × Result (CameraTracker F × Bool)
  decide_camera m version target t wall before c behind s =
      let timed_out = transition_decision m.config timeout t wall (work_on m c) in
      let decided = transition_decision m.config target t wall (work_on m c) in
      if c.state is target
      then (m, success (c, true))
      else if not (version == s.version)
      then (m, failure (conflict_error s target version))
      else if not (c.state is candidate) || m.stopped
      then (m, failure (transition_error s target error "terminal-or-stopped"))
      else if ltb t s.candidate_trigger.monotonic_time
      then (m, failure (transition_error s target error "decision-time-before-candidate"))
      else if leb s.candidate_deadline t
      then (
        commit m before behind timed_out,
        failure (transition_error s target warning "candidate-deadline-reached"),
      )
      else (commit m before behind decided, success (decided.camera, false))

  unfoldable pub decide_with :
      Manager F
      → List ℕ
      → ℕ
      → CandidateEventState
      → ℕ
      → ℕ
      → List (CameraTracker F)
      → CameraTracker F
      → List (CameraTracker F)
      → Option (ActiveEvent F)
      → Manager F × Result (CameraTracker F × Bool)
  decide_with m id version target t wall before c behind none =
      (m, failure (command_error id target "EVENT_NOT_FOUND" error "event-not-found"))
  decide_with m id version target t wall before c behind (some e) =
      decide_camera m version target t wall before c behind e.snapshot

  unfoldable pub decide_found :
      Manager F
      → List ℕ
      → ℕ
      → CandidateEventState
      → ℕ
      → ℕ
      → Option (List (CameraTracker F) × CameraTracker F × List (CameraTracker F))
      → Manager F × Result (CameraTracker F × Bool)
  decide_found m id version target t wall none =
      (m, failure (command_error id target "EVENT_NOT_FOUND" error "event-not-found"))
  decide_found m id version target t wall (some (before, c, behind)) =
      decide_with m id version target t wall before c behind c.event

  unfoldable pub decision_command :
      Manager F
      → List ℕ
      → ℕ
      → CandidateEventState
      → ℕ
      → ℕ
      → Manager F × Result (CameraTracker F × Bool)
  decision_command m id version target t wall =
      decide_found m id version target t wall (locate (has_event_id id) m.cameras)

  abbrev pub confirm : Manager F → List ℕ → ℕ → ℕ → ℕ → Manager F × Result (CameraTracker F × Bool)
  confirm m id version t wall = decision_command m id version confirmed t wall

  abbrev pub reject : Manager F → List ℕ → ℕ → ℕ → ℕ → Manager F × Result (CameraTracker F × Bool)
  reject m id version t wall = decision_command m id version rejected t wall

  -- A loop over the cameras, with the counts and the notifications so far.
  unfoldable pub over_cameras :
      (Work F → Work F)
      → List (CameraTracker F)
      → Tally
      → List (Notification F)
      → List (CameraTracker F) × Tally × List (Notification F)
  over_cameras f [] t ns = ([], t, ns)
  over_cameras f (c ∷ cs) t ns =
      let w = f (record { camera = c; tally = t; notices = ns }) in
      let (cs', t', ns') = over_cameras f cs w.tally w.notices in (w.camera ∷ cs', t', ns')

  abbrev pub commit_all :
      Manager F → List (CameraTracker F) × Tally × List (Notification F) → Manager F
  commit_all m (cs, t, ns) = record m { cameras = cs; tally = deliver m.config ns t }

  unfoldable pub advance_time : Manager F → ℕ → ℕ → Manager F
  advance_time m t wall =
      if m.stopped
      then m
      else commit_all m (over_cameras (expire m.config t wall) m.cameras m.tally [])

  abbrev pub without_lease : Option (ActiveEvent F) → Option (ActiveEvent F)
  without_lease none = none
  without_lease (some e) = some (record e { pre_buffer_lease = none })

  abbrev pub let_lease_go : CameraTracker F → CameraTracker F
  let_lease_go c = record c {
    memory_ring = free_event c.memory_ring c.event;
    event = without_lease c.event;
  }

  abbrev pub trigger_time : CameraTracker F → ℕ
  trigger_time c = elim c.event [ none ↦ 0 | some e ↦ e.snapshot.candidate_trigger.monotonic_time ]

  -- The loop's body of `stop`.
  unfoldable pub stop_camera : ManagerConfig F → ℕ → ℕ → Work F → Work F
  stop_camera g t wall w =
      let c = w.camera in
      let w' = transition_decision g timeout (max t (trigger_time c)) wall w in
      if c.state is candidate && has_event c
      then record w' { camera = let_lease_go w'.camera }
      else if c.state is suspicious
      then record w { camera = forget_observation (record c { state = idle }) }
      else w

  unfoldable pub stop : Manager F → ℕ → ℕ → Manager F
  stop m t wall =
      if m.stopped
      then m
      else commit_all (record m { stopped = true })
          (over_cameras (stop_camera m.config t wall) m.cameras m.tally [])
